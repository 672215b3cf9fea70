-- ===== src/Tests/Listings.antt =====
-- Listings: the records of a directory, and the merged listing of an overlay.
use sandbox_vfs.Base.{
  returned, true, ◌≡◌, ◌+◌, refl, false, Option, none, some, [], ◌∷◌, ◌++◌, codes, ℕ, pos, List,
  length, arith, pure, ℤ, negsuc, ◌≢◌, inl, inr,
}
use sandbox_vfs.FilePath.{FilePath, root_path}
use sandbox_vfs.Filesystem.{DirEntry, file, dir, LowLevelFs}
use sandbox_vfs.Dirents.{dot_entries, write_dirents64}
use sandbox_vfs.Dirents.Records.{NamesFit, Written, write_dirents64-Written}
use sandbox_vfs.Overlay
use sandbox_vfs.Overlay.{OverlayFs, layers, read_dir}
use sandbox_vfs.Overlay.Listing.{Merged, read_dir-Merged}
use sandbox_vfs.Overlay.{writes}
use sandbox_vfs.Overlay.Reads.{AllAnswer, IsVisible, GoesTo, ChangesTop, calls-IsVisible}
use sandbox_vfs.Overlay.Writes.{Keeps, Apart, writes-Keeps}

hash : FilePath → ℕ
hash p = length p

listed : List DirEntry
listed =
    record { name = codes "f"; kind = file; ino = some 3 }
    ∷ record { name = codes "g"; kind = dir; ino = none }
    ∷ []

listed-NamesFit : NamesFit (dot_entries ++ listed)
unfolding listed
listed-NamesFit = (omega arith, (omega arith, (omega arith, (omega arith, tt))))

write_dirents64-Written_example :
    Written hash root_path 0 60
      (dot_entries ++ listed)
      (write_dirents64 hash root_path (dot_entries ++ listed) 0 false (pos 60))
write_dirents64-Written_example =
    write_dirents64-Written hash root_path 0 60 (dot_entries ++ listed) listed-NamesFit
      (omega arith)

-- A layer with one listing, for every path.
layer : Option (List DirEntry) → LowLevelFs (Unit {0}) (Unit {0})
layer es = record {
  id = [];
  access = λ path mode. pure (pos 0);
  open_path = λ path flag mode. pure (pos 7);
  openat = λ fd path flag mode. pure (pos 7);
  mkdir = λ path mode. pure (pos 0);
  unlink = λ path. pure (pos 0);
  rmdir = λ path. pure (pos 0);
  rename = λ path path'. pure (pos 0);
  chmod = λ path mode. pure (pos 0);
  stat = λ path statbuf. pure (pos 0, statbuf);
  open_with_handle = λ path flag mode. pure (record { fd = pos 7; opened = none });
  read_dir = λ path. pure es;
}

overlay : OverlayFs (Unit {0}) (Unit {0})
unfolding Overlay.new
overlay = Overlay.new [] (layer (some listed)) (layer (some dot_entries))

read_dir-Merged_example :
    Merged tt [] false (some listed ∷ some dot_entries ∷ []) (read_dir overlay root_path tt)
unfolding overlay layer layers
read_dir-Merged_example =
    read_dir-Merged overlay root_path tt (some listed ∷ some dot_entries ∷ []) (refl, (refl, tt))

-- Two layers, with a count of the changes of each.
counted : ((ℕ × ℕ) → ℕ × ℕ) → LowLevelFs (ℕ × ℕ) (Unit {0})
counted count = record {
  id = [];
  access = λ path mode w. returned (pos 1) w;
  open_path = λ path flag mode w. returned (pos 7) (count w);
  openat = λ fd path flag mode w. returned (pos 7) (count w);
  mkdir = λ path mode w. returned (pos 0) (count w);
  unlink = λ path w. returned (pos 0) (count w);
  rmdir = λ path w. returned (pos 0) (count w);
  rename = λ path path' w. returned (pos 0) (count w);
  chmod = λ path mode w. returned (pos 0) (count w);
  stat = λ path statbuf w. returned (pos 0, statbuf) w;
  open_with_handle = λ path flag mode w. returned (record { fd = pos 7; opened = none }) (count w);
  read_dir = λ path w. returned none w;
}

counting_overlay : OverlayFs (ℕ × ℕ) (Unit {0})
unfolding Overlay.new
counting_overlay = Overlay.new [] (counted (λ (a, b). (a + 1, b))) (counted (λ (a, b). (a, b + 1)))

counting_overlay-Apart : Apart (λ (w : ℕ × ℕ). w.1) counting_overlay
unfolding counting_overlay counted
counting_overlay-Apart =
    (λ path mode w. refl, tt, λ path mode w. refl, λ path mode w. refl, λ path flag mode w. refl)

writes_flags : writes 0o101 ≡ true
unfolding writes
writes_flags = refl

writes-Keeps_example :
    Keeps (λ (w : ℕ × ℕ). w.1) (Overlay.mkdir counting_overlay root_path 0o755)
    × Keeps (λ (w : ℕ × ℕ). w.1) (Overlay.open_with_handle counting_overlay root_path 0o101 0o755)
writes-Keeps_example =
    writes-Keeps (λ (w : ℕ × ℕ). w.1) counting_overlay counting_overlay-Apart root_path 0o101 0o755
      writes_flags

-- A file system that has every path, or none.
asked : ℤ → LowLevelFs (Unit {0}) (Unit {0})
unfolding layer
asked status = record (layer none) { access = λ path mode. pure status }

three_layers : OverlayFs (Unit {0}) (Unit {0})
unfolding Overlay.new Overlay.with_extra_base
three_layers =
    Overlay.with_extra_base (Overlay.new [] (asked (negsuc 0)) (asked (pos 0))) (asked (pos 0))

missing : negsuc 0 ≢ pos 0
missing e = cc

three_layers-AllAnswer : AllAnswer root_path tt (layers three_layers)
unfolding three_layers asked layers
three_layers-AllAnswer = (inr (negsuc 0, refl, missing), (inl refl, (inl refl, tt)))

-- The middle layer is the first that has the path.
calls-IsVisible_example :
    ((v : LowLevelFs (Unit {0}) (Unit {0})) × IsVisible root_path tt v (layers three_layers)
      × GoesTo root_path tt three_layers v)
    × ChangesTop root_path tt three_layers
calls-IsVisible_example = calls-IsVisible root_path tt three_layers three_layers-AllAnswer
