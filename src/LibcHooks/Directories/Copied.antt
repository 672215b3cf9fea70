-- ===== src/LibcHooks/Directories/Copied.antt =====
-- The copy of a listing on the host, as the calls of the host that make it, and what a chain of calls
-- of src/libc_hooks.rs gives.
use sandbox_vfs.Base.{
  ◌≡◌, refl, ap, false, Option, none, some, List, [], ◌∷◌, ◌++◌, ℤ, pos, Bytes, is_negative,
  Bool-cases, inl, inr, if◌then◌else◌, bit_or, Action, Outcome, returned, panicked, ◌>>=◌,
  outcome_then,
}
use sandbox_vfs.CStr.{has_nul, path_to_cstring}
use sandbox_vfs.FilePath.{FilePath, join}
use sandbox_vfs.FilePath.Text.{parse, print}
use sandbox_vfs.Filesystem.{EntryKind, file, dir, DirEntry}
use sandbox_vfs.Libc.{o_creat, o_wronly, o_trunc}
use sandbox_vfs.RootVfs
use sandbox_vfs.RootVfs.{lift}
use sandbox_vfs.LibcHooks.{Originals}
use sandbox_vfs.LibcHooks.Directories.{
  MaterializedDir, HookState, Hooks, is_dot, lift_outcome, lift_vfs,
}

-- The listing without `.` and `..`, which every directory of the host has anyway.
abbrev pub children : List DirEntry → List DirEntry
children [] = []
children (e ∷ es) = let rest = children es in if is_dot e then rest else e ∷ rest

abbrev pub c_string : FilePath → Bytes
c_string p = print p ++ 0 ∷ []

module _ {W : Type 0} (orig : Originals W) where
  -- The calls of the host that make an entry, from one state of the world to another.
  abbrev pub Made : Bytes → EntryKind → W → W → Type 0
  Made c dir w w' = orig.mkdir c 0o700 w ≡ returned (pos 0) w'
  Made c file w w' =
      (fd : ℤ) × (opened : W) × (orig.open_path c (bit_or (bit_or o_creat o_wronly) o_trunc) 0o600 w
        ≡ returned fd opened)
      × (is_negative fd ≡ false)
      × (orig.close fd opened ≡ returned (pos 0) w')

  -- The entries are made below the path, one after the other, and nothing else is called.
  abbrev pub AllMade : FilePath → List DirEntry → W → W → Type 0
  AllMade path [] w w' = w ≡ w'
  AllMade path (e ∷ es) w w' =
      (has_nul (print (join path (parse e.name))) ≡ false)
      × ((next : W) × Made (c_string (join path (parse e.name))) e.kind w next
          × AllMade path es next w')

  -- The directory of the copy is made first.
  abbrev pub CopiedTo : FilePath → List DirEntry → W → W → Type 0
  CopiedTo path entries w w' =
      (has_nul (print path) ≡ false)
      × ((next : W) × (orig.mkdir (c_string path) 0o700 w ≡ returned (pos 0) next)
          × AllMade path entries next w')

module _ {W H : Type 0} where
  -- The process with another world.
  abbrev pub with_world : HookState W H → W → HookState W H
  with_world s w = record s { vfs = record s.vfs { world = w } }

  -- The copy that is given has these entries, and the world has come to where they are made.
  abbrev pub Gives :
      (W → Type 0)
      → FilePath
      → List DirEntry
      → Outcome (HookState W H) (Option MaterializedDir)
      → Type 0
  Gives P path entries (panicked s) = Unit {0}
  Gives P path entries (returned none s) = Unit {0}
  Gives P path entries (returned (some m) s) =
      (m.path ≡ path) × (m.entries ≡ entries) × P s.vfs.world

  -- No copy is given, or it stands at the path with all of the entries, and the calls of the host that
  -- were made from the world at the start are those that make it.
  abbrev pub IsCopy :
      Originals W
      → FilePath
      → List DirEntry
      → W
      → Outcome (HookState W H) (Option MaterializedDir)
      → Type 0
  IsCopy orig path entries w o = Gives (CopiedTo orig path entries w) path entries o

  pub Gives-after :
      {A : Type 0} (P : W → Type 0) (path : FilePath) (entries : List DirEntry) (m : Hooks W H A)
      (f : A → Hooks W H (Option MaterializedDir))
      → ((a : A) (s : HookState W H) → Gives P path entries (f a s))
      → (s : HookState W H) → Gives P path entries ((m >>= f) s)
  Gives-after P path entries m f next s =
      outcome_then (λ o. Unit {0}) (Gives P path entries) f (m s) tt (λ a s' _. next a s')
        (λ s' _. tt)

  pub Gives-map :
      (P Q : W → Type 0) (path : FilePath) (entries : List DirEntry)
      → ((w : W) → P w → Q w)
      → (o : Outcome (HookState W H) (Option MaterializedDir)) → Gives P path entries o
      → Gives Q path entries o
  Gives-map P Q path entries f (panicked s) g = tt
  Gives-map P Q path entries f (returned none s) g = tt
  Gives-map P Q path entries f (returned (some m) s) (a, b, p) = (a, b, f s.vfs.world p)

  -- A path that has a nul byte in it panics, and any other is its C string.
  pub cstring_then :
      (P : W → Type 0) (path : FilePath) (entries : List DirEntry) (p : FilePath)
      (f : Bytes → Hooks W H (Option MaterializedDir)) (s : HookState W H)
      → (has_nul (print p) ≡ false → Gives P path entries (f (c_string p) s))
      → Gives P path entries ((path_to_cstring p >>= f) s)
  unfolding path_to_cstring
  cstring_then P path entries p f s next = elim (Bool-cases (has_nul (print p))) [
    | inl e ↦ rw e tt
    | inr e ↦ rw e (next e)
  ]

  -- A call of the host that panics gives no copy.
  pub lifted_then :
      {A : Type 0} (P : W → Type 0) (path : FilePath) (entries : List DirEntry) (call : Action W A)
      (f : A → Hooks W H (Option MaterializedDir)) (s : HookState W H)
      → ((a : A) (w : W)
          → call s.vfs.world ≡ returned a w
          → Gives P path entries (f a (with_world s w)))
      → Gives P path entries ((lift_vfs (lift call) >>= f) s)
  lifted_then {A} P path entries call f s next = go (call s.vfs.world) (λ a w e. next a w e)
    where
      go :
          (o : Outcome W A)
          → ((a : A) (w : W) → o ≡ returned a w → Gives P path entries (f a (with_world s w)))
          → Gives P path entries (elim (lift_outcome s (RootVfs.lift_outcome s.vfs o)) [
            | returned a t ↦ f a t
            | panicked t ↦ panicked t
          ])
      go (returned a w) step = step a w refl
      go (panicked w) step = tt

  pub path_to_cstring_ok :
      (p : FilePath) (s : HookState W H)
      → has_nul (print p) ≡ false
      → path_to_cstring p s ≡ returned (c_string p) s
  unfolding path_to_cstring
  path_to_cstring_ok p s e = rw e refl

  pub lifted_ok :
      (call : Action W ℤ) (s : HookState W H) (result : ℤ) (w : W)
      → call s.vfs.world ≡ returned result w
      → lift_vfs (lift {H = H} call) s ≡ returned result (with_world s w)
  lifted_ok call s result w e = ap (λ o. lift_outcome s (RootVfs.lift_outcome s.vfs o)) e
