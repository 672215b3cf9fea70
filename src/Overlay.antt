-- ===== src/Overlay.antt =====
-- src/impls/overlay.rs: `OverlayFS` over any layers.
pub mod Listing
pub mod Writes
pub mod Reads
use sandbox_vfs.Base.{
  ℕ, Bool, true, false, ◌||◌, Option, none, some, List, [], ◌∷◌, ◌++◌, reverse, ℤ, pos, Bytes,
  bytes_eq, int_eq, has_flag, bit_or, ◌==◌, if◌then◌else◌, Action, pure, ◌>>=◌, ◌>>◌,
}
use sandbox_vfs.FilePath.{FilePath, root_path, path_eq, parent, ancestors}
use sandbox_vfs.Filesystem.{DirEntry, Stat, OpenResult, LowLevelFs}
use sandbox_vfs.Libc.{f_ok, o_wronly, o_rdwr, o_append, o_creat, o_trunc}

pub record OverlayFs (W H : Type 0) : Type 0 where
  pub id : Bytes
  pub top : LowLevelFs W H
  pub middle : Option (LowLevelFs W H)
  pub base : LowLevelFs W H

-- oflag & (O_WRONLY | O_RDWR | O_APPEND | O_CREAT | O_TRUNC) != 0
unfoldable pub writes : ℕ → Bool
writes oflag =
    has_flag oflag (bit_or (bit_or (bit_or (bit_or o_wronly o_rdwr) o_append) o_creat) o_trunc)

-- A name that an upper layer lists hides the same name in a lower one.
unfoldable pub lists_name : List DirEntry → Bytes → Bool
lists_name [] name = false
lists_name (e ∷ es) name = bytes_eq e.name name || lists_name es name

unfoldable pub push_new : List DirEntry → List DirEntry → List DirEntry
unfolding lists_name
push_new entries [] = entries
push_new entries (e ∷ es) =
    push_new (if lists_name entries e.name then entries else entries ++ e ∷ []) es

module _ {W H : Type 0} where
  unfoldable pub new : Bytes → LowLevelFs W H → LowLevelFs W H → OverlayFs W H
  new id top_rw_layer base = record { id = id; top = top_rw_layer; middle = none; base = base }

  unfoldable pub with_extra_base : OverlayFs W H → LowLevelFs W H → OverlayFs W H
  with_extra_base fs layer = record fs { middle = some layer }

  -- fs.access(path, F_OK) == 0
  unfoldable pub has : LowLevelFs W H → FilePath → Action W Bool
  has layer path = do status ← layer.access path f_ok; pure (int_eq status (pos 0))

  unfoldable pub has_optional : Option (LowLevelFs W H) → FilePath → Action W Bool
  unfolding has
  has_optional none path = pure false
  has_optional (some layer) path = has layer path

  unfoldable pub below_top : OverlayFs W H → FilePath → Action W (LowLevelFs W H)
  unfolding has
  below_top fs path = elim fs.middle [
    | none ↦ pure fs.base
    | some middle ↦ do found ← has middle path; if found then pure middle else pure fs.base
  ]

  unfoldable pub visible_layer : OverlayFs W H → FilePath → Action W (LowLevelFs W H)
  unfolding has below_top
  visible_layer fs path = do
    found ← has fs.top path
    if found then pure fs.top else below_top fs path

  unfoldable pub path_exists_below_top : OverlayFs W H → FilePath → Action W Bool
  unfolding has has_optional
  path_exists_below_top fs path = do
    in_middle ← has_optional fs.middle path
    if in_middle then pure true else has fs.base path

  -- The body of the loop over the ancestors, outermost first, without the root.
  unfoldable pub make_missing : LowLevelFs W H → List FilePath → Action W (Unit {0})
  unfolding has
  make_missing top [] = pure tt
  make_missing top (p ∷ ps) =
      let rest = make_missing top ps in
      if path_eq p root_path
      then rest
      else (do found ← has top p; if found then rest else (do top.mkdir p 0o755; rest))

  unfoldable pub ensure_top_parent_dirs : OverlayFs W H → FilePath → Action W (Unit {0})
  unfolding has path_exists_below_top make_missing
  ensure_top_parent_dirs fs path = elim (parent path) [
    | none ↦ pure tt
    | some parent_dir ↦ do
      on_top ← has fs.top parent_dir
      if on_top then pure tt else (do
        below ← path_exists_below_top fs parent_dir
        if below then make_missing fs.top (reverse (ancestors parent_dir)) else pure tt)
  ]

  module _ (fs : OverlayFs W H) where
    -- Both branches on `mode` ask the visible layer for that mode.
    unfoldable pub access : FilePath → ℕ → Action W ℤ
    unfolding visible_layer
    access path mode = do
      layer ← visible_layer fs path
      if mode == f_ok then layer.access path f_ok else layer.access path mode

    unfoldable pub open_path : FilePath → ℕ → ℕ → Action W ℤ
    unfolding visible_layer ensure_top_parent_dirs writes
    open_path path oflag mode =
        if writes oflag
        then (do ensure_top_parent_dirs fs path; fs.top.open_path path oflag mode)
        else (do layer ← visible_layer fs path; layer.open_path path oflag mode)

    unfoldable pub open_with_handle : FilePath → ℕ → ℕ → Action W (OpenResult H)
    unfolding visible_layer ensure_top_parent_dirs writes
    open_with_handle path oflag mode =
        if writes oflag
        then (do ensure_top_parent_dirs fs path; fs.top.open_with_handle path oflag mode)
        else (do layer ← visible_layer fs path; layer.open_with_handle path oflag mode)

    unfoldable pub openat : ℤ → FilePath → ℕ → ℕ → Action W ℤ
    unfolding open_path
    openat dirfd path flag mode = open_path path flag mode

    unfoldable pub mkdir : FilePath → ℕ → Action W ℤ
    unfolding ensure_top_parent_dirs
    mkdir path mode = do ensure_top_parent_dirs fs path; fs.top.mkdir path mode

    unfoldable pub unlink : FilePath → Action W ℤ
    unfolding has visible_layer
    unlink path = do
      on_top ← has fs.top path
      if on_top then fs.top.unlink path else (do layer ← visible_layer fs path; layer.unlink path)

    unfoldable pub rmdir : FilePath → Action W ℤ
    unfolding has visible_layer
    rmdir path = do
      on_top ← has fs.top path
      if on_top then fs.top.rmdir path else (do layer ← visible_layer fs path; layer.rmdir path)

    unfoldable pub rename : FilePath → FilePath → Action W ℤ
    unfolding has visible_layer ensure_top_parent_dirs
    rename old_path new_path = do
      on_top ← has fs.top old_path
      if on_top
          then (do ensure_top_parent_dirs fs new_path; fs.top.rename old_path new_path)
          else (do layer ← visible_layer fs old_path; layer.rename old_path new_path)

    unfoldable pub chmod : FilePath → ℕ → Action W ℤ
    unfolding visible_layer
    chmod path mode = do layer ← visible_layer fs path; layer.chmod path mode

    unfoldable pub stat : FilePath → Stat → Action W (ℤ × Stat)
    unfolding visible_layer
    stat path statbuf = do layer ← visible_layer fs path; layer.stat path statbuf

    -- The loop over the layers, from the top; the flag is `saw_virtual_layer`.
    unfoldable pub merge_layers :
        FilePath → List (LowLevelFs W H) → List DirEntry → Bool → Action W (Option (List DirEntry))
    unfolding push_new
    merge_layers path [] entries saw = pure (if saw then some entries else none)
    merge_layers path (layer ∷ layers) entries saw = do
      listed ← layer.read_dir path
      elim listed [
        | none ↦ merge_layers path layers entries saw
        | some layer_entries ↦ merge_layers path layers (push_new entries layer_entries) true
      ]

    unfoldable pub layers : List (LowLevelFs W H)
    layers = elim fs.middle [
      | none ↦ fs.top ∷ fs.base ∷ []
      | some middle ↦ fs.top ∷ middle ∷ fs.base ∷ []
    ]

    unfoldable pub read_dir : FilePath → Action W (Option (List DirEntry))
    unfolding merge_layers layers
    read_dir path = merge_layers path layers [] false

    unfoldable pub overlay_backend : LowLevelFs W H
    unfolding access open_path openat mkdir unlink rmdir rename chmod stat open_with_handle read_dir
    overlay_backend = record {
      id = fs.id;
      access = access;
      open_path = open_path;
      openat = openat;
      mkdir = mkdir;
      unlink = unlink;
      rmdir = rmdir;
      rename = rename;
      chmod = chmod;
      stat = stat;
      open_with_handle = open_with_handle;
      read_dir = read_dir;
    }
