-- ===== src/RootVfs/At/Handles.antt =====
-- The calls of src/root_vfs.rs that go through the handle of an open directory, when that is a
-- directory of a `MemoryFS`: `openat` and `mkdirat` with a path of names.
use sandbox_vfs.Base.{
  ℕ, ◌≡◌, ◌≢◌, refl, sym, ap, ◌∙◌, subst, true, false, Option, some, [], ◌++◌, arith, ℤ, int_eq,
  returned, panicked,
}
use sandbox_vfs.FilePath.{FilePath, is_absolute, join}
use sandbox_vfs.FilePath.Below.{
  is_relative, join-names, IsNormal-append, absolute_normal, is_absolute-append,
}
use sandbox_vfs.FilePath.Normal.{AllNames, IsNormal}
use sandbox_vfs.Filesystem.{dir, OpenResult}
use sandbox_vfs.Libc.{at_fdcwd}
use sandbox_vfs.Memory.{Kernel, Heap, MemoryFs, MemoryOpenedFile, resolve}
use sandbox_vfs.Memory.Backend.{
  memory_backend, memory_opened_file, mkdir_child, open_result, status_of,
}
use sandbox_vfs.Memory.Create.{create_node}
use sandbox_vfs.Memory.Open.{open_node}
use sandbox_vfs.Memory.Open.Relative.{create-below, open-below}
use sandbox_vfs.RootVfs.{
  FdInfo, RootVfs, VfsState, lift_outcome, normalize_absolute, resolve_path, absolute_path_to_fs,
  path_to_fs, backend_at,
}
use sandbox_vfs.RootVfs.At.{
  tracked_handle, openat_from_tracked_handle, openat, mkdirat_from_tracked_handle, mkdirat,
}
use sandbox_vfs.RootVfs.Backend.{dispatch, mkdir}
use sandbox_vfs.RootVfs.Normalize.{normalize_absolute-normal}
use sandbox_vfs.RootVfs.Open.{open_path, track_open}

-- The two routes of a call, over any backends.
module _ {W H : Type 0} (vfs : RootVfs W H) (s : VfsState W H) where
  module _ (dirfd : ℤ) (p : FilePath) (info : FdInfo H) (handle : H) (w : W)
      (served : tracked_handle s dirfd p ≡ some (info, handle)) where
    openat_handled :
        (flag mode : ℕ) (r : OpenResult H)
        → vfs.handles.open_child handle p flag mode s.world ≡ returned (some r) w
        → openat vfs dirfd p flag mode s
          ≡ track_open r (normalize_absolute (join info.path p)) (record s { world = w })
    unfolding openat openat_from_tracked_handle track_open
    openat_handled flag mode r e = ground (arith, served, e)

    mkdirat_handled :
        (mode : ℕ) (result : ℤ)
        → vfs.handles.mkdir_child handle p mode s.world ≡ returned (some result) w
        → mkdirat vfs dirfd p mode s ≡ returned result (record s { world = w })
    unfolding mkdirat mkdirat_from_tracked_handle
    mkdirat_handled mode result e = ground (arith, served, e)

  module _ (q v b : FilePath) (key : Option FilePath) (w : W) (resolved : resolve_path s q ≡ v)
      (held : absolute_path_to_fs vfs v ≡ (key, b)) where
    open_path_held :
        (flag mode : ℕ) (r : OpenResult H)
        → (backend_at vfs key).open_with_handle b flag mode s.world ≡ returned r w
        → open_path vfs q flag mode s ≡ track_open r v (record s { world = w })
    unfolding open_path
    open_path_held flag mode r e =
        rw (resolved, held)
          (ap
            (λ o. elim (lift_outcome s o) [
              | returned a s' ↦ track_open a v s'
              | panicked s' ↦ panicked s'
            ])
            e)

    mkdir_held :
        (mode : ℕ) (result : ℤ)
        → (backend_at vfs key).mkdir b mode s.world ≡ returned result w
        → mkdir vfs q mode s ≡ returned result (record s { world = w })
    unfolding mkdir dispatch path_to_fs
    mkdir_held mode result e = rw (resolved, held, e) refl

-- A process has a descriptor open on a directory of a `MemoryFS`, to which the path `base` of that
-- file system leads, and the paths of its entries are those below `base`.
module _ {K : Type 0} (os : Kernel K) (fs : MemoryFs) (vfs : RootVfs (Heap K) MemoryOpenedFile)
    (handles : vfs.handles ≡ memory_opened_file os) (s : VfsState (Heap K) MemoryOpenedFile)
    (dirfd : ℤ) (info : FdInfo MemoryOpenedFile) (d : ℕ) (base p : FilePath) (key : Option FilePath)
    (is_open : s.fds dirfd ≡ some info)
    (handle : info.opened ≡ some (record { node = d; nodes = fs.nodes }))
    (descriptor : int_eq dirfd at_fdcwd ≡ false) (found : resolve fs s.world base ≡ some d)
    (names : AllNames p) (some_name : p ≢ []) (tracked : IsNormal info.path)
    (held : absolute_path_to_fs vfs (info.path ++ p) ≡ (key, base ++ p))
    (backend : backend_at vfs key ≡ memory_backend os fs) (absolute : is_absolute base ≡ true) where
  joined : normalize_absolute (join info.path p) ≡ info.path ++ p
  joined =
      ap normalize_absolute (join-names info.path p tracked names)
      ∙ normalize_absolute-normal (info.path ++ p) (IsNormal-append info.path p tracked names)

  resolved : resolve_path s (join info.path p) ≡ info.path ++ p
  unfolding resolve_path
  resolved =
      rw
        (absolute_normal (join info.path p) (
          subst IsNormal (sym (join-names info.path p tracked names))
            (IsNormal-append info.path p tracked names)))
        joined

  through_handle : tracked_handle s dirfd p ≡ some (info, record { node = d; nodes = fs.nodes })
  unfolding tracked_handle
  through_handle = ground (arith, is_relative p names, is_open, handle, descriptor)

  abbrev opening : ℕ → ℕ → (ℤ × Option ℕ) × Heap K
  opening flag mode = open_node os fs (base ++ p) flag mode s.world

  child_opened :
      (flag mode : ℕ)
      → (memory_opened_file os).open_child
          (record { node = d; nodes = fs.nodes })
          p
          flag
          mode
          s.world
        ≡ returned (some (open_result os fs.nodes (opening flag mode).0)) (opening flag mode).1
  unfolding memory_opened_file
  child_opened flag mode =
      rw (open-below os fs s.world base d found p flag mode names some_name) refl

  path_opened :
      (flag mode : ℕ)
      → (memory_backend os fs).open_with_handle (base ++ p) flag mode s.world
        ≡ returned (open_result os fs.nodes (opening flag mode).0) (opening flag mode).1
  unfolding memory_backend
  path_opened flag mode = rw (is_absolute-append base p absolute) refl

  openat-open_path :
      (flag mode : ℕ)
      → openat vfs dirfd p flag mode s ≡ open_path vfs (join info.path p) flag mode s
  openat-open_path flag mode =
      let r = open_result os fs.nodes (opening flag mode).0 in
      let w = (opening flag mode).1 in
      openat_handled vfs s dirfd p info (record { node = d; nodes = fs.nodes }) w through_handle
        flag mode r
        (ap (λ o. o.open_child (record { node = d; nodes = fs.nodes }) p flag mode s.world) handles
          ∙ child_opened flag mode)
      ∙ ap (λ v. track_open r v (record s { world = w })) joined
      ∙ sym (
          open_path_held vfs s (join info.path p) (info.path ++ p) (base ++ p) key w resolved held
            flag mode r
            (ap (λ b. b.open_with_handle (base ++ p) flag mode s.world) backend
              ∙ path_opened flag mode))

  abbrev making : ℕ → Option ℕ × Heap K
  making mode = create_node os fs (base ++ p) dir mode s.world

  child_made :
      (mode : ℕ)
      → (memory_opened_file os).mkdir_child (record { node = d; nodes = fs.nodes }) p mode s.world
        ≡ returned (some (status_of (making mode).0)) (making mode).1
  unfolding memory_opened_file mkdir_child
  child_made mode =
      rw (is_relative p names, create-below os fs s.world base d found p dir mode names some_name)
        refl

  path_made :
      (mode : ℕ)
      → (memory_backend os fs).mkdir (base ++ p) mode s.world
        ≡ returned (status_of (making mode).0) (making mode).1
  unfolding memory_backend
  path_made mode = rw (is_absolute-append base p absolute) refl

  mkdirat-mkdir : (mode : ℕ) → mkdirat vfs dirfd p mode s ≡ mkdir vfs (join info.path p) mode s
  mkdirat-mkdir mode =
      let result = status_of (making mode).0 in
      let w = (making mode).1 in
      mkdirat_handled vfs s dirfd p info (record { node = d; nodes = fs.nodes }) w through_handle
        mode result
        (ap (λ o. o.mkdir_child (record { node = d; nodes = fs.nodes }) p mode s.world) handles
          ∙ child_made mode)
      ∙ sym (
          mkdir_held vfs s (join info.path p) (info.path ++ p) (base ++ p) key w resolved held mode
            result (ap (λ b. b.mkdir (base ++ p) mode s.world) backend ∙ path_made mode))

  -- A process has a descriptor open on a directory of a `MemoryFS`, entered under a normal path and
  -- with a handle on the directory; an absolute path of that file system leads to the directory still,
  -- and the dispatch of the path that is asked for goes to the same file system, below that path. Then
  -- openat and mkdirat on the descriptor with a path of names, one at least, do all that open and mkdir
  -- do with the path of the descriptor and that path behind it.
  pub at_handle :
      (flag mode : ℕ)
      → (openat vfs dirfd p flag mode s ≡ open_path vfs (join info.path p) flag mode s)
        × (mkdirat vfs dirfd p mode s ≡ mkdir vfs (join info.path p) mode s)
  at_handle flag mode = (openat-open_path flag mode, mkdirat-mkdir mode)
