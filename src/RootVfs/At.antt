-- ===== src/RootVfs/At.antt =====
-- src/root_vfs.rs: the calls that take a directory descriptor.
pub mod Plain
pub mod Handles
use sandbox_vfs.Base.{
  ℕ, Bool, true, false, ◌||◌, Option, none, some, ℤ, minus_one, int_eq, has_flag, if◌then◌else◌,
  Action, pure, ◌>>=◌,
}
use sandbox_vfs.FilePath.{FilePath, is_absolute, join, path_eq}
use sandbox_vfs.Filesystem.{LowLevelFs}
use sandbox_vfs.Libc.{at_fdcwd, at_removedir}
use sandbox_vfs.RootVfs.{
  RootVfs, VfsState, FdInfo, Vfs, lift, normalize_absolute, resolve_openat_path,
  absolute_path_to_fs, backend_at,
}
use sandbox_vfs.RootVfs.Open.{track_open}

-- std::ptr::eq on backends, by their keys
unfoldable pub same_fs : Option FilePath → Option FilePath → Bool
same_fs none none = true
same_fs (some p) (some q) = path_eq p q
same_fs _ _ = false

module _ {W H : Type 0} where
  unfoldable pub resolve_at : VfsState W H → ℤ → FilePath → Option FilePath
  unfolding resolve_openat_path
  resolve_at s dirfd path = resolve_openat_path s dirfd path

  -- The descriptor's entry, if the call may go through its handle.
  unfoldable pub tracked_handle : VfsState W H → ℤ → FilePath → Option (FdInfo H × H)
  tracked_handle s dirfd path =
      if is_absolute path || int_eq dirfd at_fdcwd then none else (elim (s.fds dirfd) [
        | none ↦ none
        | some info ↦ elim info.opened [ none ↦ none | some opened ↦ some (info, opened) ]
      ])

  unfoldable pub openat_from_tracked_handle :
      RootVfs W H → ℤ → FilePath → ℕ → ℕ → Vfs W H (Option ℤ)
  unfolding tracked_handle normalize_absolute track_open
  openat_from_tracked_handle vfs dirfd path flag mode s = elim (tracked_handle s dirfd path) [
    | none ↦ pure none s
    | some (info, opened) ↦
        let virtual_path = normalize_absolute (join info.path path) in
        let act : Vfs W H (Option ℤ) = (do
          child ← lift (vfs.handles.open_child opened path flag mode)
          elim child [
            | none ↦ pure none
            | some result ↦ do fd ← track_open result virtual_path; pure (some fd)
          ]) in
        act s
  ]

  unfoldable pub mkdirat_from_tracked_handle : RootVfs W H → ℤ → FilePath → ℕ → Vfs W H (Option ℤ)
  unfolding tracked_handle
  mkdirat_from_tracked_handle vfs dirfd path mode s = elim (tracked_handle s dirfd path) [
    | none ↦ pure none s
    | some (info, opened) ↦ lift (vfs.handles.mkdir_child opened path mode) s
  ]

  -- The look-up by virtual path, when no handle serves the call.
  unfoldable pub openat_by_path : RootVfs W H → ℤ → FilePath → ℕ → ℕ → Vfs W H ℤ
  unfolding resolve_openat_path absolute_path_to_fs backend_at track_open
  openat_by_path vfs dirfd path flag mode s = elim (resolve_openat_path s dirfd path) [
    | none ↦ pure minus_one s
    | some virtual_path ↦
        let (key, backend_path) = absolute_path_to_fs vfs virtual_path in
        let act : Vfs W H ℤ = (do
          result ← lift ((backend_at vfs key).open_with_handle backend_path flag mode)
          track_open result virtual_path) in
        act s
  ]

  unfoldable pub openat : RootVfs W H → ℤ → FilePath → ℕ → ℕ → Vfs W H ℤ
  unfolding openat_from_tracked_handle openat_by_path
  openat vfs dirfd path flag mode = do
    served ← openat_from_tracked_handle vfs dirfd path flag mode
    elim served [ some fd ↦ pure fd | none ↦ openat_by_path vfs dirfd path flag mode ]

  -- Resolve against the descriptor, then hand the path to the backend that holds it.
  unfoldable pub dispatch_at :
      RootVfs W H → (LowLevelFs W H → FilePath → Action W ℤ) → ℤ → FilePath → Vfs W H ℤ
  unfolding resolve_openat_path absolute_path_to_fs backend_at
  dispatch_at vfs call dirfd path s = elim (resolve_openat_path s dirfd path) [
    | none ↦ pure minus_one s
    | some virtual_path ↦
        let (key, backend_path) = absolute_path_to_fs vfs virtual_path in
        lift (call (backend_at vfs key) backend_path) s
  ]

  unfoldable pub mkdirat : RootVfs W H → ℤ → FilePath → ℕ → Vfs W H ℤ
  unfolding mkdirat_from_tracked_handle dispatch_at
  mkdirat vfs dirfd path mode = do
    served ← mkdirat_from_tracked_handle vfs dirfd path mode
    elim served [
      | some result ↦ pure result
      | none ↦ dispatch_at vfs (λ fs p. fs.mkdir p mode) dirfd path
    ]

  unfoldable pub unlinkat : RootVfs W H → ℤ → FilePath → ℕ → Vfs W H ℤ
  unfolding dispatch_at
  unlinkat vfs dirfd path flags =
      dispatch_at vfs (λ fs p. if has_flag flags at_removedir then fs.rmdir p else fs.unlink p)
        dirfd path

  unfoldable pub renameat : RootVfs W H → ℤ → FilePath → ℤ → FilePath → Vfs W H ℤ
  unfolding resolve_openat_path absolute_path_to_fs backend_at same_fs
  renameat vfs old_dirfd old_path new_dirfd new_path s =
      elim (resolve_openat_path s old_dirfd old_path) [
        | none ↦ pure minus_one s
        | some old_virtual_path ↦ elim (resolve_openat_path s new_dirfd new_path) [
          | none ↦ pure minus_one s
          | some new_virtual_path ↦
              let (old_key, old_backend_path) = absolute_path_to_fs vfs old_virtual_path in
              let (new_key, new_backend_path) = absolute_path_to_fs vfs new_virtual_path in
              if same_fs old_key new_key
              then lift ((backend_at vfs old_key).rename old_backend_path new_backend_path) s
              else pure minus_one s
        ]
      ]
