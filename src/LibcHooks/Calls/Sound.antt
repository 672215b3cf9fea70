-- ===== src/LibcHooks/Calls/Sound.antt =====
-- src/root_vfs.rs under the hooks: every operation keeps the paths that the process stands on.
use sandbox_vfs.Base.{
  subst, some, ℤ, minus_one, has_flag, ℕ, Bytes, Option-cases, inl, inr, if◌then◌else◌, Action,
  after, pure,
}
use sandbox_vfs.CStr.{from_cstr}
use sandbox_vfs.CStr.Laws.{from_cstr-IsWellNamed}
use sandbox_vfs.FilePath.{FilePath, join}
use sandbox_vfs.Filesystem.{LowLevelFs}
use sandbox_vfs.Libc.{at_removedir}
use sandbox_vfs.RootVfs.{
  RootVfs, lift, resolve_path, resolve_openat_path, absolute_path_to_fs, backend_at, path_to_fs,
  normalize_absolute,
}
use sandbox_vfs.RootVfs.Open
use sandbox_vfs.RootVfs.Open.{track_open}
use sandbox_vfs.RootVfs.At
use sandbox_vfs.RootVfs.At.{tracked_handle, openat_from_tracked_handle, openat_by_path, dispatch_at}
use sandbox_vfs.RootVfs.Backend.{dispatch}
use sandbox_vfs.LibcHooks.Calls.Resolved.{
  IsCanonicalResult, IsCanonicalHandle, resolve_openat_path-IsCanonical, tracked_handle-IsCanonical,
}
use sandbox_vfs.LibcHooks.Calls.Keeps.{
  Keeps, normalize_absolute-IsCanonical, join-IsWellNamed, resolve_path-IsCanonical, lift-Keeps,
  bind-Keeps, if_IsSound, track_open-Keeps,
}

module _ {W H : Type 0} (vfs : RootVfs W H) where
  pub dispatch-Keeps :
      {A : Type 0} (call : LowLevelFs W H → FilePath → Action W A) (path : FilePath)
      → Keeps (dispatch vfs call path)
  unfolding dispatch
  dispatch-Keeps call path s sound =
      lift-Keeps (call (backend_at vfs (path_to_fs vfs s path).0) (path_to_fs vfs s path).1) s sound

  pub open_path-Keeps :
      (value : Bytes) (oflag mode : ℕ) → Keeps (Open.open_path vfs (from_cstr value) oflag mode)
  unfolding Open.open_path
  open_path-Keeps value oflag mode s sound =
      let p = resolve_path s (from_cstr value) in
      let (key, backend_path) = absolute_path_to_fs vfs p in
      bind-Keeps (lift ((backend_at vfs key).open_with_handle backend_path oflag mode))
        (λ result. track_open result p) (lift-Keeps _)
        (λ result. track_open-Keeps result p (resolve_path-IsCanonical s value sound)) s sound

  dispatch_at-Keeps :
      (call : LowLevelFs W H → FilePath → Action W ℤ) (dirfd : ℤ) (path : FilePath)
      → Keeps (dispatch_at vfs call dirfd path)
  unfolding dispatch_at
  dispatch_at-Keeps call dirfd path s sound =
      elim (Option-cases (resolve_openat_path s dirfd path)) [
        | inl e ↦ rw (after, e) sound
        | inr (p, e) ↦
            let (key, backend_path) = absolute_path_to_fs vfs p in
            rw (after, e) (lift-Keeps (call (backend_at vfs key) backend_path) s sound)
      ]

  pub unlinkat-Keeps :
      (dirfd : ℤ) (path : FilePath) (flags : ℕ) → Keeps (At.unlinkat vfs dirfd path flags)
  unfolding At.unlinkat
  unlinkat-Keeps dirfd path flags =
      dispatch_at-Keeps (λ fs p. if has_flag flags at_removedir then fs.rmdir p else fs.unlink p)
        dirfd path

  mkdirat_from_tracked_handle-Keeps :
      (dirfd : ℤ) (path : FilePath) (mode : ℕ)
      → Keeps (At.mkdirat_from_tracked_handle vfs dirfd path mode)
  unfolding At.mkdirat_from_tracked_handle
  mkdirat_from_tracked_handle-Keeps dirfd path mode s sound =
      elim (Option-cases (tracked_handle s dirfd path)) [
        | inl e ↦ rw (after, e) sound
        | inr ((info, opened), e) ↦
            rw (after, e) (lift-Keeps (vfs.handles.mkdir_child opened path mode) s sound)
      ]

  pub mkdirat-Keeps :
      (dirfd : ℤ) (path : FilePath) (mode : ℕ) → Keeps (At.mkdirat vfs dirfd path mode)
  unfolding At.mkdirat
  mkdirat-Keeps dirfd path mode =
      bind-Keeps (At.mkdirat_from_tracked_handle vfs dirfd path mode) _
        (mkdirat_from_tracked_handle-Keeps dirfd path mode)
        (λ served s sound. elim (Option-cases served) [
          | inl e ↦ rw e (dispatch_at-Keeps (λ fs p. fs.mkdir p mode) dirfd path s sound)
          | inr (result, e) ↦ rw (after, e) sound
        ])

  pub renameat-Keeps :
      (old_dirfd : ℤ) (old_path : FilePath) (new_dirfd : ℤ) (new_path : FilePath)
      → Keeps (At.renameat vfs old_dirfd old_path new_dirfd new_path)
  unfolding At.renameat
  renameat-Keeps old_dirfd old_path new_dirfd new_path s sound =
      elim (Option-cases (resolve_openat_path s old_dirfd old_path)) [
        | inl e ↦ rw (after, e) sound
        | inr (p, e) ↦ elim (Option-cases (resolve_openat_path s new_dirfd new_path)) [
          | inl f ↦ rw (after, e, f) sound
          | inr (q, f) ↦
              let (old_key, old_backend_path) = absolute_path_to_fs vfs p in
              let (new_key, new_backend_path) = absolute_path_to_fs vfs q in
              rw (after, e, f)
                (if_IsSound (At.same_fs old_key new_key)
                  (lift ((backend_at vfs old_key).rename old_backend_path new_backend_path) s)
                  (pure minus_one s)
                  (lift-Keeps ((backend_at vfs old_key).rename old_backend_path new_backend_path) s
                    sound)
                  sound)
        ]
      ]

  openat_from_tracked_handle-Keeps :
      (dirfd : ℤ) (value : Bytes) (flag mode : ℕ)
      → Keeps (openat_from_tracked_handle vfs dirfd (from_cstr value) flag mode)
  unfolding openat_from_tracked_handle
  openat_from_tracked_handle-Keeps dirfd value flag mode s sound =
      let path = from_cstr value in
      elim (Option-cases (tracked_handle s dirfd path)) [
        | inl e ↦ rw (after, e) sound
        | inr ((info, opened), e) ↦
            let p = normalize_absolute (join info.path path) in
            let good = normalize_absolute-IsCanonical (join info.path path) (
              join-IsWellNamed info.path path
                (subst IsCanonicalHandle e (tracked_handle-IsCanonical s sound dirfd path)).1
                (from_cstr-IsWellNamed value)) in
            rw (after, e)
              (bind-Keeps (lift (vfs.handles.open_child opened path flag mode)) _
                (lift-Keeps (vfs.handles.open_child opened path flag mode))
                (λ child s' sound'. elim (Option-cases child) [
                  | inl f ↦ rw (after, f) sound'
                  | inr (result, f) ↦ rw f (
                      bind-Keeps (track_open result p) (λ fd. pure (some fd))
                        (track_open-Keeps result p good) (λ fd s'' sound''. sound'') s' sound')
                ])
                s sound)
      ]

  openat_by_path-Keeps :
      (dirfd : ℤ) (value : Bytes) (flag mode : ℕ)
      → Keeps (openat_by_path vfs dirfd (from_cstr value) flag mode)
  unfolding openat_by_path
  openat_by_path-Keeps dirfd value flag mode s sound =
      let path = from_cstr value in
      elim (Option-cases (resolve_openat_path s dirfd path)) [
        | inl e ↦ rw (after, e) sound
        | inr (p, e) ↦
            let (key, backend_path) = absolute_path_to_fs vfs p in
            let good =
              subst IsCanonicalResult e (resolve_openat_path-IsCanonical s sound dirfd value) in
            rw (after, e)
              (bind-Keeps (lift ((backend_at vfs key).open_with_handle backend_path flag mode))
                (λ result. track_open result p)
                (lift-Keeps ((backend_at vfs key).open_with_handle backend_path flag mode))
                (λ result. track_open-Keeps result p good) s sound)
      ]

  pub openat-Keeps :
      (dirfd : ℤ) (value : Bytes) (flag mode : ℕ)
      → Keeps (At.openat vfs dirfd (from_cstr value) flag mode)
  unfolding At.openat
  openat-Keeps dirfd value flag mode =
      bind-Keeps (openat_from_tracked_handle vfs dirfd (from_cstr value) flag mode) _
        (openat_from_tracked_handle-Keeps dirfd value flag mode)
        (λ served s sound. elim (Option-cases served) [
          | inl e ↦ rw e (openat_by_path-Keeps dirfd value flag mode s sound)
          | inr (fd, e) ↦ rw (after, e) sound
        ])
