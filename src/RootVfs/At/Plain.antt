-- ===== src/RootVfs/At/Plain.antt =====
-- The calls of src/root_vfs.rs that take a directory descriptor, beside the calls that take none.
use sandbox_vfs.Base.{
  ℕ, ◌≡◌, refl, ap, ◌∙◌, subst, Bool, true, false, ◌||◌, none, some, ℤ, int_eq, Bool-cases, inl,
  inr, if◌then◌else◌, has_flag, arith, bind_returned, minus_one, Action, returned, pure, ◌>>=◌,
}
use sandbox_vfs.FilePath.{FilePath, is_absolute, join}
use sandbox_vfs.Filesystem.{LowLevelFs}
use sandbox_vfs.Libc.{at_fdcwd, at_removedir}
use sandbox_vfs.RootVfs.{
  FdInfo, RootVfs, VfsState, Vfs, lift, resolve_path, resolve_openat_path, normalize_absolute,
  absolute_path_to_fs, path_to_fs, backend_at,
}
use sandbox_vfs.RootVfs.At.{
  tracked_handle, openat_from_tracked_handle, openat_by_path, openat, mkdirat_from_tracked_handle,
  mkdirat, dispatch_at, unlinkat,
}
use sandbox_vfs.RootVfs.Backend.{dispatch, mkdir, unlink, rmdir}
use sandbox_vfs.RootVfs.Open.{open_path, track_open}

module _ {W H : Type 0} (s : VfsState W H) (dirfd : ℤ) (path : FilePath) where
  -- Without a directory to start from, the path is resolved as in a call that takes none.
  pub resolve_openat_path_here :
      (is_absolute path || int_eq dirfd at_fdcwd) ≡ true
      → resolve_openat_path s dirfd path ≡ some (resolve_path s path)
  unfolding resolve_openat_path resolve_path
  resolve_openat_path_here e = elim (Bool-cases (is_absolute path)) [
    | inl a ↦ rw a refl
    | inr a ↦ rw (a, subst (λ b. (b || int_eq dirfd at_fdcwd) ≡ true) a e) refl
  ]

  pub resolve_openat_path_closed :
      (is_absolute path || int_eq dirfd at_fdcwd) ≡ false
      → s.fds dirfd ≡ none
      → resolve_openat_path s dirfd path ≡ none
  unfolding resolve_openat_path
  resolve_openat_path_closed e f = ground (arith, e, f)

  pub resolve_openat_path_based :
      (base : FdInfo H)
      → (is_absolute path || int_eq dirfd at_fdcwd) ≡ false
      → s.fds dirfd ≡ some base
      → resolve_openat_path s dirfd path ≡ some (normalize_absolute (join base.path path))
  unfolding resolve_openat_path
  resolve_openat_path_based base e f = ground (arith, e, f)

  tracked_handle_here :
      (is_absolute path || int_eq dirfd at_fdcwd) ≡ true → tracked_handle s dirfd path ≡ none
  unfolding tracked_handle
  tracked_handle_here e = rw e refl

module _ {W H : Type 0} (vfs : RootVfs W H) (s : VfsState W H) (dirfd : ℤ) (path : FilePath)
    (here : (is_absolute path || int_eq dirfd at_fdcwd) ≡ true) where
  dispatch_at_here :
      (call : LowLevelFs W H → FilePath → Action W ℤ)
      → dispatch_at vfs call dirfd path s ≡ dispatch vfs call path s
  unfolding dispatch_at dispatch path_to_fs
  dispatch_at_here call =
      ap
        (λ r. elim r [
          | none ↦ pure minus_one s
          | some p ↦
              let (key, backend_path) = absolute_path_to_fs vfs p in
              lift (call (backend_at vfs key) backend_path) s
        ])
        (resolve_openat_path_here s dirfd path here)

  mkdirat_from_tracked_handle_here :
      (mode : ℕ) → mkdirat_from_tracked_handle vfs dirfd path mode s ≡ returned none s
  unfolding mkdirat_from_tracked_handle
  mkdirat_from_tracked_handle_here mode = rw (mkdirat_from_tracked_handle, here) refl

  openat_from_tracked_handle_here :
      (flag mode : ℕ) → openat_from_tracked_handle vfs dirfd path flag mode s ≡ returned none s
  unfolding openat_from_tracked_handle
  openat_from_tracked_handle_here flag mode = rw (openat_from_tracked_handle, here) refl

  openat_by_path_here :
      (flag mode : ℕ) → openat_by_path vfs dirfd path flag mode s ≡ open_path vfs path flag mode s
  unfolding openat_by_path open_path
  openat_by_path_here flag mode =
      ap
        (λ r. elim r [
          | none ↦ pure minus_one s
          | some p ↦
              let (key, backend_path) = absolute_path_to_fs vfs p in
              let act : Vfs W H ℤ = (do
                result ← lift ((backend_at vfs key).open_with_handle backend_path flag mode)
                track_open result p) in
              act s
        ])
        (resolve_openat_path_here s dirfd path here)

  mkdirat_here : (mode : ℕ) → mkdirat vfs dirfd path mode s ≡ mkdir vfs path mode s
  unfolding mkdirat mkdir
  mkdirat_here mode =
      bind_returned (mkdirat_from_tracked_handle vfs dirfd path mode) _ s s none
        (mkdirat_from_tracked_handle_here mode)
      ∙ dispatch_at_here (λ fs p. fs.mkdir p mode)

  openat_here : (flag mode : ℕ) → openat vfs dirfd path flag mode s ≡ open_path vfs path flag mode s
  unfolding openat
  openat_here flag mode =
      bind_returned (openat_from_tracked_handle vfs dirfd path flag mode) _ s s none
        (openat_from_tracked_handle_here flag mode)
      ∙ openat_by_path_here flag mode

  unlinkat_here :
      (flags : ℕ)
      → unlinkat vfs dirfd path flags s
        ≡ (if has_flag flags at_removedir then rmdir vfs path s else unlink vfs path s)
  unfolding unlinkat rmdir unlink
  unlinkat_here flags =
      dispatch_at_here (λ fs p. if has_flag flags at_removedir then fs.rmdir p else fs.unlink p)
      ∙ either (has_flag flags at_removedir)
    where
      either :
          (b : Bool)
          → dispatch vfs (λ fs p. if b then fs.rmdir p else fs.unlink p) path s
            ≡ (if b then rmdir vfs path s else unlink vfs path s)
      either true = refl
      either false = refl

  -- A call that takes a directory descriptor, with an absolute path or with `AT_FDCWD` for the
  -- descriptor, does what the call without one does: to open a file, to make a directory and to remove a
  -- file or, with the flag, a directory.
  pub at_plain :
      (flag mode : ℕ)
      → (openat vfs dirfd path flag mode s ≡ open_path vfs path flag mode s)
        × (mkdirat vfs dirfd path mode s ≡ mkdir vfs path mode s)
        × (unlinkat vfs dirfd path flag s
            ≡ (if has_flag flag at_removedir then rmdir vfs path s else unlink vfs path s))
  at_plain flag mode = (openat_here flag mode, mkdirat_here mode, unlinkat_here flag)
