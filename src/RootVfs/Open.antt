-- ===== src/RootVfs/Open.antt =====
-- src/root_vfs.rs: the table of open descriptors.
pub mod Tracked
use sandbox_vfs.Base.{ℕ, Option, none, some, ℤ, is_negative, if◌then◌else◌, returned, pure, ◌>>=◌}
use sandbox_vfs.FilePath.{FilePath}
use sandbox_vfs.Filesystem.{OpenResult, Stat}
use sandbox_vfs.RootVfs.{RootVfs, Vfs, set_fd, lift, resolve_path, absolute_path_to_fs, backend_at}

module _ {W H : Type 0} where
  unfoldable pub track_open : OpenResult H → FilePath → Vfs W H ℤ
  track_open result path s = returned result.fd (
      if is_negative result.fd
      then s
      else set_fd result.fd (some (record { path = path; dir_offset = 0; opened = result.opened }))
          s)

  unfoldable pub forget_fd : ℤ → Vfs W H (Unit {0})
  forget_fd fd s = returned tt (set_fd fd none s)

  -- The entry of the old descriptor, or its absence, is copied.
  unfoldable pub clone_fd : ℤ → ℤ → Vfs W H (Unit {0})
  clone_fd oldfd newfd s = returned tt (set_fd newfd (s.fds oldfd) s)

  unfoldable pub open_path : RootVfs W H → FilePath → ℕ → ℕ → Vfs W H ℤ
  unfolding track_open resolve_path absolute_path_to_fs backend_at
  open_path vfs path oflag mode s =
      let virtual_path = resolve_path s path in
      let (key, backend_path) = absolute_path_to_fs vfs virtual_path in
      let act : Vfs W H ℤ = (do
        result ← lift ((backend_at vfs key).open_with_handle backend_path oflag mode)
        track_open result virtual_path) in
      act s

  unfoldable pub fstat : RootVfs W H → ℤ → Stat → Vfs W H (Option (ℤ × Stat))
  fstat vfs fd statbuf s = elim (s.fds fd) [
    | none ↦ pure none s
    | some info ↦ elim info.opened [
      | none ↦ pure none s
      | some opened ↦
          let act : Vfs W H (Option (ℤ × Stat)) = (do
            result ← lift (vfs.handles.stat opened statbuf)
            pure (some result)) in
          act s
    ]
  ]
