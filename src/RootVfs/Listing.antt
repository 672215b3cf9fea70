-- ===== src/RootVfs/Listing.antt =====
-- src/root_vfs.rs: `read_dir` and `getdents64`.
pub mod World
pub mod Pages
use sandbox_vfs.Base.{
  ℕ, ◌+◌, Bool, Option, none, some, List, ◌++◌, ℤ, Bytes, is_negative, ltb, length, drop,
  if◌then◌else◌, returned, pure, panic, ◌>>=◌,
}
use sandbox_vfs.FilePath.{FilePath}
use sandbox_vfs.Filesystem.{DirEntry}
use sandbox_vfs.Dirents.{dot_entries, write_dirents64, WriteDirentsResult}
use sandbox_vfs.RootVfs.{
  RootVfs, VfsState, FdInfo, Vfs, lift, set_fd, path_to_fs, absolute_path_to_fs, backend_at,
}

module _ {W H : Type 0} where
  unfoldable pub read_dir : RootVfs W H → FilePath → Vfs W H (Option (List DirEntry))
  unfolding path_to_fs backend_at
  read_dir vfs path s =
      let (key, backend_path) = path_to_fs vfs s path in
      lift ((backend_at vfs key).read_dir backend_path) s

  unfoldable pub opened_read_dir : RootVfs W H → Option H → Vfs W H (Option (List DirEntry))
  opened_read_dir vfs none = pure none
  opened_read_dir vfs (some opened) = lift (vfs.handles.read_dir opened)

  -- The children of the directory: from the handle, or else from the backend of its path.
  unfoldable pub list_fd : RootVfs W H → FdInfo H → Vfs W H (Option (List DirEntry))
  unfolding opened_read_dir absolute_path_to_fs backend_at
  list_fd vfs info = do
    listed ← opened_read_dir vfs info.opened
    elim listed [
      | some entries ↦ pure (some entries)
      | none ↦
          let (key, backend_path) = absolute_path_to_fs vfs info.path in
          lift ((backend_at vfs key).read_dir backend_path)
    ]

  -- info.dir_offset += result.entries_consumed, if the descriptor is still there
  unfoldable pub advance : ℤ → WriteDirentsResult → VfsState W H → VfsState W H
  advance fd result s = if is_negative result.bytes_written then s else (elim (s.fds fd) [
    | none ↦ s
    | some info ↦
        set_fd fd (some (record info { dir_offset = info.dir_offset + result.entries_consumed })) s
  ])

  module _ (inode_for_path : FilePath → ℕ) where
    -- The slice `entries[dir_offset..]` panics past the end.
    unfoldable pub fill : FdInfo H → List DirEntry → ℤ → Bool → ℤ → Vfs W H (Option (ℤ × Bytes))
    unfolding advance write_dirents64
    fill info listed fd dirp_is_null count =
        let entries = dot_entries ++ listed in
        if ltb (length entries) info.dir_offset
        then panic
        else let (result, bytes) =
            write_dirents64 inode_for_path info.path (drop info.dir_offset entries) info.dir_offset
              dirp_is_null count in
          λ s. returned (some (result.bytes_written, bytes)) (advance fd result s)

    unfoldable pub getdents64 : RootVfs W H → ℤ → Bool → ℤ → Vfs W H (Option (ℤ × Bytes))
    unfolding list_fd fill
    getdents64 vfs fd dirp_is_null count s = elim (s.fds fd) [
      | none ↦ pure none s
      | some info ↦
          let act : Vfs W H (Option (ℤ × Bytes)) = (do
            listed ← list_fd vfs info
            elim listed [
              | none ↦ pure none
              | some entries ↦ fill info entries fd dirp_is_null count
            ]) in
          act s
    ]
