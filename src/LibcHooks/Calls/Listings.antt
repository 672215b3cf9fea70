-- ===== src/LibcHooks/Calls/Listings.antt =====
-- The listings of src/root_vfs.rs under the hooks.
use sandbox_vfs.Base.{
  subst, Bool, Option, none, some, List, ℤ, ℕ, is_negative, Bool-cases, Option-cases, inl, inr,
  after, ltb, length, drop, ◌++◌,
}
use sandbox_vfs.Dirents.{WriteDirentsResult, dot_entries, write_dirents64}
use sandbox_vfs.FilePath.{FilePath}
use sandbox_vfs.Filesystem.{DirEntry}
use sandbox_vfs.RootVfs.{FdInfo, RootVfs, VfsState, absolute_path_to_fs, backend_at, path_to_fs}
use sandbox_vfs.RootVfs.Listing
use sandbox_vfs.RootVfs.Listing.{opened_read_dir, list_fd, advance, fill}
use sandbox_vfs.LibcHooks.Calls.Keeps.{
  IsCanonicalEntry, IsSound, Keeps, lift-Keeps, bind-Keeps, set_fd-IsSoundTable,
}

module _ {W H : Type 0} (vfs : RootVfs W H) where
  pub read_dir-Keeps : (path : FilePath) → Keeps (Listing.read_dir vfs path)
  unfolding Listing.read_dir
  read_dir-Keeps path s sound =
      let (key, backend_path) = path_to_fs vfs s path in
      lift-Keeps ((backend_at vfs key).read_dir backend_path) s sound

  opened_read_dir-Keeps : (opened : Option H) → Keeps (opened_read_dir vfs opened)
  unfolding opened_read_dir
  opened_read_dir-Keeps none s sound = sound
  opened_read_dir-Keeps (some opened) s sound = lift-Keeps (vfs.handles.read_dir opened) s sound

  list_fd-Keeps : (info : FdInfo H) → Keeps (list_fd vfs info)
  unfolding list_fd
  list_fd-Keeps info =
      let (key, backend_path) = absolute_path_to_fs vfs info.path in
      bind-Keeps (opened_read_dir vfs info.opened) _ (opened_read_dir-Keeps info.opened)
        (λ listed s sound. elim (Option-cases listed) [
          | inl e ↦ rw e (lift-Keeps ((backend_at vfs key).read_dir backend_path) s sound)
          | inr (entries, e) ↦ rw (after, e) sound
        ])

  advance-IsSound :
      (fd : ℤ) (result : WriteDirentsResult) (s : VfsState W H)
      → IsSound s
      → IsSound (advance fd result s)
  unfolding advance
  advance-IsSound fd result s (cwd, fds) = elim (Bool-cases (is_negative result.bytes_written)) [
    | inl e ↦ rw e (cwd, fds)
    | inr e ↦ elim (Option-cases (s.fds fd)) [
      | inl f ↦ rw (e, f) (cwd, fds)
      | inr (info, f) ↦
          rw (e, f) (cwd, set_fd-IsSoundTable s.fds fd _ fds (subst IsCanonicalEntry f (fds fd)))
    ]
  ]

  module _ (inode_for_path : FilePath → ℕ) where
    fill-Keeps :
        (info : FdInfo H) (listed : List DirEntry) (fd : ℤ) (dirp_is_null : Bool) (count : ℤ)
        → Keeps {W = W} (fill inode_for_path info listed fd dirp_is_null count)
    unfolding fill
    fill-Keeps info listed fd dirp_is_null count s sound =
        let entries = dot_entries ++ listed in
        let written =
          write_dirents64 inode_for_path info.path (drop info.dir_offset entries) info.dir_offset
            dirp_is_null count in
        elim (Bool-cases (ltb (length entries) info.dir_offset)) [
          | inl e ↦ rw (after, e) sound
          | inr e ↦ rw (after, e) (advance-IsSound fd written.0 s sound)
        ]

    pub getdents64-Keeps :
        (fd : ℤ) (dirp_is_null : Bool) (count : ℤ)
        → Keeps (Listing.getdents64 inode_for_path vfs fd dirp_is_null count)
    unfolding Listing.getdents64
    getdents64-Keeps fd dirp_is_null count s sound = elim (Option-cases (s.fds fd)) [
      | inl e ↦ rw (after, e) sound
      | inr (info, e) ↦
          rw (after, e)
            (bind-Keeps (list_fd vfs info) _ (list_fd-Keeps info)
              (λ listed s' sound'. elim (Option-cases listed) [
                | inl f ↦ rw (after, f) sound'
                | inr (entries, f) ↦ rw f (fill-Keeps info entries fd dirp_is_null count s' sound')
              ])
              s sound)
    ]
