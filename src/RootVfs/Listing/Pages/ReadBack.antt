-- ===== src/RootVfs/Listing/Pages/ReadBack.antt =====
-- What a caller reads who calls `getdents64` of src/root_vfs.rs until there is nothing left.
use sandbox_vfs.Base.{
  ℕ, ◌+◌, ◌<◌, ◌≡◌, ap, ◌∙◌, some, List, [], ◌∷◌, ◌++◌, arith, ℤ, length, returned,
}
use sandbox_vfs.FilePath.{FilePath}
use sandbox_vfs.Filesystem.{DirEntry}
use sandbox_vfs.Dirents.{dot_entries}
use sandbox_vfs.Dirents.Reader.{AllHold, dirents, read_records, read_records_lem}
use sandbox_vfs.Dirents.Records.{NamesFit}
use sandbox_vfs.RootVfs.{VfsState, FdInfo, RootVfs}
use sandbox_vfs.RootVfs.Listing.{list_fd}
use sandbox_vfs.RootVfs.Listing.Pages.Whole.{RoomForEach, read_through, read_through_complete}

AllHold-NamesFit :
    (inode_for_path : FilePath → ℕ) (path : FilePath) (offset : ℕ) (es : List DirEntry)
    → AllHold inode_for_path path offset es
    → NamesFit es
AllHold-NamesFit inode_for_path path offset [] h = tt
AllHold-NamesFit inode_for_path path offset (e ∷ es) (holds, h) =
    (holds.2, AllHold-NamesFit inode_for_path path (offset + 1) es h)

-- If the directory is listed, and listing it now changes nothing: a caller that calls with a
-- buffer that has room for each single record, on a descriptor at the start of its listing, one call
-- more than there are entries, and walks over all it was given from record to record, reads ., .. and
-- each entry of the directory, once and in their order, with its name, type and inode number, if the
-- records can hold these.
pub read_through-read_records :
    {W H : Type 0} (inode_for_path : FilePath → ℕ) (vfs : RootVfs W H) (fd : ℤ) (count : ℕ)
    (info : FdInfo H) (listed : List DirEntry) (s : VfsState W H)
    → AllHold inode_for_path info.path 0 (dot_entries ++ listed)
    → RoomForEach count (dot_entries ++ listed)
    → 0 < count
    → s.fds fd ≡ some (record info { dir_offset = 0 })
    → list_fd vfs (record info { dir_offset = 0 }) s ≡ returned (some listed) s
    → let n = length (dot_entries ++ listed) in
      read_records n (read_through inode_for_path vfs fd count (n + 1) s).0
      ≡ dirents inode_for_path info.path 0 (dot_entries ++ listed)
read_through-read_records inode_for_path vfs fd count info listed s holds room usable open_fd
      steady =
    let entries = dot_entries ++ listed in
    ap (λ r. read_records (length entries) r.0)
      (read_through_complete inode_for_path vfs fd count info listed
        (AllHold-NamesFit inode_for_path info.path 0 entries holds) room usable s open_fd steady)
    ∙ read_records_lem inode_for_path info.path (length entries) 0 entries holds (omega arith)
