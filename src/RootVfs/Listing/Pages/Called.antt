-- ===== src/RootVfs/Listing/Pages/Called.antt =====
-- One call of `getdents64` of src/root_vfs.rs, the look-up of the descriptor and the listing included.
use sandbox_vfs.Base.{
  ℕ, ◌≤◌, ◌<◌, ◌≡◌, sym, subst, ap, ◌∙◌, false, Option, none, some, List, ◌++◌, Bytes, ℤ, pos,
  length, Outcome, returned, bind_returned,
}
use sandbox_vfs.FilePath.{FilePath}
use sandbox_vfs.Filesystem.{DirEntry}
use sandbox_vfs.Dirents.{dot_entries}
use sandbox_vfs.Dirents.Records.{NamesFit}
use sandbox_vfs.RootVfs.{RootVfs, VfsState, FdInfo}
use sandbox_vfs.RootVfs.Listing.{list_fd, fill, getdents64}
use sandbox_vfs.RootVfs.Listing.World.{fds-list_fd}
use sandbox_vfs.RootVfs.Listing.Pages.{Page, fill-Page}

module _ {W H : Type 0} (inode_for_path : FilePath → ℕ) (vfs : RootVfs W H) (fd : ℤ) (count : ℕ)
    (info : FdInfo H) where
  abbrev called : VfsState W H → Outcome (VfsState W H) (Option (ℤ × Bytes))
  called s = getdents64 inode_for_path vfs fd false (pos count) s

  pub to_fill :
      (s s' : VfsState W H) (listed : List DirEntry)
      → s.fds fd ≡ some info
      → list_fd vfs info s ≡ returned (some listed) s'
      → called s ≡ fill inode_for_path info listed fd false (pos count) s'
  unfolding getdents64 fill
  to_fill s s' listed open_fd e =
      rw (getdents64, open_fd) (bind_returned (list_fd vfs info) _ s s' (some listed) e)

  to_none :
      (s s' : VfsState W H)
      → s.fds fd ≡ some info
      → list_fd vfs info s ≡ returned none s'
      → called s ≡ returned none s'
  unfolding getdents64 fill
  to_none s s' open_fd e = rw (getdents64, open_fd) (bind_returned (list_fd vfs info) _ s s' none e)

  -- The offset is in the listing, and the record length of each name can be counted.
  abbrev pub IsInListing : Option (List DirEntry) → Type 0
  IsInListing none = Unit {0}
  IsInListing (some listed) =
      NamesFit (dot_entries ++ listed) × (info.dir_offset ≤ length (dot_entries ++ listed))

  -- What a call gives for a listing, in the state after it.
  abbrev pub PageOf :
      Option (List DirEntry) → VfsState W H → Outcome (VfsState W H) (Option (ℤ × Bytes)) → Type 0
  PageOf none s' r = r ≡ returned none s'
  PageOf (some listed) s' r = Page inode_for_path info listed fd count s' r

  -- A call on an open descriptor, with a buffer that is not empty. If nothing lists the directory, the
  -- call gives nothing and leaves the state that the listing left. If there is a listing, whose record
  -- lengths can be counted and in which the offset of the descriptor lies, it gives the next page: the
  -- records that come after those of the entries before, as many bytes as the status says and no more
  -- than the buffer has, with the offset moved over them; or status -1, with the offset as it was, since
  -- the next record is longer than the buffer.
  pub getdents64-Page :
      (s s' : VfsState W H) (listing : Option (List DirEntry))
      → s.fds fd ≡ some info
      → list_fd vfs info s ≡ returned listing s'
      → IsInListing listing
      → 0 < count
      → PageOf listing s' (getdents64 inode_for_path vfs fd false (pos count) s)
  getdents64-Page s s' none open_fd e inside usable = to_none s s' open_fd e
  getdents64-Page s s' (some listed) open_fd e (fit, inside) usable =
      subst (Page inode_for_path info listed fd count s') (sym (to_fill s s' listed open_fd e)) (
        fill-Page inode_for_path info listed fd count s'
          (ap (λ fds. fds fd) (fds-list_fd vfs info s s' (some listed) e) ∙ open_fd) fit usable
          inside)
