-- ===== src/Tests/Pages.antt =====
-- `getdents64` on the open directory /a of a `MemoryFS`, call after call.
use sandbox_vfs.Base.{
  ℕ, ◌≡◌, refl, true, false, some, List, [], ◌∷◌, ◌++◌, arith, codes, pos, length, bytes_eq,
  returned,
}
use sandbox_vfs.Dirents.{dot_entries, record_length, align_to, entry_ino, entry_path}
use sandbox_vfs.Dirents.Reader.{AllHold, dirents, read_records}
use sandbox_vfs.Dirents.Records.{NamesFit, records}
use sandbox_vfs.FilePath.{FilePath, join, parent}
use sandbox_vfs.Filesystem.{DirEntry, file}
use sandbox_vfs.Memory.Backend.{memory_opened_file}
use sandbox_vfs.Memory.Inspect.{read_node_dir}
use sandbox_vfs.RootVfs.Listing.{list_fd, opened_read_dir, getdents64}
use sandbox_vfs.RootVfs.Listing.Pages.Called.{PageOf, getdents64-Page}
use sandbox_vfs.RootVfs.Listing.Pages.ReadBack.{read_through-read_records}
use sandbox_vfs.RootVfs.Listing.Pages.Whole.{RoomForEach, read_through, read_through_complete}
use sandbox_vfs.Tests.Changes.{vfs, opened_a, with_a_open}
use sandbox_vfs.Tests.Memory.{machine, with_af}

hash : FilePath → ℕ
hash p = length p

abbrev listed : List DirEntry
listed = record { name = codes "f"; kind = file; ino = some 3 } ∷ []

listed-NamesFit : NamesFit (dot_entries ++ listed)
listed-NamesFit = (omega arith, (omega arith, (omega arith, tt)))

a_listed :
    list_fd vfs (record opened_a { dir_offset = 0 }) with_a_open
    ≡ returned (some listed) with_a_open
unfolding machine vfs opened_a with_a_open list_fd opened_read_dir memory_opened_file read_node_dir
    with_af
a_listed = refl

getdents64-Page_example :
    PageOf hash vfs
      (pos 7)
      60
      opened_a
      (some listed)
      with_a_open
      (getdents64 hash vfs (pos 7) false (pos 60) with_a_open)
unfolding opened_a with_a_open
getdents64-Page_example =
    getdents64-Page hash vfs (pos 7) 60 opened_a with_a_open with_a_open (some listed) refl a_listed
      (listed-NamesFit, omega arith) (omega arith)

room_for_each : RoomForEach 24 (dot_entries ++ listed)
unfolding record_length align_to
room_for_each = (omega arith, (omega arith, (omega arith, tt)))

-- A buffer for one record, and four calls.
read_through_complete_example :
    read_through hash vfs (pos 7) 24 4 with_a_open
    ≡ (records hash opened_a.path 0 (dot_entries ++ listed), true)
unfolding opened_a with_a_open
read_through_complete_example =
    read_through_complete hash vfs (pos 7) 24 opened_a listed listed-NamesFit room_for_each
      (omega arith) with_a_open refl a_listed

listed_held : AllHold hash opened_a.path 0 (dot_entries ++ listed)
unfolding opened_a hash entry_ino entry_path join parent bytes_eq record_length align_to
listed_held = (
  ((refl, tt), omega arith, omega arith, omega arith, omega arith),
  (
    ((refl, (refl, tt)), omega arith, omega arith, omega arith, omega arith),
    (((refl, tt), omega arith, omega arith, omega arith, omega arith), tt),
  ),
)

-- The same calls, and the records read back.
read_through-read_records_example :
    read_records 3 (read_through hash vfs (pos 7) 24 4 with_a_open).0
    ≡ dirents hash opened_a.path 0 (dot_entries ++ listed)
unfolding opened_a with_a_open
read_through-read_records_example =
    read_through-read_records hash vfs (pos 7) 24 opened_a listed with_a_open listed_held
      room_for_each (omega arith) refl a_listed
