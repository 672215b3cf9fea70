-- ===== src/Tests/Memory.antt =====
-- `MemoryFS` on a directory /a with a file /a/f in it.
use sandbox_vfs.Base.{
  ℕ, ◌+◌, ◌<◌, ◌^◌, ◌≡◌, ◌≢◌, ◌↔◌, refl, none, some, arith, pos, codes, bytes_eq, bytes_lt,
}
use sandbox_vfs.FilePath.{component_eq, path_eq, join, parent, file_name, starts_with, strip_prefix}
use sandbox_vfs.FilePath.Normal.{trail}
use sandbox_vfs.Filesystem.{file, dir, zeroed}
use sandbox_vfs.Entries
use sandbox_vfs.Memory.{
  Heap, MemoryFs, entry_of, is_directory, node_from_map, child, walk, resolve, resolve_from_root,
  resolve_parent_from_root, resolve_parent, backing_fd,
}
use sandbox_vfs.Memory.Backend.{chmod, read_dir}
use sandbox_vfs.Memory.Chmod.{Chmods, chmod-Chmods}
use sandbox_vfs.Memory.Listed.{Listing, read_dir-Listing}
use sandbox_vfs.Memory.Sorted.{AllSorted, new-AllSorted, create_node-AllSorted}
use sandbox_vfs.Memory.Create.{new, create_node, create_node_in_dir, new_kind, create_memfd}
use sandbox_vfs.Memory.Create.New.{new-IsValid}
use sandbox_vfs.Memory.Create.Laws.{create_node-IsValid, create_node-resolve, lookup_created}
use sandbox_vfs.Memory.Remove.{remove_node_at, remove_entry, can_remove, detach}
use sandbox_vfs.Memory.Remove.Laws.{
  remove_node_at-IsValid, remove_node_at-resolve, remove_node_at_failed,
}
use sandbox_vfs.Memory.Rename.{
  rename_node_at, rename_entry, rename_in_dir, rename_across, can_replace_node, move_entry,
  move_between, drop_replaced,
}
use sandbox_vfs.Memory.Rename.Laws.{
  rename_node_at-IsValid, rename_node_at_failed, rename_node_at-resolve, moved_lookup,
}
use sandbox_vfs.Memory.Remove.Status.{Removable, remove_node_at_status, stat-removed}
use sandbox_vfs.Memory.Inspect.{stat_node}
use sandbox_vfs.Memory.Open.{open_node}
use sandbox_vfs.Memory.Open.Laws.{Opens, open_node-Opens}
use sandbox_vfs.Memory.Tree.{IsValid}
use sandbox_vfs.Memory.Tree.Locate.{trail_eq, trail_eq_iff}
use sandbox_vfs.Tests.Names.{counting, blank, path_a, path_af, path_b, path_bf}

-- Everything that a run of the file system calls.
unfoldable pub machine : Unit {0}
unfolding component_eq path_eq join parent file_name starts_with strip_prefix bytes_eq bytes_lt
    Entries.lookup Entries.insert Entries.remove Entries.is_empty entry_of is_directory
    node_from_map child walk resolve resolve_from_root resolve_parent_from_root resolve_parent
    backing_fd new create_node create_node_in_dir new_kind create_memfd remove_node_at remove_entry
    can_remove detach rename_node_at rename_entry rename_in_dir rename_across can_replace_node
    move_entry move_between drop_replaced
machine = tt

unfoldable pub fs : MemoryFs
unfolding machine
fs = (new counting (codes "memory") blank).0

start : Heap ℕ
unfolding machine
start = (new counting (codes "memory") blank).1

with_a : Heap ℕ
unfolding start fs
with_a = (create_node counting fs path_a dir 0o755 start).1

unfoldable pub with_af : Heap ℕ
unfolding with_a
with_af = (create_node counting fs path_af file 0o644 with_a).1

test_resolve : resolve fs with_af path_af ≡ some 3
unfolding with_af
test_resolve = refl

pub test_resolve_a : resolve fs with_af path_a ≡ some 2
unfolding with_af
test_resolve_a = refl

renamed : Heap ℕ
unfolding with_af
renamed = (rename_node_at path_a path_b fs.nodes fs.root with_af).1

test_renamed : (resolve fs renamed path_bf ≡ some 3) × (resolve fs renamed path_af ≡ none)
unfolding renamed
test_renamed = (refl, refl)

start-IsValid : IsValid fs start
unfolding fs start
start-IsValid = new-IsValid counting (codes "memory") blank (omega arith)

with_a-IsValid : IsValid fs with_a
unfolding with_a
with_a-IsValid = create_node-IsValid counting fs start path_a dir 0o755 start-IsValid (omega arith)

with_a-room : with_a.next_node_id + 1 < 2 ^ 64
unfolding with_a
with_a-room = omega arith

pub with_af-IsValid : IsValid fs with_af
unfolding with_af
with_af-IsValid =
    create_node-IsValid counting fs with_a path_af file 0o644 with_a-IsValid with_a-room

with_af-room : with_af.next_node_id + 1 < 2 ^ 64
unfolding with_af
with_af-room = omega arith

pub with_af-room_for_three : with_af.next_node_id + 3 < 2 ^ 64
unfolding with_af
with_af-room_for_three = omega arith

not_removed : (remove_node_at path_a fs.nodes fs.root dir with_af).0 ≢ pos 0
unfolding with_af
not_removed e = cc

removed_status : (remove_node_at path_af fs.nodes fs.root file with_af).0 ≡ pos 0
unfolding with_af
removed_status = refl

not_renamed : (rename_node_at path_a path_af fs.nodes fs.root with_af).0 ≢ pos 0
unfolding with_af
not_renamed e = cc

renamed_status : (rename_node_at path_a path_b fs.nodes fs.root with_af).0 ≡ pos 0
unfolding with_af
renamed_status = refl

differ : trail path_a ≢ trail path_b
unfolding machine trail_eq
differ e = absurd (cc ((trail_eq_iff (trail path_a) (trail path_b)).1 e))

create_node-IsValid_example : IsValid fs (create_node counting fs path_af file 0o644 with_a).1
create_node-IsValid_example =
    create_node-IsValid counting fs with_a path_af file 0o644 with_a-IsValid with_a-room

create_node-resolve_example :
    resolve fs with_af path_af ≡ lookup_created (some 3) (trail path_af) (trail path_af) none
unfolding with_af
create_node-resolve_example =
    create_node-resolve counting fs with_a path_af file 0o644 with_a-IsValid with_a-room path_af

remove_node_at-IsValid_example : IsValid fs (remove_node_at path_af fs.nodes fs.root file with_af).1
remove_node_at-IsValid_example = remove_node_at-IsValid fs with_af path_af file with_af-IsValid

remove_node_at-resolve_example :
    resolve fs (remove_node_at path_af fs.nodes fs.root file with_af).1 path_af ≡ none
unfolding with_af trail_eq
remove_node_at-resolve_example =
    remove_node_at-resolve fs with_af path_af file with_af-IsValid path_af

-- The directory is not empty.
remove_node_at_failed_example : (remove_node_at path_a fs.nodes fs.root dir with_af).1 ≡ with_af
remove_node_at_failed_example =
    remove_node_at_failed fs with_af path_a dir with_af-IsValid not_removed

remove_node_at_status_example :
    ((remove_node_at path_af fs.nodes fs.root file with_af).0 ≡ pos 0)
    ↔ ((id : ℕ) × Removable fs with_af path_af file id)
remove_node_at_status_example = remove_node_at_status fs with_af path_af file with_af-IsValid

stat-removed_example :
    stat_node counting 3 fs.nodes (remove_node_at path_af fs.nodes fs.root file with_af).1
    ≡ record (stat_node counting 3 fs.nodes with_af) { st_nlink = 0 }
stat-removed_example =
    stat-removed fs with_af path_af file with_af-IsValid counting 3 test_resolve removed_status

rename_node_at-IsValid_example :
    IsValid fs (rename_node_at path_a path_b fs.nodes fs.root with_af).1
rename_node_at-IsValid_example = rename_node_at-IsValid fs with_af path_a path_b with_af-IsValid

-- A directory cannot be moved into itself.
rename_node_at_failed_example : (rename_node_at path_a path_af fs.nodes fs.root with_af).1 ≡ with_af
rename_node_at_failed_example =
    rename_node_at_failed fs with_af path_a path_af with_af-IsValid not_renamed

rename_node_at-resolve_example :
    resolve fs (rename_node_at path_a path_b fs.nodes fs.root with_af).1 path_bf
    ≡ moved_lookup fs with_af path_a path_b with_af-IsValid (trail path_bf)
rename_node_at-resolve_example =
    rename_node_at-resolve fs with_af path_a path_b with_af-IsValid tt tt differ renamed_status
      path_bf

open_node-Opens_example :
    Opens counting fs with_af path_b 0o102 0o644 (open_node counting fs path_b 0o102 0o644 with_af)
open_node-Opens_example =
    open_node-Opens counting fs with_af path_b 0o102 0o644 with_af-IsValid with_af-room

blank-AllSorted : AllSorted blank
blank-AllSorted i = tt

with_af-AllSorted : AllSorted with_af
unfolding with_af
with_af-AllSorted = create_node-AllSorted counting fs path_af file 0o644 with_a (
    create_node-AllSorted counting fs path_a dir 0o755 start
      (new-AllSorted counting (codes "memory") blank blank-AllSorted))

read_dir-Listing_example :
    Listing counting fs with_af path_a zeroed with_af-IsValid with_af-AllSorted refl
      (read_dir counting fs path_a with_af)
read_dir-Listing_example =
    read_dir-Listing counting fs with_af path_a zeroed with_af-IsValid with_af-AllSorted refl

chmod-Chmods_example :
    Chmods counting fs with_af path_af 0o600 with_af-IsValid
      (chmod counting fs path_af 0o600 with_af)
chmod-Chmods_example = chmod-Chmods counting fs with_af path_af 0o600 with_af-IsValid refl
