-- ===== src/Tests/Changes.antt =====
-- A run of changes to a file system with /a and /a/f: make /b, move /a/f to /b/f, remove /a.
use sandbox_vfs.Base.{
  ℕ, ◌+◌, ◌<◌, ◌^◌, ◌≡◌, refl, true, none, some, length, List, [], ◌∷◌, ◌++◌, codes, arith, pos,
}
use sandbox_vfs.FilePath.{FilePath, root_path, normal, ancestors, path_eq, parent, join}
use sandbox_vfs.FilePath.Normal.{trail}
use sandbox_vfs.Filesystem.{file, dir}
use sandbox_vfs.Memory.{Heap, MemoryOpenedFile, resolve}
use sandbox_vfs.Memory.Backend.{memory_backend, memory_opened_file}
use sandbox_vfs.Memory.Create.{new}
use sandbox_vfs.Memory.Reached.{HasOnePath, apply_all-HasOnePath}
use sandbox_vfs.Memory.Refines.{
  Change, make, remove, rename, View, all_changed, apply, apply_all, apply_all-resolve,
}
use sandbox_vfs.Memory.Tree.{IsValid}
use sandbox_vfs.Memory.Tree.Locate.{locate}
use sandbox_vfs.RootVfs
use sandbox_vfs.RootVfs.{RootVfs, FdInfo, VfsState, absolute_path_to_fs, select_mount, backend_at}
use sandbox_vfs.RootVfs.At.{openat, mkdirat}
use sandbox_vfs.RootVfs.At.Handles.{at_handle}
use sandbox_vfs.RootVfs.Backend.{mkdir}
use sandbox_vfs.RootVfs.Open.{open_path}
use sandbox_vfs.Tests.Names.{counting, blank, path_a, path_af, path_b, path_bf}
use sandbox_vfs.Tests.Memory.{
  machine, fs, with_af, test_resolve_a, with_af-IsValid, with_af-room_for_three,
}

abbrev changes : List Change
changes = make path_b dir 0o755 ∷ rename path_af path_bf ∷ remove path_a dir ∷ []

abbrev before : View
before t = locate with_af.objects (with_af.maps fs.nodes) fs.root t

apply_all-resolve_example :
    let (replies, h') = apply_all counting fs changes with_af in
    IsValid fs h'
    × ((p : FilePath) → resolve fs h' p ≡ all_changed changes replies before (trail p))
apply_all-resolve_example =
    apply_all-resolve counting fs changes with_af before with_af-IsValid (tt, ((tt, tt), (tt, tt)))
      with_af-room_for_three (λ t. refl)

-- Make /a and /a/f, and move /a to /b.
abbrev first_changes : List Change
first_changes = make path_a dir 0o755 ∷ make path_af file 0o644 ∷ rename path_a path_b ∷ []

fresh_room : blank.next_node_id + 1 + length first_changes < 2 ^ 64
fresh_room = omega arith

moved_live :
    (apply_all counting
        (new counting (codes "memory") blank).0
        first_changes
        (new counting (codes "memory") blank).1).1.maps
      1 3
    ≡ true
unfolding machine apply apply_all
moved_live = refl

apply_all-HasOnePath_example :
    HasOnePath
      (new counting (codes "memory") blank).0
      (apply_all counting
        (new counting (codes "memory") blank).0
        first_changes
        (new counting (codes "memory") blank).1).1
      3
unfolding new
apply_all-HasOnePath_example =
    apply_all-HasOnePath counting (codes "memory") blank first_changes fresh_room
      (tt, (tt, ((tt, tt), tt))) 3 moved_live

-- A process on that file system alone, with the directory /a open.
unfoldable pub vfs : RootVfs (Heap ℕ) MemoryOpenedFile
unfolding RootVfs.new fs
vfs = RootVfs.new (memory_backend counting fs) (memory_opened_file counting)

unfoldable pub opened_a : FdInfo MemoryOpenedFile
unfolding fs
opened_a = record { path = path_a; dir_offset = 0; opened = some (record { node = 2; nodes = 1 }) }

unfoldable pub with_a_open : VfsState (Heap ℕ) MemoryOpenedFile
unfolding opened_a
with_a_open = record { cwd = root_path; fds = λ fd. some opened_a; world = with_af }

name_g : FilePath
name_g = normal (codes "g") ∷ []

held_a : absolute_path_to_fs vfs (path_a ++ name_g) ≡ (none, path_a ++ name_g)
unfolding vfs absolute_path_to_fs select_mount ancestors path_eq parent name_g
held_a = refl

at_handle_example :
    (openat vfs (pos 7) name_g 0o101 0o644 with_a_open
      ≡ open_path vfs (join path_a name_g) 0o101 0o644 with_a_open)
    × (mkdirat vfs (pos 7) name_g 0o644 with_a_open
        ≡ mkdir vfs (join path_a name_g) 0o644 with_a_open)
unfolding vfs opened_a with_a_open fs name_g
at_handle_example =
    at_handle counting fs vfs refl with_a_open (pos 7) opened_a 2 path_a name_g none refl refl refl
      test_resolve_a tt (λ e. cc) tt held_a (unfold backend_at in refl) refl 0o101 0o644
