-- ===== src/Tests/Vfs.antt =====
-- `RootVFS` with the memory file system at the root and mounted at /a and at /a/f.
use sandbox_vfs.Base.{◌≡◌, refl, true, some, [], ◌∷◌, codes, bytes_eq, ℕ}
use sandbox_vfs.FilePath.{
  starts_with, FilePath, root_dir, normal, parent_dir, component_eq, path_eq, join, parent,
  strip_prefix, ancestors,
}
use sandbox_vfs.FilePath.Normal.{IsNormal, trail, untrail}
use sandbox_vfs.Filesystem.{LowLevelFs}
use sandbox_vfs.Memory.{Heap, MemoryOpenedFile}
use sandbox_vfs.Memory.Backend.{memory_backend, memory_opened_file}
use sandbox_vfs.RootVfs
use sandbox_vfs.RootVfs.{
  RootVfs, VfsState, with_mount, initial, normalize_absolute, normalize_from, pop, resolve_path,
  path_to_fs, absolute_path_to_fs, select_mount, find_mount, insert_mount,
}
use sandbox_vfs.RootVfs.Normalize.{visit, normalize_absolute-visit, normalize_absolute_idempotent}
use sandbox_vfs.RootVfs.Mounts.{Nearest}
use sandbox_vfs.RootVfs.Dispatch.{path_to_fs-Nearest, path_to_fs-IsNormal}
use sandbox_vfs.RootVfs.Open
use sandbox_vfs.RootVfs.Open.Tracked.{Tracked, open_path-Tracked}
use sandbox_vfs.BindFs.{BindFs, translate_path}
use sandbox_vfs.BindFs.Containment.{translate_path-dispatched}
use sandbox_vfs.Tests.Names.{counting, path_a, path_af}
use sandbox_vfs.Tests.Memory.{fs, with_af}

abbrev pub backend : LowLevelFs (Heap ℕ) MemoryOpenedFile
backend = memory_backend counting fs

unfoldable pub vfs : RootVfs (Heap ℕ) MemoryOpenedFile
unfolding RootVfs.new with_mount
vfs =
    with_mount (with_mount (RootVfs.new backend (memory_opened_file counting)) path_a backend)
      path_af backend

unfoldable pub start : VfsState (Heap ℕ) MemoryOpenedFile
unfolding initial
start = initial with_af

-- a/./x/../f/b
relative : FilePath
relative =
    normal (codes "a")
    ∷ normal (codes "x")
    ∷ parent_dir
    ∷ normal (codes "f")
    ∷ normal (codes "b")
    ∷ []

test_dispatch : path_to_fs vfs start relative ≡ (some path_af, root_dir ∷ normal (codes "b") ∷ [])
unfolding vfs start relative path_to_fs join parent component_eq path_eq bytes_eq strip_prefix
    ancestors
test_dispatch = refl

normalize_absolute-visit_example :
    normalize_absolute relative ≡ root_dir ∷ untrail (visit [] relative)
normalize_absolute-visit_example = normalize_absolute-visit relative

normalize_absolute_idempotent_example :
    IsNormal (normalize_absolute relative)
    × (normalize_absolute (normalize_absolute relative) ≡ normalize_absolute relative)
normalize_absolute_idempotent_example = normalize_absolute_idempotent relative

path_to_fs-Nearest_example :
    Nearest vfs.mounts (resolve_path start relative) (path_to_fs vfs start relative)
path_to_fs-Nearest_example = path_to_fs-Nearest vfs start relative

path_to_fs-IsNormal_example : IsNormal (path_to_fs vfs start relative).1
path_to_fs-IsNormal_example = path_to_fs-IsNormal vfs start relative

host_dir : BindFs
host_dir = record { id = codes "host"; root = root_dir ∷ normal (codes "srv") ∷ [] }

translate_path-dispatched_example :
    let host_path = translate_path host_dir (path_to_fs vfs start relative).1 in
    (starts_with host_path host_dir.root ≡ true)
    × (strip_prefix host_path host_dir.root
        ≡ some (untrail (trail (path_to_fs vfs start relative).1)))
translate_path-dispatched_example = translate_path-dispatched host_dir vfs start relative

open_path-Tracked_example :
    Tracked start relative (RootVfs.Open.open_path vfs relative 0o101 0o644 start)
open_path-Tracked_example = open_path-Tracked start relative vfs 0o101 0o644
