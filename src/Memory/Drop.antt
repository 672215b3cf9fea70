-- ===== src/Memory/Drop.antt =====
-- `Drop for Node` of src/impls/memory.rs: the file behind a node is closed with the last `Arc` of the
-- node. These are in the map of the file system and in the handles on open nodes; those that a call
-- takes for itself are gone at its end. A handle is here the number of its node.
pub mod Backed
pub mod Steps
pub mod Cleared
pub mod Makes
pub mod Creates
pub mod Opens
pub mod Modes
pub mod Run
pub mod Whole
use sandbox_vfs.Base.{
  ℕ, Bool, true, false, ◌||◌, Option, none, some, List, [], ◌∷◌, ℤ, ◌==◌, if◌then◌else◌,
}
use sandbox_vfs.FilePath.{FilePath}
use sandbox_vfs.Filesystem.{EntryKind, dir}
use sandbox_vfs.Memory.{Kernel, Heap, MemoryFs, backing_fd, resolve}
use sandbox_vfs.Memory.Backend.{chmod_node}
use sandbox_vfs.Memory.Create.{create_node, create_relative_node}
use sandbox_vfs.Memory.Open.{open_node, open_node_relative}
use sandbox_vfs.Memory.Remove.{remove_node_at}
use sandbox_vfs.Memory.Rename.{rename_node_at}

unfoldable pub is_held : List ℕ → ℕ → Bool
is_held [] i = false
is_held (n ∷ handles) i = (n == i) || is_held handles i

-- The handles after one on `i` is dropped.
unfoldable pub without : ℕ → List ℕ → List ℕ
without i [] = []
without i (n ∷ handles) = if n == i then handles else n ∷ without i handles

-- The handles after an open.
unfoldable pub keep_handle : Option ℕ → List ℕ → List ℕ
keep_handle none handles = handles
keep_handle (some node) handles = node ∷ handles

-- The handles on the nodes of one file system, and the heap.
abbrev pub Session : Type 0 → Type 0
Session K = List ℕ × Heap K

-- The calls on a file system, and on the handles that it gave.
pub data Call : Type 0 where
  make : FilePath → EntryKind → ℕ → Call
  remove : FilePath → EntryKind → Call
  rename : FilePath → FilePath → Call
  chmod : FilePath → ℕ → Call
  open_path : FilePath → ℕ → ℕ → Call
  open_child : ℕ → FilePath → ℕ → ℕ → Call
  mkdir_child : ℕ → FilePath → ℕ → Call
  drop_handle : ℕ → Call

module _ {K : Type 0} (os : Kernel K) where
  -- Drop::drop
  unfoldable pub drop_node : ℕ → Heap K → Heap K
  unfolding backing_fd
  drop_node i h = record h { kernel = os.close (backing_fd (h.objects i).kind) h.kernel }

  module _ (fs : MemoryFs) where
    unfoldable pub is_owned : List ℕ → Heap K → ℕ → Bool
    unfolding is_held
    is_owned handles h i = h.maps fs.nodes i || is_held handles i

    -- A node that nothing points to any more is dropped.
    unfoldable pub drop_unowned : List ℕ → Option ℕ → Heap K → Heap K
    unfolding is_owned drop_node
    drop_unowned handles none h = h
    drop_unowned handles (some i) h = if is_owned handles h i then h else drop_node i h

    -- The only `Arc` that a call takes out of the map is that of the node under the path it clears;
    -- the call drops it when it is done with the heap.
    unfoldable pub remove_and_drop : FilePath → EntryKind → Session K → Session K
    unfolding drop_unowned remove_node_at
    remove_and_drop path kind (handles, h) =
        let (status, h') = remove_node_at path fs.nodes fs.root kind h in
        (handles, drop_unowned handles (resolve fs h path) h')

    unfoldable pub rename_and_drop : FilePath → FilePath → Session K → Session K
    unfolding drop_unowned rename_node_at
    rename_and_drop old_path new_path (handles, h) =
        let (status, h') = rename_node_at old_path new_path fs.nodes fs.root h in
        (handles, drop_unowned handles (resolve fs h new_path) h')

    unfoldable pub drop_opened : ℕ → Session K → Session K
    unfolding drop_unowned without is_held
    drop_opened i (handles, h) =
        if is_held handles i
        then (without i handles, drop_unowned (without i handles) (some i) h)
        else (handles, h)

    unfoldable pub open_kept : FilePath → ℕ → ℕ → Session K → Session K
    unfolding keep_handle
    open_kept path flags mode (handles, h) =
        let ((fd, node), h') = open_node os fs path flags mode h in (keep_handle node handles, h')

    -- A call on a handle, which the caller has.
    unfoldable pub open_child_kept : ℕ → FilePath → ℕ → ℕ → Session K → Session K
    unfolding keep_handle is_held
    open_child_kept start path flags mode (handles, h) =
        if is_held handles start
        then elim (open_node_relative os start fs.nodes path flags mode h).0 [
          | none ↦ (handles, (open_node_relative os start fs.nodes path flags mode h).1)
          | some (fd, node) ↦
              (keep_handle node handles, (open_node_relative os start fs.nodes path flags mode h).1)
        ]
        else (handles, h)

    unfoldable pub mkdir_child_kept : ℕ → FilePath → ℕ → Session K → Session K
    unfolding is_held
    mkdir_child_kept start path mode (handles, h) =
        if is_held handles start
        then (handles, (create_relative_node os start fs.nodes path dir mode h).1)
        else (handles, h)

    unfoldable pub run : Call → Session K → Session K
    unfolding remove_and_drop rename_and_drop drop_opened open_kept open_child_kept mkdir_child_kept
    run (make path kind mode) (handles, h) = (handles, (create_node os fs path kind mode h).1)
    run (remove path kind) s = remove_and_drop path kind s
    run (rename old_path new_path) s = rename_and_drop old_path new_path s
    run (chmod path mode) (handles, h) = (handles, (chmod_node os fs path mode h).1)
    run (open_path path flags mode) s = open_kept path flags mode s
    run (open_child i path flags mode) s = open_child_kept i path flags mode s
    run (mkdir_child i path mode) s = mkdir_child_kept i path mode s
    run (drop_handle i) s = drop_opened i s

    unfoldable pub run_all : List Call → Session K → Session K
    unfolding run
    run_all [] s = s
    run_all (c ∷ cs) s = run_all cs (run c s)
