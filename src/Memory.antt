-- ===== src/Memory.antt =====
-- src/impls/memory.rs: the nodes of `MemoryFS`, and the look-ups of a node from a path.
-- An `Arc<Node>` is the number of its node, which `NEXT_NODE_ID` hands out once in the process;
-- `Heap.objects` is what stands behind these pointers, for the nodes of all file systems and also
-- for nodes that only an open handle keeps. An `Arc<RwLock<HashMap<..>>>` of nodes is an address
-- too, and `Heap.maps` tells which nodes the map at an address holds.
pub mod Create
pub mod Remove
pub mod Rename
pub mod Open
pub mod Inspect
pub mod Backend
pub mod Tree
pub mod Paths
pub mod Refines
pub mod Reached
pub mod Sorted
pub mod Listed
pub mod Chmod
pub mod Drop
use sandbox_vfs.Base.{
  ℕ, ◌+◌, ◌%◌, ◌^◌, Bool, true, false, ◌&&◌, Option, none, some, List, [], ◌∷◌, Bytes, ℤ, ◌==◌,
  is_negative, if◌then◌else◌,
}
use sandbox_vfs.FilePath.{
  FilePath, Component, root_dir, cur_dir, parent_dir, normal, is_absolute, parent, file_name,
}
use sandbox_vfs.Filesystem.{EntryKind, file, dir, Stat}
use sandbox_vfs.Entries.{Entries, lookup}

-- The system calls on anonymous files: `memfd_create`, `openat` on `/proc/self/fd/N`, `fstat`,
-- `fchmod` and `close`; the program ignores the results of the last three. `K` is the state of the kernel.
pub record Kernel (K : Type 0) : Type 0 where
  pub memfd_create : Bytes → K → ℤ × K
  pub open_proc_fd : ℤ → ℕ → K → ℤ × K
  pub fstat : ℤ → Stat → K → Stat
  pub fchmod : ℤ → ℕ → K → K
  pub close : ℤ → K → K

pub data NodeKind : Type 0 where
  regular : ℤ → NodeKind
  directory : Entries → ℤ → NodeKind

pub record Node : Type 0 where
  pub parent_id : Option ℕ
  pub mode : ℕ
  pub links : ℕ
  pub kind : NodeKind

pub record Heap (K : Type 0) : Type 0 where
  pub kernel : K
  pub next_node_id : ℕ
  pub objects : ℕ → Node
  pub maps : ℕ → ℕ → Bool

pub record MemoryFs : Type 0 where
  pub id : Bytes
  pub root : ℕ
  pub nodes : ℕ

-- A handle on an open node, with the map of its file system.
pub record MemoryOpenedFile : Type 0 where
  pub node : ℕ
  pub nodes : ℕ

unfoldable pub backing_fd : NodeKind → ℤ
backing_fd (regular fd) = fd
backing_fd (directory entries fd) = fd

unfoldable pub entry_kind : NodeKind → EntryKind
entry_kind (regular fd) = file
entry_kind (directory entries fd) = dir

unfoldable pub is_directory : NodeKind → Bool
is_directory (regular fd) = false
is_directory (directory entries fd) = true

-- The entry of a name; a regular file has none.
unfoldable pub entry_of : NodeKind → Bytes → Option ℕ
entry_of (regular fd) name = none
entry_of (directory entries fd) name = lookup name entries

-- What is at address `i` after a write of `v` to it.
abbrev pub update {ℓ} : {A : Type ℓ} → (ℕ → A) → ℕ → A → ℕ → A
update f i v j = if i == j then v else f j

-- Membership in the maps after that of `i` in the map at `m` becomes `b`.
abbrev pub update_map : (ℕ → ℕ → Bool) → ℕ → ℕ → Bool → ℕ → ℕ → Bool
update_map f m i b n j = if n == m && i == j then b else f n j

module _ {K : Type 0} where
  -- nodes.read().unwrap().get(&id).cloned()
  unfoldable pub node_from_map : Heap K → ℕ → ℕ → Option ℕ
  node_from_map h nodes id = if h.maps nodes id then some id else none

  abbrev pub put_node : ℕ → Node → Heap K → Heap K
  put_node i node h = record h { objects = update h.objects i node }

  abbrev pub set_entries : ℕ → Entries → ℤ → Heap K → Heap K
  set_entries i entries fd h = put_node i (record (h.objects i) { kind = directory entries fd }) h

  abbrev pub set_member : ℕ → ℕ → Bool → Heap K → Heap K
  set_member nodes i b h = record h { maps = update_map h.maps nodes i b }

  -- NEXT_NODE_ID.fetch_add(1, ..) on a 64-bit counter
  abbrev pub bump_node_id : Heap K → Heap K
  bump_node_id h = record h { next_node_id = (h.next_node_id + 1) % 2 ^ 64 }

  -- One step down: the node that `name` stands for in the directory `i`.
  unfoldable pub child : Heap K → ℕ → ℕ → Bytes → Option ℕ
  unfolding node_from_map entry_of
  child h nodes i name = elim (entry_of (h.objects i).kind name) [
    | none ↦ none
    | some id ↦ node_from_map h nodes id
  ]

  -- The loop of `resolve` and `resolve_from_root`, which skips every component but names.
  unfoldable pub walk : Heap K → ℕ → ℕ → FilePath → Option ℕ
  walk h nodes i [] = some i
  walk h nodes i (root_dir ∷ p) = walk h nodes i p
  walk h nodes i (cur_dir ∷ p) = walk h nodes i p
  walk h nodes i (parent_dir ∷ p) = walk h nodes i p
  walk h nodes i (normal name ∷ p) = elim (child h nodes i name) [
    | none ↦ none
    | some next ↦ walk h nodes next p
  ]

  unfoldable pub resolve_from_root : Heap K → FilePath → ℕ → ℕ → Option ℕ
  unfolding walk node_from_map
  resolve_from_root h path nodes root = elim (node_from_map h nodes root) [
    | none ↦ none
    | some i ↦ walk h nodes i path
  ]

  unfoldable pub resolve_parent_from_root : Heap K → FilePath → ℕ → ℕ → Option (ℕ × Bytes)
  unfolding resolve_from_root
  resolve_parent_from_root h path nodes root = elim (parent path) [
    | none ↦ none
    | some up ↦ elim (resolve_from_root h up nodes root) [
      | none ↦ none
      | some i ↦ elim (file_name path) [ none ↦ none | some name ↦ some (i, name) ]
    ]
  ]

  -- The methods of the same names do the same from the fields of the file system.
  unfoldable pub resolve : MemoryFs → Heap K → FilePath → Option ℕ
  unfolding resolve_from_root
  resolve fs h path = resolve_from_root h path fs.nodes fs.root

  unfoldable pub resolve_parent : MemoryFs → Heap K → FilePath → Option (ℕ × Bytes)
  unfolding resolve_parent_from_root
  resolve_parent fs h path = resolve_parent_from_root h path fs.nodes fs.root

  -- The loop of `resolve_relative`. A `..` goes to the parent that the node has now.
  unfoldable pub walk_relative : Heap K → ℕ → ℕ → FilePath → Option ℕ
  unfolding node_from_map
  walk_relative h nodes i [] = some i
  walk_relative h nodes i (cur_dir ∷ p) = walk_relative h nodes i p
  walk_relative h nodes i (normal name ∷ p) = elim (child h nodes i name) [
    | none ↦ none
    | some next ↦ walk_relative h nodes next p
  ]
  walk_relative h nodes i (parent_dir ∷ p) = elim (h.objects i).parent_id [
    | none ↦ none
    | some up ↦ elim (node_from_map h nodes up) [
      | none ↦ none
      | some next ↦ walk_relative h nodes next p
    ]
  ]
  walk_relative h nodes i (root_dir ∷ p) = none

  -- `can_resolve_relative_to_opened_node` is the test for a relative path.
  unfoldable pub resolve_relative : Heap K → ℕ → ℕ → FilePath → Option ℕ
  unfolding walk_relative
  resolve_relative h start nodes path =
      if is_absolute path then none else walk_relative h nodes start path
