-- ===== src/Memory/Create.antt =====
-- src/impls/memory.rs: a new file system, and a new node in a directory.
pub mod Cases
pub mod New
pub mod Laws
use sandbox_vfs.Base.{
  ℕ, Bool, true, false, Option, none, some, List, [], ◌∷◌, ◌++◌, Bytes, ℤ, ◌==◌, is_negative,
  if◌then◌else◌, bit_and, codes,
}
use sandbox_vfs.FilePath.{FilePath, is_absolute, parent, file_name}
use sandbox_vfs.Filesystem.{EntryKind, file, dir}
use sandbox_vfs.Entries.{lookup, insert}
use sandbox_vfs.Memory.{
  Kernel, NodeKind, regular, directory, Node, Heap, MemoryFs, backing_fd, put_node, set_entries,
  set_member, bump_node_id, resolve_parent, resolve_relative,
}

module _ {K : Type 0} (os : Kernel K) where
  unfoldable pub create_memfd : Bytes → Heap K → ℤ × Heap K
  create_memfd name h =
      let (fd, kernel) = os.memfd_create name h.kernel in (fd, record h { kernel = kernel })

  -- The `match kind` that makes the backing of a new node.
  unfoldable pub new_kind : EntryKind → Heap K → NodeKind × Heap K
  unfolding create_memfd
  new_kind file h =
      let (fd, h') = create_memfd (codes "sandbox-vfs-file" ++ 0 ∷ []) h in (regular fd, h')
  new_kind dir h =
      let (fd, h') = create_memfd (codes "sandbox-vfs-dir" ++ 0 ∷ []) h in (directory [] fd, h')

  -- `MemoryFS::new`. The map of the new file system stands at the address of its root.
  unfoldable pub new : Bytes → Heap K → MemoryFs × Heap K
  unfolding new_kind create_memfd
  new id h =
      let root = h.next_node_id in
      let (kind, h') = new_kind dir (bump_node_id h) in
      let node : Node = record { parent_id = some root; mode = 0o755; links = 1; kind = kind } in
      (
        record { id = id; root = root; nodes = root },
        record (put_node root node h') {
          maps = λ m i. if m == root then root == i else h'.maps m i;
        },
      )

  -- The node is made before the entry. A failed `memfd_create` uses up its number.
  unfoldable pub create_node_in_dir : ℕ → ℕ → Bytes → EntryKind → ℕ → Heap K → Option ℕ × Heap K
  unfolding new_kind create_memfd backing_fd
  create_node_in_dir up nodes name kind mode h = elim (h.objects up).kind [
    | regular fd ↦ (none, h)
    | directory entries dir_fd ↦ elim (lookup name entries) [
      | some taken ↦ (none, h)
      | none ↦
          let id = h.next_node_id in
          let (node_kind, h') = new_kind kind (bump_node_id h) in
          if is_negative (backing_fd node_kind)
          then (none, h')
          else let node : Node = record {
            parent_id = some up;
            mode = bit_and mode 0o7777;
            links = 1;
            kind = node_kind;
          } in
            (
              some id,
              set_entries up (insert name id entries) dir_fd
                  (set_member nodes id true (put_node id node h')),
            )
    ]
  ]

  unfoldable pub create_node : MemoryFs → FilePath → EntryKind → ℕ → Heap K → Option ℕ × Heap K
  create_node fs path kind mode h = elim (resolve_parent fs h path) [
    | none ↦ (none, h)
    | some (up, name) ↦ create_node_in_dir up fs.nodes name kind mode h
  ]

  unfoldable pub create_relative_node :
      ℕ → ℕ → FilePath → EntryKind → ℕ → Heap K → Option ℕ × Heap K
  create_relative_node start nodes path kind mode h =
      if is_absolute path then (none, h) else (elim (parent path) [
        | none ↦ (none, h)
        | some up_path ↦ elim (file_name path) [
          | none ↦ (none, h)
          | some name ↦ elim (resolve_relative h start nodes up_path) [
            | none ↦ (none, h)
            | some up ↦ create_node_in_dir up nodes name kind mode h
          ]
        ]
      ])
