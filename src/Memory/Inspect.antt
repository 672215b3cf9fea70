-- ===== src/Memory/Inspect.antt =====
-- src/impls/memory.rs: `stat_node` and `read_node_dir`.
use mathlib.Core.Option
use sandbox_vfs.Base.{ℕ, ◌+◌, Option, none, some, List, [], ◌∷◌, ◌==◌, bit_or, if◌then◌else◌}
use sandbox_vfs.Filesystem.{Stat, zeroed, DirEntry}
use sandbox_vfs.Libc.{s_ifreg, s_ifdir}
use sandbox_vfs.Entries.{Entries}
use sandbox_vfs.Memory.{
  Kernel, NodeKind, regular, directory, Heap, entry_kind, is_directory, node_from_map,
}

unfoldable pub file_type : NodeKind → ℕ
file_type (regular fd) = s_ifreg
file_type (directory entries fd) = s_ifdir

module _ {K : Type 0} where
  -- The entries whose node is in the map and is a directory.
  unfoldable pub count_dirs : Heap K → ℕ → Entries → ℕ
  unfolding node_from_map is_directory
  count_dirs h nodes [] = 0
  count_dirs h nodes ((name, id) ∷ entries) =
      (elim (node_from_map h nodes id) [
        | none ↦ 0
        | some node ↦ if is_directory (h.objects node).kind then 1 else 0
      ])
      + count_dirs h nodes entries

  unfoldable pub link_count : Heap K → ℕ → NodeKind → ℕ
  unfolding count_dirs
  link_count h nodes (regular fd) = 1
  link_count h nodes (directory entries fd) = 2 + count_dirs h nodes entries

  unfoldable pub kernel_stat : Kernel K → NodeKind → K → Stat
  kernel_stat os (regular fd) k = os.fstat fd zeroed k
  kernel_stat os (directory entries fd) k = zeroed

  unfoldable pub stat_node : Kernel K → ℕ → ℕ → Heap K → Stat
  unfolding link_count file_type kernel_stat
  stat_node os node nodes h =
      let n = h.objects node in
      record (kernel_stat os n.kind h.kernel) {
        st_mode = bit_or (file_type n.kind) n.mode;
        st_ino = node;
        st_nlink = if n.links == 0 then 0 else link_count h nodes n.kind;
        st_blksize = 4096;
      }

  -- `collect` into an `Option`: one entry without a node makes the whole listing fail.
  unfoldable pub list_entries : Heap K → ℕ → Entries → Option (List DirEntry)
  unfolding node_from_map entry_kind
  list_entries h nodes [] = some []
  list_entries h nodes ((name, id) ∷ entries) = elim (node_from_map h nodes id) [
    | none ↦ none
    | some node ↦
        let entry : DirEntry = record {
          name = name;
          kind = entry_kind (h.objects node).kind;
          ino = some node;
        } in
        Option.map (λ rest. entry ∷ rest) (list_entries h nodes entries)
  ]

  unfoldable pub read_kind : Heap K → ℕ → NodeKind → Option (List DirEntry)
  unfolding list_entries
  read_kind h nodes (regular fd) = none
  read_kind h nodes (directory entries fd) = list_entries h nodes entries

  unfoldable pub read_node_dir : ℕ → ℕ → Heap K → Option (List DirEntry)
  unfolding read_kind
  read_node_dir node nodes h = read_kind h nodes (h.objects node).kind
