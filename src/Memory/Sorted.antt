-- ===== src/Memory/Sorted.antt =====
-- The entries of every directory of src/impls/memory.rs stay in the order of their names.
mod Branches
mod Renamed
pub use Branches.{KindSorted, AllSorted}
use sandbox_vfs.Base.{
  ℕ, ◌≡◌, sym, subst, true, none, some, List, [], ◌∷◌, Bytes, ℤ, is_negative, bit_and,
}
use sandbox_vfs.FilePath.{FilePath, root_path, path_eq}
use sandbox_vfs.Filesystem.{EntryKind, file, dir}
use sandbox_vfs.Entries
use sandbox_vfs.Entries.{Entries}
use sandbox_vfs.Entries.Order.{IsSorted, insert-IsSorted, remove-IsSorted}
use sandbox_vfs.Memory.{
  Kernel, Node, Heap, MemoryFs, put_node, set_entries, set_member, bump_node_id, node_from_map,
  backing_fd, resolve_parent, resolve_parent_from_root,
}
use sandbox_vfs.Memory.Create.{new, new_kind, create_node_in_dir, create_node}
use sandbox_vfs.Memory.Create.Cases.{objects-new_kind}
use sandbox_vfs.Memory.Remove.{can_remove, detach, remove_entry, remove_node_at}
use sandbox_vfs.Memory.Refines.{Change, make, remove, rename, apply, apply_all}
use sandbox_vfs.Memory.Sorted.Branches.{
  Keeps, keep, on_if, on_option, on_kind, put_node-AllSorted, set_entries-AllSorted,
  detach-AllSorted,
}
use sandbox_vfs.Memory.Sorted.Renamed.{rename_node_at-Keeps}

module _ {K : Type 0} where
  remove_entry-Keeps :
      (nodes up : ℕ) (name : Bytes) (kind : EntryKind) (h : Heap K)
      → AllSorted h
      → Keeps (remove_entry nodes up name kind h)
  unfolding remove_entry
  remove_entry-Keeps nodes up name kind h all =
      let gone : (es : Entries) (fd : ℤ)
          → IsSorted es
          → AllSorted (set_entries up (Entries.remove name es) fd h) =
        λ es fd s.
          set_entries-AllSorted up (Entries.remove name es) fd h all (remove-IsSorted name es s) in
      on_kind (h.objects up).kind (all up) (λ fd. keep all)
        (λ es fd s. on_option (Entries.lookup name es) (keep all) (λ id.
          on_option (node_from_map h nodes id) (keep (gone es fd s)) (λ node.
            on_if (can_remove (h.objects node).kind kind)
              (keep (
                detach-AllSorted node (set_entries up (Entries.remove name es) fd h)
                  (gone es fd s)))
              (keep all))))

  remove_node_at-Keeps :
      (path : FilePath) (nodes root : ℕ) (kind : EntryKind) (h : Heap K)
      → AllSorted h
      → Keeps (remove_node_at path nodes root kind h)
  unfolding remove_node_at
  remove_node_at-Keeps path nodes root kind h all = on_if (path_eq path root_path) (keep all) (
      on_option (resolve_parent_from_root h path nodes root) (keep all)
        (λ (up, name). remove_entry-Keeps nodes up name kind h all))

module _ {K : Type 0} (os : Kernel K) where
  new_kind-KindSorted : (kind : EntryKind) (h : Heap K) → KindSorted (new_kind os kind h).0
  unfolding new_kind
  new_kind-KindSorted file h = tt
  new_kind-KindSorted dir h = tt

  new_kind-AllSorted :
      (kind : EntryKind) (h : Heap K) → AllSorted h → AllSorted (new_kind os kind h).1
  new_kind-AllSorted kind h all i =
      subst (λ (o : ℕ → Node). KindSorted (o i).kind) (sym (objects-new_kind os kind h)) (all i)

  create_node_in_dir-Keeps :
      (up nodes : ℕ) (name : Bytes) (kind : EntryKind) (mode : ℕ) (h : Heap K)
      → AllSorted h
      → Keeps (create_node_in_dir os up nodes name kind mode h)
  unfolding create_node_in_dir
  create_node_in_dir-Keeps up nodes name kind mode h all =
      on_kind (h.objects up).kind (all up) (λ fd. keep all)
        (λ es fd s.
          let new_heap = bump_node_id h in
          let made = new_kind-AllSorted kind new_heap all in
          let node : Node = record {
            parent_id = some up;
            mode = bit_and mode 0o7777;
            links = 1;
            kind = (new_kind os kind new_heap).0;
          } in
          on_option (Entries.lookup name es)
            (on_if (is_negative (backing_fd (new_kind os kind new_heap).0)) (keep made) (
              keep (
                set_entries-AllSorted up (Entries.insert name h.next_node_id es) fd
                  (set_member nodes h.next_node_id true
                    (put_node h.next_node_id node (new_kind os kind new_heap).1))
                  (put_node-AllSorted h.next_node_id node (new_kind os kind new_heap).1 made
                    (new_kind-KindSorted kind new_heap))
                  (insert-IsSorted name h.next_node_id es s))))
            (λ taken. keep all))

  create_node-Keeps :
      (fs : MemoryFs) (path : FilePath) (kind : EntryKind) (mode : ℕ) (h : Heap K)
      → AllSorted h
      → Keeps (create_node os fs path kind mode h)
  unfolding create_node
  create_node-Keeps fs path kind mode h all =
      on_option (resolve_parent fs h path) (keep all)
        (λ (up, name). create_node_in_dir-Keeps up fs.nodes name kind mode h all)

  pub create_node-AllSorted :
      (fs : MemoryFs) (path : FilePath) (kind : EntryKind) (mode : ℕ) (h : Heap K)
      → AllSorted h
      → AllSorted (create_node os fs path kind mode h).1
  create_node-AllSorted fs path kind mode h all = (create_node-Keeps fs path kind mode h all).all

  -- A change in a file system.
  apply-Keeps :
      (fs : MemoryFs) (c : Change) (h : Heap K) → AllSorted h → AllSorted (apply os fs c h).1
  unfolding apply
  apply-Keeps fs (make path kind mode) h all = (create_node-Keeps fs path kind mode h all).all
  apply-Keeps fs (remove path kind) h all =
      (remove_node_at-Keeps path fs.nodes fs.root kind h all).all
  apply-Keeps fs (rename old_path new_path) h all =
      (rename_node_at-Keeps old_path new_path fs.nodes fs.root h all).all

  pub apply_all-AllSorted :
      (fs : MemoryFs) (cs : List Change) (h : Heap K)
      → AllSorted h
      → AllSorted (apply_all os fs cs h).1
  unfolding apply_all
  apply_all-AllSorted fs [] h all = all
  apply_all-AllSorted fs (c ∷ cs) h all =
      apply_all-AllSorted fs cs (apply os fs c h).1 (apply-Keeps fs c h all)

  pub new-AllSorted : (id : Bytes) (h : Heap K) → AllSorted h → AllSorted (new os id h).1
  unfolding new
  new-AllSorted id h all =
      let b = bump_node_id h in
      put_node-AllSorted h.next_node_id
        (record {
          parent_id = some h.next_node_id;
          mode = 0o755;
          links = 1;
          kind = (new_kind os dir b).0;
        })
        (new_kind os dir b).1 (new_kind-AllSorted dir b all) (new_kind-KindSorted dir b)
