-- ===== src/Memory/Sorted/Renamed.antt =====
-- `rename_node_at` of src/impls/memory.rs keeps the entries of every directory in order.
use sandbox_vfs.Base.{
  ℕ, ◌&&◌, ◌||◌, Bool, false, Option, none, some, Bytes, ℤ, ◌==◌, Option-cases, inl, inr,
}
use sandbox_vfs.FilePath.{FilePath, root_path, path_eq, starts_with}
use sandbox_vfs.Entries
use sandbox_vfs.Entries.{Entries}
use sandbox_vfs.Entries.Order.{IsSorted, insert-IsSorted, remove-IsSorted}
use sandbox_vfs.Memory.{
  Heap, set_entries, set_member, node_from_map, is_directory, resolve_parent_from_root,
}
use sandbox_vfs.Memory.Remove.{detach}
use sandbox_vfs.Memory.Rename.{
  can_replace_node, move_entry, drop_replaced, move_between, rename_in_dir, rename_across,
  rename_entry, rename_node_at,
}
use sandbox_vfs.Memory.Sorted.Branches.{
  AllSorted, Keeps, keep, on_if, on_option, on_kind, put_node-AllSorted, set_entries-AllSorted,
  detach-AllSorted,
}

module _ {K : Type 0} where
  move_entry-AllSorted :
      (up i : ℕ) (es : Entries) (fd : ℤ) (old_name new_name : Bytes) (h : Heap K)
      → AllSorted h
      → IsSorted es
      → AllSorted (move_entry up i es fd old_name new_name h)
  unfolding move_entry
  move_entry-AllSorted up i es fd old_name new_name h all s =
      set_entries-AllSorted up (Entries.insert new_name i (Entries.remove old_name es)) fd h all
        (insert-IsSorted new_name i (Entries.remove old_name es) (remove-IsSorted old_name es s))

  rename_in_dir-Keeps :
      (nodes up : ℕ) (es : Entries) (fd : ℤ) (old_name new_name : Bytes) (below : Bool) (h : Heap K)
      → AllSorted h
      → IsSorted es
      → Keeps (rename_in_dir nodes up es fd old_name new_name below h)
  unfolding rename_in_dir
  rename_in_dir-Keeps nodes up es fd old_name new_name below h all s =
      on_option (Entries.lookup old_name es) (keep all) (λ i.
        on_option (node_from_map h nodes i) (keep all) (λ node.
          on_if (is_directory (h.objects node).kind && below) (keep all) (
            on_option (Entries.lookup new_name es)
              (keep (move_entry-AllSorted up i es fd old_name new_name h all s))
              (λ r. on_if (r == i) (keep all) (
                on_option (node_from_map h nodes r) (keep all) (λ replaced.
                  on_if (can_replace_node (h.objects node).kind (h.objects replaced).kind)
                    (keep (
                      move_entry-AllSorted up i es fd old_name new_name
                        (set_member nodes r false (detach replaced h))
                        (detach-AllSorted replaced h all) s))
                    (keep all)))))))

  drop_replaced-AllSorted :
      (nodes : ℕ) (o : Option ℕ) (h : Heap K) → AllSorted h → AllSorted (drop_replaced nodes o h)
  unfolding drop_replaced
  drop_replaced-AllSorted nodes none h all = all
  drop_replaced-AllSorted nodes (some i) h all = elim (Option-cases (node_from_map h nodes i)) [
    | inl e ↦ rw (e, drop_replaced) all
    | inr (r, e) ↦ rw (e, drop_replaced) (detach-AllSorted r h all)
  ]

  move_between-AllSorted :
      (nodes i old_up new_up : ℕ) (old_es : Entries) (old_fd : ℤ) (old_name : Bytes)
      (new_es : Entries) (new_fd : ℤ) (new_name : Bytes) (h : Heap K)
      → AllSorted h
      → IsSorted old_es
      → IsSorted new_es
      → AllSorted
          (move_between nodes i old_up new_up old_es old_fd old_name new_es new_fd new_name h)
  unfolding move_between
  move_between-AllSorted nodes i old_up new_up old_es old_fd old_name new_es new_fd new_name h all
        old_s new_s =
      let h1 = set_entries old_up (Entries.remove old_name old_es) old_fd h in
      let h2 = set_entries new_up (Entries.insert new_name i new_es) new_fd h1 in
      let h3 = drop_replaced nodes (Entries.lookup new_name new_es) h2 in
      let all1 =
        set_entries-AllSorted old_up (Entries.remove old_name old_es) old_fd h all
          (remove-IsSorted old_name old_es old_s) in
      let all2 =
        set_entries-AllSorted new_up (Entries.insert new_name i new_es) new_fd h1 all1
          (insert-IsSorted new_name i new_es new_s) in
      let all3 = drop_replaced-AllSorted nodes (Entries.lookup new_name new_es) h2 all2 in
      put_node-AllSorted i (record (h3.objects i) { parent_id = some new_up }) h3 all3 (all3 i)

  rename_across-Keeps :
      (nodes old_up new_up : ℕ) (old_es : Entries) (old_fd : ℤ) (old_name : Bytes)
      (new_es : Entries) (new_fd : ℤ) (new_name : Bytes) (below : Bool) (h : Heap K)
      → AllSorted h
      → IsSorted old_es
      → IsSorted new_es
      → Keeps
          (rename_across nodes old_up new_up old_es old_fd old_name new_es new_fd new_name below h)
  unfolding rename_across
  rename_across-Keeps nodes old_up new_up old_es old_fd old_name new_es new_fd new_name below h all
        old_s new_s =
      on_option (Entries.lookup old_name old_es) (keep all) (λ i.
        on_option (node_from_map h nodes i) (keep all) (λ node.
          let moved =
            move_between-AllSorted nodes i old_up new_up old_es old_fd old_name new_es new_fd
              new_name h all old_s new_s in
          on_if (is_directory (h.objects node).kind && below) (keep all) (
            on_option (Entries.lookup new_name new_es) (keep moved) (λ r.
              on_if (r == i) (keep all) (
                on_option (node_from_map h nodes r) (keep all) (λ replaced.
                  on_if (can_replace_node (h.objects node).kind (h.objects replaced).kind)
                    (keep moved) (keep all)))))))

  rename_entry-Keeps :
      (nodes old_up : ℕ) (old_name : Bytes) (new_up : ℕ) (new_name : Bytes) (below : Bool)
      (h : Heap K)
      → AllSorted h
      → Keeps (rename_entry nodes old_up old_name new_up new_name below h)
  unfolding rename_entry
  rename_entry-Keeps nodes old_up old_name new_up new_name below h all =
      on_kind (h.objects old_up).kind (all old_up) (λ fd. keep all)
        (λ old_es old_fd old_s.
          on_kind (h.objects new_up).kind (all new_up) (λ fd. keep all)
            (λ new_es new_fd new_s.
              on_if (old_up == new_up)
                (rename_in_dir-Keeps nodes old_up old_es old_fd old_name new_name below h all old_s)
                (rename_across-Keeps nodes old_up new_up old_es old_fd old_name new_es new_fd
                  new_name below h all old_s new_s)))

  pub rename_node_at-Keeps :
      (old_path new_path : FilePath) (nodes root : ℕ) (h : Heap K)
      → AllSorted h
      → Keeps (rename_node_at old_path new_path nodes root h)
  unfolding rename_node_at
  rename_node_at-Keeps old_path new_path nodes root h all =
      on_if (path_eq old_path root_path || path_eq new_path root_path) (keep all) (
        on_if (path_eq old_path new_path) (keep all) (
          on_option (resolve_parent_from_root h old_path nodes root) (keep all)
            (λ (old_up, old_name).
              on_option (resolve_parent_from_root h new_path nodes root) (keep all)
                (λ (new_up, new_name).
                  rename_entry-Keeps nodes old_up old_name new_up new_name
                    (starts_with new_path old_path) h all))))
