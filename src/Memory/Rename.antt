-- ===== src/Memory/Rename.antt =====
-- src/impls/memory.rs: `rename_node_at`.
pub mod Moved
pub mod Cases
pub mod Ends
pub mod Laws
use sandbox_vfs.Base.{
  ℕ, Bool, true, false, ◌&&◌, ◌||◌, not, Option, none, some, ℤ, pos, minus_one, Bytes, ◌==◌,
  if◌then◌else◌,
}
use sandbox_vfs.FilePath.{FilePath, root_path, path_eq, starts_with}
use sandbox_vfs.Entries.{Entries, lookup, insert, remove, is_empty}
use sandbox_vfs.Memory.{
  NodeKind, regular, directory, Heap, put_node, set_entries, set_member, node_from_map,
  is_directory, resolve_parent_from_root,
}
use sandbox_vfs.Memory.Remove.{detach}

unfoldable pub can_replace_node : NodeKind → NodeKind → Bool
can_replace_node (regular a) (regular b) = true
can_replace_node (directory a fd) (directory entries b) = is_empty entries
can_replace_node _ _ = false

module _ {K : Type 0} where
  -- The entries of a directory are moved in place, under its one write lock.
  unfoldable pub move_entry : ℕ → ℕ → Entries → ℤ → Bytes → Bytes → Heap K → Heap K
  move_entry up old_id entries fd old_name new_name h =
      set_entries up (insert new_name old_id (remove old_name entries)) fd h

  -- Both names are in the directory `up`.
  unfoldable pub rename_in_dir : ℕ → ℕ → Entries → ℤ → Bytes → Bytes → Bool → Heap K → ℤ × Heap K
  unfolding detach can_replace_node is_directory node_from_map move_entry
  rename_in_dir nodes up entries fd old_name new_name below h = elim (lookup old_name entries) [
    | none ↦ (minus_one, h)
    | some old_id ↦ elim (node_from_map h nodes old_id) [
      | none ↦ (minus_one, h)
      | some node ↦
          if is_directory (h.objects node).kind && below
          then (minus_one, h)
          else (elim (lookup new_name entries) [
            | none ↦ (pos 0, move_entry up old_id entries fd old_name new_name h)
            | some replaced_id ↦
                if replaced_id == old_id
                then (pos 0, h)
                else (elim (node_from_map h nodes replaced_id) [
                  | none ↦ (minus_one, h)
                  | some replaced ↦
                      if can_replace_node (h.objects node).kind (h.objects replaced).kind
                      then (
                        pos 0,
                        move_entry up old_id entries fd old_name new_name
                            (set_member nodes replaced_id false (detach replaced h)),
                      )
                      else (minus_one, h)
                ])
          ])
    ]
  ]

  -- What `entries.insert` displaced is detached.
  unfoldable pub drop_replaced : ℕ → Option ℕ → Heap K → Heap K
  unfolding detach node_from_map
  drop_replaced nodes none h = h
  drop_replaced nodes (some replaced_id) h =
      set_member nodes replaced_id false
        (elim (node_from_map h nodes replaced_id) [ none ↦ h | some replaced ↦ detach replaced h ])

  -- The writes of a rename between two directories.
  unfoldable pub move_between :
      ℕ → ℕ → ℕ → ℕ → Entries → ℤ → Bytes → Entries → ℤ → Bytes → Heap K → Heap K
  unfolding drop_replaced
  move_between nodes old_id old_up new_up old_es old_fd old_name new_es new_fd new_name h =
      let h1 = set_entries old_up (remove old_name old_es) old_fd h in
      let h2 = set_entries new_up (insert new_name old_id new_es) new_fd h1 in
      let h3 = drop_replaced nodes (lookup new_name new_es) h2 in
      put_node old_id (record (h3.objects old_id) { parent_id = some new_up }) h3

  -- The target name is free, names the same node, or names a node that may be replaced.
  unfoldable pub rename_across :
      ℕ → ℕ → ℕ → Entries → ℤ → Bytes → Entries → ℤ → Bytes → Bool → Heap K → ℤ × Heap K
  unfolding can_replace_node is_directory node_from_map move_between
  rename_across nodes old_up new_up old_es old_fd old_name new_es new_fd new_name below h =
      elim (lookup old_name old_es) [
        | none ↦ (minus_one, h)
        | some old_id ↦ elim (node_from_map h nodes old_id) [
          | none ↦ (minus_one, h)
          | some node ↦
              let moved : ℤ × Heap K = (
                pos 0,
                move_between nodes old_id old_up new_up old_es old_fd old_name new_es new_fd
                    new_name h,
              ) in
              if is_directory (h.objects node).kind && below
              then (minus_one, h)
              else (elim (lookup new_name new_es) [
                | none ↦ moved
                | some replaced_id ↦
                    if replaced_id == old_id
                    then (pos 0, h)
                    else (elim (node_from_map h nodes replaced_id) [
                      | none ↦ (minus_one, h)
                      | some replaced ↦
                          if can_replace_node (h.objects node).kind (h.objects replaced).kind
                          then moved
                          else (minus_one, h)
                    ])
              ])
        ]
      ]

  -- The two `let .. else` on the kinds of the parents, and the two cases.
  unfoldable pub rename_entry : ℕ → ℕ → Bytes → ℕ → Bytes → Bool → Heap K → ℤ × Heap K
  unfolding rename_in_dir rename_across
  rename_entry nodes old_up old_name new_up new_name below h = elim (h.objects old_up).kind [
    | regular fd ↦ (minus_one, h)
    | directory old_es old_fd ↦ elim (h.objects new_up).kind [
      | regular fd ↦ (minus_one, h)
      | directory new_es new_fd ↦
          if old_up == new_up
          then rename_in_dir nodes old_up old_es old_fd old_name new_name below h
          else rename_across nodes old_up new_up old_es old_fd old_name new_es new_fd new_name below
              h
    ]
  ]

  unfoldable pub rename_node_at : FilePath → FilePath → ℕ → ℕ → Heap K → ℤ × Heap K
  rename_node_at old_path new_path nodes root h =
      if path_eq old_path root_path || path_eq new_path root_path
      then (minus_one, h)
      else if path_eq old_path new_path
      then (pos 0, h)
      else (elim (resolve_parent_from_root h old_path nodes root) [
        | none ↦ (minus_one, h)
        | some (old_up, old_name) ↦ elim (resolve_parent_from_root h new_path nodes root) [
          | none ↦ (minus_one, h)
          | some (new_up, new_name) ↦
              rename_entry nodes old_up old_name new_up new_name (starts_with new_path old_path) h
        ]
      ])
