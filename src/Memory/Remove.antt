-- ===== src/Memory/Remove.antt =====
-- src/impls/memory.rs: `remove_node_at`, the body of `unlink` and `rmdir`.
pub mod Cases
pub mod Laws
pub mod Status
use sandbox_vfs.Base.{ℕ, Bool, true, false, none, some, ℤ, pos, minus_one, Bytes, if◌then◌else◌}
use sandbox_vfs.FilePath.{FilePath, root_path, path_eq}
use sandbox_vfs.Filesystem.{EntryKind, file, dir}
use sandbox_vfs.Entries.{lookup, remove, is_empty}
use sandbox_vfs.Memory.{
  NodeKind, regular, directory, Heap, put_node, set_entries, set_member, node_from_map,
  resolve_parent_from_root,
}

-- A file may be unlinked, an empty directory may be removed.
unfoldable pub can_remove : NodeKind → EntryKind → Bool
can_remove (regular fd) file = true
can_remove (directory entries fd) dir = is_empty entries
can_remove _ _ = false

module _ {K : Type 0} where
  -- What becomes of a node that loses its last name.
  unfoldable pub detach : ℕ → Heap K → Heap K
  detach i h = put_node i (record (h.objects i) { parent_id = none; links = 0 }) h

  unfoldable pub remove_entry : ℕ → ℕ → Bytes → EntryKind → Heap K → ℤ × Heap K
  unfolding detach can_remove node_from_map
  remove_entry nodes up name kind h = elim (h.objects up).kind [
    | regular fd ↦ (minus_one, h)
    | directory entries fd ↦ elim (lookup name entries) [
      | none ↦ (minus_one, h)
      | some id ↦ elim (node_from_map h nodes id) [
        | none ↦ (minus_one, set_entries up (remove name entries) fd h)
        | some node ↦
            if can_remove (h.objects node).kind kind
            then (
              pos 0,
              set_member nodes id false (detach node (set_entries up (remove name entries) fd h)),
            )
            else (minus_one, h)
      ]
    ]
  ]

  unfoldable pub remove_node_at : FilePath → ℕ → ℕ → EntryKind → Heap K → ℤ × Heap K
  remove_node_at path nodes root kind h =
      if path_eq path root_path
      then (minus_one, h)
      else (elim (resolve_parent_from_root h path nodes root) [
        | none ↦ (minus_one, h)
        | some (up, name) ↦ remove_entry nodes up name kind h
      ])
