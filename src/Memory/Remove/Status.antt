-- ===== src/Memory/Remove/Status.antt =====
-- When `unlink` and `rmdir` succeed, and what a handle on the removed node sees.
use sandbox_vfs.Base.{
  ℕ, ◌≡◌, ◌≢◌, ◌↔◌, refl, sym, subst, ap, ◌∙◌, true, false, none, some, [], ◌∷◌, arith, Bytes, ℤ,
  pos, Bool-cases, Option-cases, inl, inr,
}
use mathlib.Core.Option.{some-injective}
use sandbox_vfs.FilePath.{FilePath, root_path, path_eq, file_name}
use sandbox_vfs.FilePath.Laws.{path_eq_iff}
use sandbox_vfs.Filesystem.{EntryKind, file, dir}
use sandbox_vfs.Entries.{is_empty}
use sandbox_vfs.Memory.{Kernel, NodeKind, regular, directory, Heap, MemoryFs, entry_of, resolve}
use sandbox_vfs.Memory.Remove.{detach, can_remove, remove_entry}
use sandbox_vfs.Memory.Remove.Cases.{removed_heap, removed_object, to_removed}
use sandbox_vfs.Memory.Remove.Laws.{removal, removal_cases, to_entry}
use sandbox_vfs.Memory.Create.Cases.{NodeKind-cases, entry_of_directory}
use sandbox_vfs.Memory.Inspect.{stat_node}
use sandbox_vfs.Memory.Tree.{IsValid}
use sandbox_vfs.Memory.Tree.Locate.{locate, locate-live, locate-cons}
use sandbox_vfs.Memory.Paths.{resolve-locate, resolve_parent_of_name}

-- A regular file for `unlink`, a directory without entries for `rmdir`.
abbrev pub IsRightKind : EntryKind → NodeKind → Type 0
IsRightKind file k = (fd : ℤ) × (k ≡ regular fd)
IsRightKind dir k = (fd : ℤ) × (k ≡ directory [] fd)

can_remove-IsRightKind :
    (k : NodeKind) (kind : EntryKind) → (can_remove k kind ≡ true) ↔ IsRightKind kind k
unfolding can_remove is_empty
can_remove-IsRightKind (regular fd) file = (λ e. (fd, refl), λ r. refl)
can_remove-IsRightKind (regular fd) dir = (λ e. absurd (cc), λ (d, e). absurd (cc))
can_remove-IsRightKind (directory es fd) file = (λ e. absurd (cc), λ (d, e). absurd (cc))
can_remove-IsRightKind (directory [] fd) dir = (λ e. (fd, refl), λ r. refl)
can_remove-IsRightKind (directory (x ∷ es) fd) dir = (λ e. absurd (cc), λ (d, e). absurd (cc))

-- The path ends in a name and leads to a node of the right kind.
abbrev pub Removable : {K : Type 0} → MemoryFs → Heap K → FilePath → EntryKind → ℕ → Type 0
Removable fs h path kind id =
    (file_name path ≢ none) × (resolve fs h path ≡ some id) × IsRightKind kind (h.objects id).kind

-- `stat` of a node that has just been detached.
stat-detached :
    {K : Type 0} (os : Kernel K) (id nodes : ℕ) (h h' : Heap K)
    → h'.kernel ≡ h.kernel
    → h'.objects id ≡ record (h.objects id) { parent_id = none; links = 0 }
    → stat_node os id nodes h' ≡ record (stat_node os id nodes h) { st_nlink = 0 }
unfolding stat_node
stat-detached os id nodes h h' k e = ground (arith, k, e)

root_has_no_name : (name : Bytes) → file_name root_path ≢ some name
unfolding file_name
root_has_no_name name e = cc

module _ {K : Type 0} (fs : MemoryFs) (h : Heap K) (path : FilePath) (kind : EntryKind)
    (valid : IsValid fs h) where
  is_Removable : (removal fs h path kind valid).0 ≡ pos 0 → (id : ℕ) × Removable fs h path kind id
  is_Removable =
      removal_cases fs h path kind valid (λ r. r.0 ≡ pos 0 → (id : ℕ) × Removable fs h path kind id)
        (λ e. absurd (cc))
        (λ up name q es fd id last named found is_dir lists ok _.
          let listed = entry_of_directory (h.objects up).kind name es fd is_dir ∙ lists in
          (
            id,
            (
              λ e. cc (last, e),
              resolve-locate fs h path valid.root_live
                  ∙ ap (locate h.objects (h.maps fs.nodes) fs.root) named
                  ∙ locate-cons valid name q up id found listed,
              (can_remove-IsRightKind (h.objects id).kind kind).0 ok,
            ),
          ))

  not_root : (name : Bytes) → file_name path ≡ some name → path_eq path root_path ≡ false
  not_root name last = elim (Bool-cases (path_eq path root_path)) [
    | inr e ↦ e
    | inl e ↦ absurd (
        root_has_no_name name
          (subst (λ p. file_name p ≡ some name) ((path_eq_iff path root_path).0 e) last))
  ]

  entry_removed :
      (up id : ℕ) (name : Bytes)
      → h.maps fs.nodes up ≡ true
      → entry_of (h.objects up).kind name ≡ some id
      → can_remove (h.objects id).kind kind ≡ true
      → (remove_entry fs.nodes up name kind h).0 ≡ pos 0
  entry_removed up id name up_live lists ok = elim (NodeKind-cases (h.objects up).kind) [
    | inl (fd, e) ↦ absurd (unfold entry_of in ground (arith, e))
    | inr (es, fd, e) ↦
        ap (λ r. r.0)
          (to_removed fs h valid up name kind up_live es fd e id
            (sym (entry_of_directory (h.objects up).kind name es fd e) ∙ lists) ok)
  ]

  removes : (id : ℕ) → Removable fs h path kind id → (removal fs h path kind valid).0 ≡ pos 0
  removes id (has_name, found, ok) = elim (Option-cases (file_name path)) [
    | inl e ↦ absurd (has_name e)
    | inr (name, last) ↦
        let (up, e, up_live, lists) =
          resolve_parent_of_name h fs.nodes fs.root id name path valid last
            (sym (resolve-locate fs h path valid.root_live) ∙ found) in
        ap (λ r. r.0) (to_entry fs h path kind valid (not_root name last) up name e)
        ∙ entry_removed up id name up_live lists
            ((can_remove-IsRightKind (h.objects id).kind kind).1 ok)
  ]

  -- In a well-formed file system the status is 0 exactly when the path ends in a name and leads to
  -- a node of the right kind: a regular file for `unlink`, an empty directory for `rmdir`.
  pub remove_node_at_status :
      ((removal fs h path kind valid).0 ≡ pos 0) ↔ ((id : ℕ) × Removable fs h path kind id)
  remove_node_at_status = (is_Removable, λ (id, r). removes id r)

  -- After the removal, with status 0, of the node that a path of a well-formed file system led to,
  -- a handle on the node still has its number, its mode, its type and its contents, and counts no
  -- links.
  pub stat-removed :
      (os : Kernel K) (id : ℕ)
      → resolve fs h path ≡ some id
      → (removal fs h path kind valid).0 ≡ pos 0
      → stat_node os id fs.nodes (removal fs h path kind valid).1
        ≡ record (stat_node os id fs.nodes h) { st_nlink = 0 }
  stat-removed os id found =
      removal_cases fs h path kind valid
        (λ r.
          r.0 ≡ pos 0
          → stat_node os id fs.nodes r.1 ≡ record (stat_node os id fs.nodes h) { st_nlink = 0 })
        (λ e. absurd (cc))
        (λ up name q es fd i last named at is_dir lists ok _.
          let listed = entry_of_directory (h.objects up).kind name es fd is_dir ∙ lists in
          let same : i ≡ id = some-injective i id (
            sym (locate-cons valid name q up i at listed)
            ∙ sym (ap (locate h.objects (h.maps fs.nodes) fs.root) named)
            ∙ sym (resolve-locate fs h path valid.root_live)
            ∙ found) in
          let up_live = locate-live valid q up at in
          let h' = removed_heap fs h valid up name kind up_live es fd i in
          stat-detached os id fs.nodes h h' (unfold detach in refl) (
            subst (λ k. h'.objects k ≡ record (h.objects k) { parent_id = none; links = 0 }) same
              (removed_object fs h valid up name kind up_live es fd is_dir i lists ok)))
