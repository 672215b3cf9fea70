-- ===== src/Memory/Remove/Laws.antt =====
-- `unlink` and `rmdir` by path: when they succeed, what they change, and what an open handle sees.
use sandbox_vfs.Base.{
  ℕ, ◌≡◌, ◌≢◌, refl, sym, subst, true, false, ◌&&◌, Option, none, some, arith, Bytes, ◌∷◌, ℤ, pos,
  minus_one, int_eq, if◌then◌else◌, Bool-cases, Option-cases, inl, inr,
}
use sandbox_vfs.FilePath.{FilePath, root_path, path_eq, file_name}
use sandbox_vfs.Filesystem.{EntryKind}
use sandbox_vfs.Entries.{Entries, lookup}
use sandbox_vfs.Memory.{directory, Heap, MemoryFs, resolve, resolve_parent_from_root}
use sandbox_vfs.Memory.Remove.{detach, can_remove, remove_entry, remove_node_at}
use sandbox_vfs.Memory.Remove.Cases.{removed_heap, remove_cases, removed-IsValid, locate-removed}
use sandbox_vfs.Memory.Tree.{IsValid}
use sandbox_vfs.Memory.Tree.Locate.{Trail, trail_eq, locate, locate-live}
use sandbox_vfs.FilePath.Normal.{trail}
use sandbox_vfs.Memory.Paths.{resolve-locate, resolve_parent-locate, resolve_parent-file_name}

module _ {K : Type 0} (fs : MemoryFs) (h : Heap K) (path : FilePath) (kind : EntryKind)
    (valid : IsValid fs h) where
  abbrev pub at : Trail → Option ℕ
  at = locate h.objects (h.maps fs.nodes) fs.root

  abbrev pub removal : ℤ × Heap K
  removal = remove_node_at path fs.nodes fs.root kind h

  to_root : path_eq path root_path ≡ true → removal ≡ (minus_one, h)
  unfolding remove_node_at
  to_root e = ground arith

  module _ (below : path_eq path root_path ≡ false) where
    to_missing : resolve_parent_from_root h path fs.nodes fs.root ≡ none → removal ≡ (minus_one, h)
    unfolding remove_node_at
    to_missing e = ground arith

    pub to_entry :
        (up : ℕ) (name : Bytes)
        → resolve_parent_from_root h path fs.nodes fs.root ≡ some (up, name)
        → removal ≡ remove_entry fs.nodes up name kind h
    unfolding remove_node_at
    to_entry up name e = ground arith

  -- The node of the path, and the two results.
  pub removal_cases :
      (P : ℤ × Heap K → Type 0)
      → P (minus_one, h)
      → ((up : ℕ) (name : Bytes) (q : Trail) (entries : Entries) (fd : ℤ) (id : ℕ)
          → file_name path ≡ some name
          → trail path ≡ name ∷ q
          → (found : at q ≡ some up) → (h.objects up).kind ≡ directory entries fd
          → lookup name entries ≡ some id
          → can_remove (h.objects id).kind kind ≡ true
          → P (
            pos 0,
            removed_heap fs h valid up name kind (locate-live valid q up found) entries fd id,
          ))
      → P removal
  removal_cases P refused removed = elim (Bool-cases (path_eq path root_path)) [
    | inl r ↦ subst P (sym (to_root r)) refused
    | inr r ↦ elim (Option-cases (resolve_parent_from_root h path fs.nodes fs.root)) [
      | inl e ↦ subst P (sym (to_missing r e)) refused
      | inr ((up, name), e) ↦
          let (q, named, found) =
            resolve_parent-locate h fs.nodes fs.root up name path valid.root_live e in
          subst P (sym (to_entry r up name e)) (
            remove_cases fs h valid up name kind (locate-live valid q up found) P refused
              (λ es fd id is_dir lists ok.
                removed up name q es fd id
                  (resolve_parent-file_name h fs.nodes fs.root up name path e) named found is_dir
                  lists ok))
    ]
  ]

  -- Unlinking and removing directories keep the tree of a well-formed file system.
  pub remove_node_at-IsValid : IsValid fs removal.1
  remove_node_at-IsValid =
      removal_cases (λ r. IsValid fs r.1) valid
        (λ up name q es fd id last named found is_dir lists ok.
          removed-IsValid fs h valid up name kind (locate-live valid q up found) es fd is_dir id
            lists ok)

  pub remove_node_at-locate :
      (t : Trail)
      → locate removal.1.objects (removal.1.maps fs.nodes) fs.root t
        ≡ (if int_eq removal.0 (pos 0) && trail_eq t (trail path) then none else at t)
  remove_node_at-locate t =
      removal_cases
        (λ r.
          locate r.1.objects (r.1.maps fs.nodes) fs.root t
          ≡ (if int_eq r.0 (pos 0) && trail_eq t (trail path) then none else at t))
        refl
        (λ up name q es fd id last named found is_dir lists ok. rw named (
          locate-removed fs h valid up name kind (locate-live valid q up found) es fd is_dir id
            lists ok q t found))

  pub next-remove_node_at : removal.1.next_node_id ≡ h.next_node_id
  unfolding detach
  next-remove_node_at =
      removal_cases (λ r. r.1.next_node_id ≡ h.next_node_id) refl
        (λ up name q es fd id last named found is_dir lists ok. refl)

  -- In a well-formed file system: after status 0 the path leads nowhere; every other path, or
  -- every path after a failure, leads where it led before.
  pub remove_node_at-resolve :
      (p : FilePath)
      → resolve fs removal.1 p ≡ (
          if int_eq removal.0 (pos 0) && trail_eq (trail p) (trail path)
          then none
          else resolve fs h p)
  remove_node_at-resolve p =
      rw
        (
          resolve-locate fs removal.1 p remove_node_at-IsValid.root_live,
          resolve-locate fs h p valid.root_live,
        )
        (remove_node_at-locate (trail p))

  -- In a well-formed file system a call that fails changes nothing at all.
  pub remove_node_at_failed : removal.0 ≢ pos 0 → removal.1 ≡ h
  remove_node_at_failed =
      removal_cases (λ r. r.0 ≢ pos 0 → r.1 ≡ h) (λ _. refl)
        (λ up name q es fd id last named found is_dir lists ok ne. absurd (ne refl))
