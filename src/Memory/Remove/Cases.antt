-- ===== src/Memory/Remove/Cases.antt =====
-- How `remove_entry` ends in a valid file system: refused, or with the node removed.
use sandbox_vfs.Base.{
  ℕ, ◌≡◌, refl, sym, subst, ◌∙◌, true, false, none, some, arith, Bytes, ◌∷◌, ℤ, pos, minus_one,
  ◌==◌, if◌then◌else◌, Bool-cases, Option-cases, inl, inr,
}
use sandbox_vfs.Filesystem.{EntryKind, file, dir}
use sandbox_vfs.Entries.{Entries, lookup, remove, lookup-is_empty}
use sandbox_vfs.Memory.{
  NodeKind, regular, directory, Heap, MemoryFs, entry_of, set_entries, set_member,
}
use sandbox_vfs.Memory.Remove.{can_remove, detach, remove_entry}
use sandbox_vfs.Memory.Tree.{IsValid}
use sandbox_vfs.Memory.Tree.Remove.{IsTree-remove, entry_remove}
use sandbox_vfs.Memory.Tree.Locate.{Trail, trail_eq, locate}
use sandbox_vfs.Memory.Tree.Paths.{locate-remove}
use sandbox_vfs.Memory.Create.Cases.{NodeKind-cases, entry_of_directory}

can_remove-empty :
    (k : NodeKind) (kind : EntryKind) (n : Bytes) → can_remove k kind ≡ true → entry_of k n ≡ none
unfolding can_remove entry_of
can_remove-empty (regular fd) kind n h = refl
can_remove-empty (directory es fd) file n h = cc
can_remove-empty (directory es fd) dir n h = lookup-is_empty n es h

module _ {K : Type 0} (fs : MemoryFs) (h : Heap K) (valid : IsValid fs h) (up : ℕ) (name : Bytes)
    (kind : EntryKind) (up_live : h.maps fs.nodes up ≡ true) where
  abbrev pub removed_heap : Entries → ℤ → ℕ → Heap K
  removed_heap entries fd id =
      set_member fs.nodes id false (detach id (set_entries up (remove name entries) fd h))

  abbrev pub result : ℤ × Heap K
  result = remove_entry fs.nodes up name kind h

  to_regular : (fd : ℤ) → (h.objects up).kind ≡ regular fd → result ≡ (minus_one, h)
  unfolding remove_entry
  to_regular fd e = ground (arith, e)

  module _ (entries : Entries) (fd : ℤ) (is_dir : (h.objects up).kind ≡ directory entries fd) where
    to_missing : lookup name entries ≡ none → result ≡ (minus_one, h)
    unfolding remove_entry
    to_missing e = ground (arith, is_dir)

    module _ (id : ℕ) (named : lookup name entries ≡ some id) where
      pub entry_up : entry_of (h.objects up).kind name ≡ some id
      entry_up = entry_of_directory (h.objects up).kind name entries fd is_dir ∙ named

      pub id_live : h.maps fs.nodes id ≡ true
      id_live = valid.child_live up name id up_live entry_up

      to_kept : can_remove (h.objects id).kind kind ≡ false → result ≡ (minus_one, h)
      unfolding remove_entry
      to_kept e = ground (arith, is_dir, id_live)

      pub to_removed :
          can_remove (h.objects id).kind kind ≡ true → result ≡ (pos 0, removed_heap entries fd id)
      unfolding remove_entry
      to_removed e = ground (arith, is_dir, id_live)

      module _ (ok : can_remove (h.objects id).kind kind ≡ true) where
        id_empty : (n : Bytes) → entry_of (h.objects id).kind n ≡ none
        id_empty n = can_remove-empty (h.objects id).kind kind n ok

        pub objects-removed :
            (j : ℕ)
            → (removed_heap entries fd id).objects j ≡ (
                if id == j
                then record (h.objects id) { parent_id = none; links = 0 }
                else if up == j
                then record (h.objects up) { kind = directory (remove name entries) fd }
                else h.objects j)
        unfolding detach
        objects-removed j = ground (arith, entry_up, id_empty name)

        pub removed_object :
            (removed_heap entries fd id).objects id
            ≡ record (h.objects id) { parent_id = none; links = 0 }
        removed_object = ground (arith, objects-removed id)

        maps-removed :
            (j : ℕ)
            → (removed_heap entries fd id).maps fs.nodes j
              ≡ (if id == j then false else h.maps fs.nodes j)
        unfolding detach
        maps-removed j = ground arith

        next-removed : (removed_heap entries fd id).next_node_id ≡ h.next_node_id
        unfolding detach
        next-removed = refl

        pub removed-IsValid : IsValid fs (removed_heap entries fd id)
        removed-IsValid = rw next-removed (
            IsTree-remove valid up id name entries fd up_live is_dir named id_empty objects-removed
              maps-removed)

        pub locate-removed :
            (q p : Trail)
            → locate h.objects (h.maps fs.nodes) fs.root q ≡ some up
            → locate
                (removed_heap entries fd id).objects
                ((removed_heap entries fd id).maps fs.nodes)
                fs.root
                p
              ≡ (if trail_eq p (name ∷ q)
                  then none
                  else locate h.objects (h.maps fs.nodes) fs.root p)
        locate-removed q p found =
            locate-remove h.objects _ (h.maps fs.nodes) _ h.next_node_id fs.root valid up id name q
              found entry_up id_empty
              (entry_remove valid up id name entries fd up_live is_dir named id_empty
                objects-removed maps-removed)
              maps-removed p

  -- Refused, or removed.
  pub remove_cases :
      (P : ℤ × Heap K → Type 0)
      → P (minus_one, h)
      → ((entries : Entries) (fd : ℤ) (id : ℕ)
          → (h.objects up).kind ≡ directory entries fd
          → lookup name entries ≡ some id
          → can_remove (h.objects id).kind kind ≡ true
          → P (pos 0, removed_heap entries fd id))
      → P result
  remove_cases P refused removed = elim (NodeKind-cases (h.objects up).kind) [
    | inl (fd, e) ↦ subst P (sym (to_regular fd e)) refused
    | inr (es, fd, e) ↦ elim (Option-cases (lookup name es)) [
      | inl f ↦ subst P (sym (to_missing es fd e f)) refused
      | inr (id, f) ↦ elim (Bool-cases (can_remove (h.objects id).kind kind)) [
        | inl b ↦ subst P (sym (to_removed es fd e id f b)) (removed es fd id e f b)
        | inr b ↦ subst P (sym (to_kept es fd e id f b)) refused
      ]
    ]
  ]
