-- ===== src/Memory/Create/Cases.antt =====
-- How `create_node_in_dir` ends: refused, without a descriptor, or with the new node.
use sandbox_vfs.Base.{
  ℕ, ◌≡◌, refl, sym, subst, true, false, Option, none, some, arith, Bytes, ℤ, is_negative, bit_and,
  Bool-cases, Option-cases, inl, inr, ◌⊎◌,
}
use sandbox_vfs.Filesystem.{EntryKind}
use sandbox_vfs.Entries.{Entries, lookup, insert, lookup-nil}
use sandbox_vfs.Memory.{
  Kernel, NodeKind, regular, directory, Node, Heap, backing_fd, entry_of, put_node, set_entries,
  set_member, bump_node_id,
}
use sandbox_vfs.Memory.Create.{new_kind, create_node_in_dir}

pub NodeKind-cases :
    (k : NodeKind)
    → ((fd : ℤ) × (k ≡ regular fd)) ⊎ ((es : Entries) × (fd : ℤ) × (k ≡ directory es fd))
NodeKind-cases (regular fd) = inl (fd, refl)
NodeKind-cases (directory es fd) = inr (es, fd, refl)

pub entry_of_directory :
    (k : NodeKind) (name : Bytes) (es : Entries) (fd : ℤ)
    → k ≡ directory es fd
    → entry_of k name ≡ lookup name es
unfolding entry_of
entry_of_directory k name es fd e = ground (arith, e)

module _ {K : Type 0} (os : Kernel K) (kind : EntryKind) (h : Heap K) where
  -- The new backing is empty, and only the kernel's state changes.
  pub new_kind-empty : (n : Bytes) → entry_of (new_kind os kind h).0 n ≡ none
  unfolding new_kind entry_of
  new_kind-empty n = ground (arith, lookup-nil n)

  pub objects-new_kind : (new_kind os kind h).1.objects ≡ h.objects
  unfolding new_kind
  objects-new_kind = ground arith

  pub maps-new_kind : (new_kind os kind h).1.maps ≡ h.maps
  unfolding new_kind
  maps-new_kind = ground arith

  pub next-new_kind : (new_kind os kind h).1.next_node_id ≡ h.next_node_id
  unfolding new_kind
  next-new_kind = ground arith

module _ {K : Type 0} (os : Kernel K) (up nodes : ℕ) (name : Bytes) (kind : EntryKind) (mode : ℕ)
    (h : Heap K) where
  abbrev pub backed : NodeKind × Heap K
  backed = new_kind os kind (bump_node_id h)

  abbrev pub new_node : Node
  new_node = record { parent_id = some up; mode = bit_and mode 0o7777; links = 1; kind = backed.0 }

  abbrev pub created_heap : Entries → ℤ → Heap K
  created_heap entries fd =
      set_entries up (insert name h.next_node_id entries) fd
        (set_member nodes h.next_node_id true (put_node h.next_node_id new_node backed.1))

  abbrev pub result : Option ℕ × Heap K
  result = create_node_in_dir os up nodes name kind mode h

  to_regular : (fd : ℤ) → (h.objects up).kind ≡ regular fd → result ≡ (none, h)
  unfolding create_node_in_dir
  to_regular fd e = ground (arith, e)

  module _ (entries : Entries) (fd : ℤ) (is_dir : (h.objects up).kind ≡ directory entries fd) where
    to_taken : (i : ℕ) → lookup name entries ≡ some i → result ≡ (none, h)
    unfolding create_node_in_dir
    to_taken i e = ground (arith, e)

    to_failed :
        lookup name entries ≡ none
        → is_negative (backing_fd backed.0) ≡ true
        → result ≡ (none, backed.1)
    unfolding create_node_in_dir
    to_failed e b = ground (arith, e, b)

    to_created :
        lookup name entries ≡ none
        → is_negative (backing_fd backed.0) ≡ false
        → result ≡ (some h.next_node_id, created_heap entries fd)
    unfolding create_node_in_dir
    to_created e b = ground (arith, e, b)

  -- Refused, out of descriptors, or created on a new file.
  pub backed_cases :
      (P : Option ℕ × Heap K → Type 0)
      → P (none, h)
      → P (none, backed.1)
      → ((entries : Entries) (fd : ℤ)
          → (h.objects up).kind ≡ directory entries fd
          → lookup name entries ≡ none
          → is_negative (backing_fd backed.0) ≡ false
          → P (some h.next_node_id, created_heap entries fd))
      → P result
  backed_cases P refused failed created = elim (NodeKind-cases (h.objects up).kind) [
    | inl (fd, e) ↦ subst P (sym (to_regular fd e)) refused
    | inr (es, fd, e) ↦ elim (Option-cases (lookup name es)) [
      | inr (i, f) ↦ subst P (sym (to_taken es fd e i f)) refused
      | inl f ↦ elim (Bool-cases (is_negative (backing_fd backed.0))) [
        | inl b ↦ subst P (sym (to_failed es fd e f b)) failed
        | inr b ↦ subst P (sym (to_created es fd e f b)) (created es fd e f b)
      ]
    ]
  ]

  pub create_cases :
      (P : Option ℕ × Heap K → Type 0)
      → P (none, h)
      → P (none, backed.1)
      → ((entries : Entries) (fd : ℤ)
          → (h.objects up).kind ≡ directory entries fd
          → lookup name entries ≡ none
          → P (some h.next_node_id, created_heap entries fd))
      → P result
  create_cases P refused failed created =
      backed_cases P refused failed (λ es fd e f _. created es fd e f)
