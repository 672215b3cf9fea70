-- ===== src/Memory/Create/Laws.antt =====
-- A created node: the tree stays a tree, the new path leads to the new node and no other changes.
use sandbox_vfs.Base.{
  ℕ, ◌+◌, ◌^◌, ◌<◌, ◌≡◌, ◌≤◌, refl, sym, subst, true, Option, none, some, arith, Bytes, ℤ, ◌==◌,
  if◌then◌else◌, Option-cases, inl, inr, ◌∷◌,
}
use sandbox_vfs.FilePath.{FilePath}
use sandbox_vfs.Filesystem.{EntryKind}
use sandbox_vfs.Entries.{Entries, lookup, insert}
use sandbox_vfs.Memory.{
  Kernel, directory, Heap, MemoryFs, bump_node_id, resolve, resolve_parent,
  resolve_parent_from_root,
}
use sandbox_vfs.Memory.Create.{create_node_in_dir, create_node}
use sandbox_vfs.Memory.Tree.{IsValid, IsTree-next}
use sandbox_vfs.Memory.Tree.Insert.{IsTree-insert, entry_insert}
use sandbox_vfs.Memory.Tree.Locate.{Trail, trail_eq, locate, locate-live}
use sandbox_vfs.Memory.Tree.Paths.{locate-insert}
use sandbox_vfs.FilePath.Normal.{trail}
use sandbox_vfs.Memory.Paths.{resolve-locate, resolve_parent-locate}
use sandbox_vfs.Memory.Create.Cases.{
  entry_of_directory, new_kind-empty, objects-new_kind, maps-new_kind, next-new_kind, backed,
  new_node, created_heap, create_cases,
}

-- What a path leads to after a node was made at `made`, or was not.
abbrev pub lookup_created : Option ℕ → Trail → Trail → Option ℕ → Option ℕ
lookup_created none made p before = before
lookup_created (some id) made p before = if trail_eq p made then some id else before

module _ {K : Type 0} (os : Kernel K) (fs : MemoryFs) (h : Heap K) (valid : IsValid fs h)
    (room : h.next_node_id + 1 < 2 ^ 64) (up : ℕ) (name : Bytes) (kind : EntryKind) (mode : ℕ) where
  module _ (up_old : up < h.next_node_id) (entries : Entries) (fd : ℤ) where
    abbrev made : Heap K
    made = created_heap os up fs.nodes name kind mode h entries fd

    objects-made :
        (j : ℕ)
        → made.objects j ≡ (
            if up == j
            then record (h.objects up) { kind = directory (insert name h.next_node_id entries) fd }
            else if h.next_node_id == j
            then new_node os up fs.nodes name kind mode h
            else h.objects j)
    objects-made j = ground (arith, objects-new_kind os kind (bump_node_id h))

    maps-made :
        (j : ℕ) → made.maps fs.nodes j ≡ (if h.next_node_id == j then true else h.maps fs.nodes j)
    maps-made j = ground (arith, maps-new_kind os kind (bump_node_id h))

    next-made : made.next_node_id ≡ h.next_node_id + 1
    next-made = ground (arith, next-new_kind os kind (bump_node_id h))

    module _ (is_dir : (h.objects up).kind ≡ directory entries fd)
        (free : lookup name entries ≡ none) where
      made-IsValid : IsValid fs made
      made-IsValid =
          IsTree-insert valid up made.next_node_id name entries fd
            (new_node os up fs.nodes name kind mode h) up_old (omega (arith, next-made)) is_dir free
            refl refl (new_kind-empty os kind (bump_node_id h)) objects-made maps-made

      locate-made :
          (q : Trail)
          → locate h.objects (h.maps fs.nodes) fs.root q ≡ some up
          → (p : Trail)
          → locate made.objects (made.maps fs.nodes) fs.root p
            ≡ lookup_created
                (some h.next_node_id)
                (name ∷ q)
                p
                (locate h.objects (h.maps fs.nodes) fs.root p)
      locate-made q found =
          locate-insert h.objects made.objects (h.maps fs.nodes) (made.maps fs.nodes) h.next_node_id
            fs.root valid up name q found
            (ground (arith, is_dir, entry_of_directory (h.objects up).kind name entries fd is_dir))
            (entry_insert valid up made.next_node_id name entries fd
              (new_node os up fs.nodes name kind mode h) up_old (omega (arith, next-made)) is_dir
              free refl refl (new_kind-empty os kind (bump_node_id h)) objects-made maps-made)
            maps-made

  -- Only the number of the next node changes when the kernel has no descriptor left.
  failed-IsValid : IsValid fs (backed os up fs.nodes name kind mode h).1
  failed-IsValid =
      let b = bump_node_id h in
      rw (objects-new_kind os kind b, maps-new_kind os kind b, next-new_kind os kind b)
        (IsTree-next valid (omega arith))

  -- A create keeps the tree, also in a directory that is no longer in it.
  pub create_node_in_dir-IsValid :
      up < h.next_node_id → IsValid fs (create_node_in_dir os up fs.nodes name kind mode h).1
  create_node_in_dir-IsValid up_old =
      create_cases os up fs.nodes name kind mode h (λ r. IsValid fs r.1) valid failed-IsValid
        (λ es fd is_dir free. made-IsValid up_old es fd is_dir free)

  -- The new node is found under its path, and every other path leads where it led.
  pub create_node_in_dir-locate :
      (q p : Trail)
      → locate h.objects (h.maps fs.nodes) fs.root q ≡ some up
      → let r = create_node_in_dir os up fs.nodes name kind mode h in
        locate r.1.objects (r.1.maps fs.nodes) fs.root p
        ≡ lookup_created r.0 (name ∷ q) p (locate h.objects (h.maps fs.nodes) fs.root p)
  create_node_in_dir-locate q p found =
      create_cases os up fs.nodes name kind mode h
        (λ r.
          locate r.1.objects (r.1.maps fs.nodes) fs.root p
          ≡ lookup_created r.0 (name ∷ q) p (locate h.objects (h.maps fs.nodes) fs.root p))
        refl (let b = bump_node_id h in rw (objects-new_kind os kind b, maps-new_kind os kind b))
        (λ es fd is_dir free.
          locate-made (valid.fresh up (locate-live valid q up found)) es fd is_dir free q found p)

module _ {K : Type 0} (os : Kernel K) (fs : MemoryFs) (h : Heap K) (path : FilePath)
    (kind : EntryKind) (mode : ℕ) (valid : IsValid fs h) (room : h.next_node_id + 1 < 2 ^ 64) where
  abbrev made_at : Option ℕ × Heap K
  made_at = create_node os fs path kind mode h

  pub create_node_cases :
      (P : Option ℕ × Heap K → Type 0)
      → P (none, h)
      → ((up : ℕ) (name : Bytes) (q : Trail)
          → trail path ≡ name ∷ q
          → locate h.objects (h.maps fs.nodes) fs.root q ≡ some up
          → P (create_node_in_dir os up fs.nodes name kind mode h))
      → P made_at
  create_node_cases P missing found = elim (Option-cases (resolve_parent fs h path)) [
    | inl e ↦ subst P (sym (to_missing e)) missing
    | inr ((up, name), e) ↦
        let (q, named, at) =
          resolve_parent-locate h fs.nodes fs.root up name path valid.root_live
            (from_fs up name e) in
        subst P (sym (to_found up name e)) (found up name q named at)
  ]
    where
      to_missing : resolve_parent fs h path ≡ none → made_at ≡ (none, h)
      to_missing e = unfold create_node in ground (arith, e)

      to_found :
          (up : ℕ) (name : Bytes)
          → resolve_parent fs h path ≡ some (up, name)
          → made_at ≡ create_node_in_dir os up fs.nodes name kind mode h
      to_found up name e = unfold create_node in ground (arith, e)

      from_fs :
          (up : ℕ) (name : Bytes)
          → resolve_parent fs h path ≡ some (up, name)
          → resolve_parent_from_root h path fs.nodes fs.root ≡ some (up, name)
      from_fs up name e = unfold resolve_parent in e

  -- Making a node at any path of a well-formed file system, with a node number to spare, keeps its
  -- tree.
  pub create_node-IsValid : IsValid fs made_at.1
  create_node-IsValid =
      create_node_cases (λ r. IsValid fs r.1) valid
        (λ up name q named at.
          create_node_in_dir-IsValid os fs h valid room up name kind mode
            (valid.fresh up (locate-live valid q up at)))

  pub create_node-locate :
      (t : Trail)
      → locate made_at.1.objects (made_at.1.maps fs.nodes) fs.root t
        ≡ lookup_created made_at.0 (trail path) t (locate h.objects (h.maps fs.nodes) fs.root t)
  create_node-locate t =
      create_node_cases
        (λ r.
          locate r.1.objects (r.1.maps fs.nodes) fs.root t
          ≡ lookup_created r.0 (trail path) t (locate h.objects (h.maps fs.nodes) fs.root t))
        refl
        (λ up name q named at.
          rw named (create_node_in_dir-locate os fs h valid room up name kind mode q t at))

  -- The number of the next node grows by one at most.
  pub next-create_node : made_at.1.next_node_id ≤ h.next_node_id + 1
  next-create_node =
      create_node_cases (λ r. r.1.next_node_id ≤ h.next_node_id + 1) (omega arith)
        (λ up name q named at.
          create_cases os up fs.nodes name kind mode h (λ r. r.1.next_node_id ≤ h.next_node_id + 1)
            (omega arith) (omega (arith, next-new_kind os kind (bump_node_id h)))
            (λ es fd is_dir free. omega (arith, next-new_kind os kind (bump_node_id h))))

  -- In a well-formed file system with a node number to spare: if a node was made then its path
  -- leads to it and every other path leads where it led before; if none was made then no path has
  -- changed.
  pub create_node-resolve :
      (p : FilePath)
      → resolve fs made_at.1 p ≡ lookup_created made_at.0 (trail path) (trail p) (resolve fs h p)
  create_node-resolve p =
      rw
        (
          resolve-locate fs made_at.1 p create_node-IsValid.root_live,
          resolve-locate fs h p valid.root_live,
        )
        (create_node-locate (trail p))
