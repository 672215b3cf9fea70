-- ===== src/Memory/Drop/Creates.antt =====
-- `mkdir` and the creating half of `open`, by path or through a handle, of src/impls/memory.rs: the
-- files behind the nodes and the tree.
use sandbox_vfs.Base.{
  ℕ, ℤ, ◌+◌, ◌^◌, ◌<◌, ◌≡◌, ◌⊎◌, subst, Bool, true, Option, none, some, List, [], ◌∷◌, Bytes, arith,
  Bool-cases, Option-cases, inl, inr,
}
use mathlib.Core.Option.{some-injective}
use sandbox_vfs.FilePath.{
  FilePath, root_dir, cur_dir, parent_dir, normal, is_absolute, parent, file_name,
}
use sandbox_vfs.Filesystem.{EntryKind}
use sandbox_vfs.Memory.{
  Kernel, Heap, MemoryFs, child, node_from_map, walk_relative, resolve_relative,
}
use sandbox_vfs.Memory.Create.{create_node, create_node_in_dir, create_relative_node}
use sandbox_vfs.Memory.Create.Laws.{create_node_cases, create_node_in_dir-IsValid}
use sandbox_vfs.Memory.Drop.{is_held, is_owned}
use sandbox_vfs.Memory.Drop.Backed.{HasDescriptors}
use sandbox_vfs.Memory.Drop.Makes.{Makes, nothing_made, create_node_in_dir-Makes}
use sandbox_vfs.Memory.Drop.Steps.{Backed}
use sandbox_vfs.Memory.Rename.Cases.{ends}
use sandbox_vfs.Memory.Tree.{IsValid}
use sandbox_vfs.Memory.Tree.Locate.{locate-live}

child-live :
    {K : Type 0} (h : Heap K) (nodes i j : ℕ) (name : Bytes)
    → child h nodes i name ≡ some j
    → h.maps nodes j ≡ true
unfolding child node_from_map
child-live h nodes i j name e = ground arith

found_in_map :
    {K : Type 0} (h : Heap K) (nodes i j : ℕ)
    → node_from_map h nodes i ≡ some j
    → h.maps nodes j ≡ true
unfolding node_from_map
found_in_map h nodes i j e = ground arith

at_or_in : (live : ℕ → Bool) (i j : ℕ) → live i ≡ true → (i ≡ j) ⊎ (live j ≡ true) → live j ≡ true
at_or_in live i j l (inl e) = subst (λ n. live n ≡ true) e l
at_or_in live i j l (inr m) = m

-- A walk from a node ends at it or in the map.
walk_relative-live :
    {K : Type 0} (h : Heap K) (nodes i j : ℕ) (p : FilePath)
    → walk_relative h nodes i p ≡ some j
    → (i ≡ j) ⊎ (h.maps nodes j ≡ true)
unfolding walk_relative
walk_relative-live h nodes i j [] e = inl (some-injective i j e)
walk_relative-live h nodes i j (root_dir ∷ p) e = absurd (ground arith)
walk_relative-live h nodes i j (cur_dir ∷ p) e = walk_relative-live h nodes i j p e
walk_relative-live h nodes i j (normal name ∷ p) e = elim (Option-cases (child h nodes i name)) [
  | inl f ↦ absurd (ground (arith, f))
  | inr (next, f) ↦ inr (
      at_or_in (h.maps nodes) next j (child-live h nodes i next name f)
        (walk_relative-live h nodes next j p (ground (arith, f))))
]
walk_relative-live h nodes i j (parent_dir ∷ p) e = elim (Option-cases (h.objects i).parent_id) [
  | inl f ↦ absurd (ground (arith, f))
  | inr (up, f) ↦ elim (Option-cases (node_from_map h nodes up)) [
    | inl g ↦ absurd (ground (arith, f, g))
    | inr (next, g) ↦ inr (
        at_or_in (h.maps nodes) next j (found_in_map h nodes up next g)
          (walk_relative-live h nodes next j p (ground (arith, f, g))))
  ]
]

module _ {K : Type 0} {os : Kernel K} {IsOpen : K → ℤ → Type 0} (table : HasDescriptors os IsOpen)
    (fs : MemoryFs) (handles : List ℕ) (h : Heap K) (b : Backed table fs (handles, h))
    (valid : IsValid fs h) (room : h.next_node_id + 1 < 2 ^ 64) where
  -- A create is fine for the files, and leaves a tree.
  abbrev pub Creates : Option ℕ × Heap K → Type 0
  Creates r = Makes table fs handles h b room r × IsValid fs r.1

  pub nothing_created : Creates (none, h)
  nothing_created = (nothing_made table fs handles h b room, valid)

  created_in :
      (up : ℕ) (name : Bytes) (kind : EntryKind) (mode : ℕ)
      → up < h.next_node_id
      → Creates (create_node_in_dir os up fs.nodes name kind mode h)
  created_in up name kind mode old = (
    create_node_in_dir-Makes table fs handles h b room up name kind mode old,
    create_node_in_dir-IsValid os fs h valid room up name kind mode old,
  )

  pub create_node-Creates :
      (path : FilePath) (kind : EntryKind) (mode : ℕ) → Creates (create_node os fs path kind mode h)
  create_node-Creates path kind mode =
      create_node_cases os fs h path kind mode valid room Creates nothing_created
        (λ up name q named at.
          created_in up name kind mode (valid.fresh up (locate-live valid q up at)))

  pub resolved_owned :
      (start up : ℕ) (path : FilePath)
      → is_held handles start ≡ true
      → resolve_relative h start fs.nodes path ≡ some up
      → is_owned os fs handles h up ≡ true
  unfolding resolve_relative is_owned
  resolved_owned start up path held e =
      elim (walk_relative-live h fs.nodes start up path (ground arith)) [
        | inl same ↦ ground (arith, same)
        | inr live ↦ ground (arith, live)
      ]

  pub create_relative_node-Creates :
      (start : ℕ) (path : FilePath) (kind : EntryKind) (mode : ℕ)
      → is_held handles start ≡ true
      → Creates (create_relative_node os start fs.nodes path kind mode h)
  create_relative_node-Creates start path kind mode held = elim (Bool-cases (is_absolute path)) [
    | inl a ↦
        ends Creates (none, h) result nothing_created (unfold create_relative_node in ground arith)
    | inr a ↦ elim (Option-cases (parent path)) [
      | inl e ↦
          ends Creates (none, h) result nothing_created
            (unfold create_relative_node in ground arith)
      | inr (up_path, e) ↦ elim (Option-cases (file_name path)) [
        | inl f ↦
            ends Creates (none, h) result nothing_created
              (unfold create_relative_node in ground arith)
        | inr (name, f) ↦ elim (Option-cases (resolve_relative h start fs.nodes up_path)) [
          | inl g ↦
              ends Creates (none, h) result nothing_created
                (unfold create_relative_node in ground arith)
          | inr (up, g) ↦
              ends Creates (create_node_in_dir os up fs.nodes name kind mode h) result
                (created_in up name kind mode
                  (b.numbered up (resolved_owned start up up_path held g)))
                (unfold create_relative_node in ground arith)
        ]
      ]
    ]
  ]
    where
      result : Option ℕ × Heap K
      result = create_relative_node os start fs.nodes path kind mode h
