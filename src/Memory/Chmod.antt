-- ===== src/Memory/Chmod.antt =====
-- `chmod` of src/impls/memory.rs: what it sets, and all that it leaves as it is.
use sandbox_vfs.Base.{
  ℕ, ◌≡◌, ◌≢◌, ◌⊎◌, refl, sym, ap, ◌∙◌, Bool, true, none, some, [], ◌∷◌, arith, ℤ, pos, minus_one,
  bit_and, bit_or, returned, Outcome, Option-cases, inl, inr, Bytes,
}
use sandbox_vfs.FilePath.{FilePath, is_absolute}
use sandbox_vfs.FilePath.Normal.{trail}
use sandbox_vfs.Filesystem.{Stat}
use sandbox_vfs.Memory.{
  Kernel, NodeKind, Node, Heap, MemoryFs, entry_of, is_directory, put_node, resolve,
}
use sandbox_vfs.Memory.Backend.{chmod, chmod_node, fchmod_kind, stat}
use sandbox_vfs.Memory.Inspect.{file_type, stat_node}
use sandbox_vfs.Memory.Paths.{resolve-locate}
use sandbox_vfs.Memory.Tree.{IsTree, IsValid}
use sandbox_vfs.Memory.Tree.Locate.{Trail, step, locate}

-- Nodes that differ in their modes only.
pub record SameButModes (objects objects' : ℕ → Node) : Type 0 where
  pub same_kind : (j : ℕ) → (objects' j).kind ≡ (objects j).kind
  same_parent : (j : ℕ) → (objects' j).parent_id ≡ (objects j).parent_id
  same_links : (j : ℕ) → (objects' j).links ≡ (objects j).links

module _ {objects objects' : ℕ → Node} (same : SameButModes objects objects') where
  IsTree-modes :
      {live : ℕ → Bool} {next root : ℕ}
      → IsTree objects live next root
      → IsTree objects' live next root
  IsTree-modes {live} {next} {root} t = record {
    root_live = t.root_live;
    root_is_directory = ap is_directory (same.same_kind root) ∙ t.root_is_directory;
    fresh = t.fresh;
    linked = λ i l. same.same_links i ∙ t.linked i l;
    child_live = λ d n c l e. t.child_live d n c l (lists d n c e);
    child_parent = λ d n c l e. same.same_parent c ∙ t.child_parent d n c l (lists d n c e);
    child-ne-root = λ d n c l e. t.child-ne-root d n c l (lists d n c e);
    one_name = λ d n o c l e f. t.one_name d n o c l (lists d n c e) (lists d o c f);
  }
    where
      lists :
          (d : ℕ) (n : Bytes) (c : ℕ)
          → entry_of (objects' d).kind n ≡ some c
          → entry_of (objects d).kind n ≡ some c
      lists d n c e = ap (λ k. entry_of k n) (sym (same.same_kind d)) ∙ e

  step-modes :
      (live : ℕ → Bool) (d : ℕ) (n : Bytes) → step objects' live d n ≡ step objects live d n
  unfolding step
  step-modes live d n = rw (step, same.same_kind d) refl

  locate-modes :
      (live : ℕ → Bool) (root : ℕ) (p : Trail)
      → locate objects' live root p ≡ locate objects live root p
  unfolding locate
  locate-modes live root [] = refl
  locate-modes live root (n ∷ p) = elim (Option-cases (locate objects live root p)) [
    | inl e ↦ ground (arith, e, locate-modes live root p)
    | inr (d, e) ↦ ground (arith, e, locate-modes live root p, step-modes live d n)
  ]

module _ {K : Type 0} (os : Kernel K) (fs : MemoryFs) (h : Heap K) (path : FilePath) (mode : ℕ)
    (valid : IsValid fs h) where
  -- What a chmod may do.
  abbrev pub Chmods : Outcome (Heap K) ℤ → Type 0
  Chmods r =
      ((i : ℕ) × (h' : Heap K) × (r ≡ returned (pos 0) h')
        × (resolve fs h path ≡ some i)
        × IsValid fs h'
        × ((p : FilePath) → resolve fs h' p ≡ resolve fs h p)
        × ((statbuf : Stat)
            → (st : Stat) × (stat os fs path statbuf h' ≡ returned (pos 0, st) h')
              × (st.st_mode ≡ bit_or (file_type (h.objects i).kind) (bit_and mode 0o7777)))
        × ((j : ℕ) → j ≢ i → h'.objects j ≡ h.objects j))
      ⊎ ((resolve fs h path ≡ none) × (r ≡ returned minus_one h))

  module _ (i : ℕ) (found : resolve fs h path ≡ some i) where
    abbrev node : Node
    node = record (h.objects i) { mode = bit_and mode 0o7777 }

    -- The heap after a chmod.
    abbrev pub with_mode : Heap K
    with_mode = fchmod_kind os fs node.kind mode (put_node i node h)

    changed : is_absolute path ≡ true → chmod os fs path mode h ≡ returned (pos 0) with_mode
    unfolding chmod chmod_node
    changed absolute = ground (arith, absolute, found)

    objects-fchmod : (k : NodeKind) (g : Heap K) → (fchmod_kind os fs k mode g).objects ≡ g.objects
    unfolding fchmod_kind
    objects-fchmod (NodeKind.regular fd) g = refl
    objects-fchmod (NodeKind.directory es fd) g = refl

    pub maps-fchmod : (k : NodeKind) (g : Heap K) → (fchmod_kind os fs k mode g).maps ≡ g.maps
    unfolding fchmod_kind
    maps-fchmod (NodeKind.regular fd) g = refl
    maps-fchmod (NodeKind.directory es fd) g = refl

    pub next-fchmod :
        (k : NodeKind) (g : Heap K) → (fchmod_kind os fs k mode g).next_node_id ≡ g.next_node_id
    unfolding fchmod_kind
    next-fchmod (NodeKind.regular fd) g = refl
    next-fchmod (NodeKind.directory es fd) g = refl

    pub same : SameButModes h.objects with_mode.objects
    same = rw (objects-fchmod node.kind (put_node i node h)) (record {
      same_kind = λ j. ground arith;
      same_parent = λ j. ground arith;
      same_links = λ j. ground arith;
    })

    pub still_valid : IsValid fs with_mode
    still_valid =
        rw (maps-fchmod node.kind (put_node i node h), next-fchmod node.kind (put_node i node h))
          (IsTree-modes same valid)

    same_paths : (p : FilePath) → resolve fs with_mode p ≡ resolve fs h p
    same_paths p =
        resolve-locate fs with_mode p still_valid.root_live
        ∙ locate-modes same (with_mode.maps fs.nodes) fs.root (trail p)
        ∙ ap (λ m. locate h.objects (m fs.nodes) fs.root (trail p))
            (maps-fchmod node.kind (put_node i node h))
        ∙ sym (resolve-locate fs h p valid.root_live)

    set_node : with_mode.objects i ≡ node
    set_node = rw (objects-fchmod node.kind (put_node i node h)) (ground arith)

    mode_set :
        (stat_node os i fs.nodes with_mode).st_mode
        ≡ bit_or (file_type (h.objects i).kind) (bit_and mode 0o7777)
    unfolding stat_node
    mode_set = ap (λ n. bit_or (file_type n.kind) n.mode) set_node

    stat_set :
        is_absolute path ≡ true
        → (statbuf : Stat)
        → stat os fs path statbuf with_mode
          ≡ returned (pos 0, stat_node os i fs.nodes with_mode) with_mode
    unfolding stat
    stat_set absolute statbuf = let e = same_paths path ∙ found in ground (arith, absolute, e)

    other_nodes : (j : ℕ) → j ≢ i → with_mode.objects j ≡ h.objects j
    other_nodes j ne = ap (λ o. o j) (objects-fchmod node.kind (put_node i node h)) ∙ ground arith

  not_there :
      is_absolute path ≡ true
      → resolve fs h path ≡ none
      → chmod os fs path mode h ≡ returned minus_one h
  unfolding chmod chmod_node
  not_there absolute e = ground (arith, e)

  -- In a well-formed file system a chmod of an absolute path that leads to a node gives status 0: a
  -- stat of the path shows the type of the node with the twelve mode bits asked for, every other node
  -- and every path is as before, and the file system stays well-formed. Of any other absolute path it
  -- gives status -1 and changes nothing.
  pub chmod-Chmods : is_absolute path ≡ true → Chmods (chmod os fs path mode h)
  chmod-Chmods absolute = elim (Option-cases (resolve fs h path)) [
    | inl e ↦ inr (e, not_there absolute e)
    | inr (i, e) ↦ inl (
      i,
      with_mode i e,
      changed i e absolute,
      e,
      still_valid i e,
      same_paths i e,
      λ statbuf.
          (stat_node os i fs.nodes (with_mode i e), stat_set i e absolute statbuf, mode_set i e),
      other_nodes i e,
    )
  ]
