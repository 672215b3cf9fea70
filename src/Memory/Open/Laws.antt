-- ===== src/Memory/Open/Laws.antt =====
-- `open` by path: `open_node` of src/impls/memory.rs.
use sandbox_vfs.Base.{
  ℕ, ◌+◌, ◌<◌, ◌^◌, ◌≡◌, refl, sym, ap, ◌∙◌, subst, Bool, true, false, ◌&&◌, not, Option, none,
  some, arith, ℤ, minus_one, is_negative, has_flag, bit_or, bit_and, ◌==◌, Bool-cases, Option-cases,
  inl, inr,
}
use sandbox_vfs.FilePath.{FilePath}
use sandbox_vfs.FilePath.Normal.{trail}
use sandbox_vfs.Filesystem.{file}
use sandbox_vfs.Libc.{o_creat, o_excl, o_directory}
use sandbox_vfs.Memory.{Kernel, Heap, MemoryFs, backing_fd, is_directory, resolve}
use sandbox_vfs.Memory.Create.{create_node}
use sandbox_vfs.Memory.Create.Laws.{lookup_created, create_node-IsValid, create_node-resolve}
use sandbox_vfs.Memory.Open.{open_backing, open_found, open_resolved_node, open_node}
use sandbox_vfs.Memory.Paths.{resolve-locate}
use sandbox_vfs.Memory.Tree.{IsValid}
use sandbox_vfs.Memory.Tree.Locate.{Trail, trail_eq, trail_eq_iff, locate}

abbrev pub exclusive : ℕ → Bool
exclusive flags = bit_and flags (bit_or o_creat o_excl) == bit_or o_creat o_excl

module _ {K : Type 0} (os : Kernel K) (fs : MemoryFs) (h : Heap K) (path : FilePath)
    (flags mode : ℕ) where
  -- What an open may do: fail, or give a node that the path leads to then. No path is lost.
  abbrev pub Opens : (ℤ × Option ℕ) × Heap K → Type 0
  Opens ((fd, none), h') =
      (is_negative fd ≡ true)
      × IsValid fs h'
      × ((p : FilePath) (i : ℕ) → resolve fs h p ≡ some i → resolve fs h' p ≡ some i)
  Opens ((fd, some node), h') =
      (is_negative fd ≡ false)
      × IsValid fs h'
      × ((p : FilePath) (i : ℕ) → resolve fs h p ≡ some i → resolve fs h' p ≡ some i)
      × (resolve fs h' path ≡ some node)
      × (exclusive flags ≡ true → resolve fs h path ≡ none)
      × (has_flag flags o_creat ≡ false → resolve fs h path ≡ some node)
      × (has_flag flags o_directory ≡ true → is_directory (h'.objects node).kind ≡ true)

  module _ (node : ℕ) (h' : Heap K) where
    abbrev backing : ℤ × Heap K
    backing = open_backing os (backing_fd (h'.objects node).kind) flags h'

    abbrev wrong_kind : Bool
    wrong_kind = has_flag flags o_directory && not (is_directory (h'.objects node).kind)

    found_wrong : wrong_kind ≡ true → open_found os node flags h' ≡ ((minus_one, none), h')
    unfolding open_found
    found_wrong e = rw e refl

    found_bad :
        wrong_kind ≡ false
        → is_negative backing.0 ≡ true
        → open_found os node flags h' ≡ ((backing.0, none), backing.1)
    unfolding open_found
    found_bad e f = rw (e, f) refl

    found_good :
        wrong_kind ≡ false
        → is_negative backing.0 ≡ false
        → open_found os node flags h' ≡ ((backing.0, some node), backing.1)
    unfolding open_found
    found_good e f = rw (e, f) refl

    module _ (valid : IsValid fs h') where
      backing-IsValid : IsValid fs backing.1
      unfolding open_backing
      backing-IsValid = valid

      backing-objects : backing.1.objects ≡ h'.objects
      unfolding open_backing
      backing-objects = refl

      backing-locate :
          (q : Trail)
          → locate backing.1.objects (backing.1.maps fs.nodes) fs.root q
            ≡ locate h'.objects (h'.maps fs.nodes) fs.root q
      unfolding open_backing
      backing-locate q = refl

      backing-resolve : (p : FilePath) → resolve fs backing.1 p ≡ resolve fs h' p
      backing-resolve p =
          resolve-locate fs backing.1 p backing-IsValid.root_live
          ∙ backing-locate (trail p)
          ∙ sym (resolve-locate fs h' p valid.root_live)

      open_found-Opens :
          ((p : FilePath) (i : ℕ) → resolve fs h p ≡ some i → resolve fs h' p ≡ some i)
          → resolve fs h' path ≡ some node
          → (exclusive flags ≡ true → resolve fs h path ≡ none)
          → (has_flag flags o_creat ≡ false → resolve fs h path ≡ some node)
          → Opens (open_found os node flags h')
      open_found-Opens keeps found fresh old = elim (Bool-cases wrong_kind) [
        | inl wrong ↦ subst Opens (sym (found_wrong wrong)) (refl, valid, keeps)
        | inr right ↦ elim (Bool-cases (is_negative backing.0)) [
          | inl bad ↦
              subst Opens (sym (found_bad right bad))
                (bad, backing-IsValid, λ p i e. backing-resolve p ∙ keeps p i e)
          | inr good ↦ subst Opens (sym (found_good right good)) (
            good,
            backing-IsValid,
            λ p i e. backing-resolve p ∙ keeps p i e,
            backing-resolve path ∙ found,
            fresh,
            old,
            λ e. ap (λ o. is_directory (o node).kind) backing-objects ∙ ground (arith, right, e),
          )
        ]
      ]

  module _ (valid : IsValid fs h) (room : h.next_node_id + 1 < 2 ^ 64) where
    abbrev made : Option ℕ × Heap K
    made = create_node os fs path file mode h

    made-keeps :
        resolve fs h path ≡ none
        → (p : FilePath) (i : ℕ) → resolve fs h p ≡ some i
        → resolve fs made.1 p ≡ some i
    made-keeps free p i e = create_node-resolve os fs h path file mode valid room p ∙ kept made.0
      where
        kept : (o : Option ℕ) → lookup_created o (trail path) (trail p) (resolve fs h p) ≡ some i
        kept none = e
        kept (some id) = elim (Bool-cases (trail_eq (trail p) (trail path))) [
          | inl same ↦ absurd (
              cc (
                e,
                free,
                resolve-locate fs h p valid.root_live,
                resolve-locate fs h path valid.root_live,
                (trail_eq_iff (trail p) (trail path)).0 same,
              ))
          | inr other ↦ rw other e
        ]

    made-found : (id : ℕ) → made.0 ≡ some id → resolve fs made.1 path ≡ some id
    made-found id e =
        create_node-resolve os fs h path file mode valid room path
        ∙ ap (λ o. lookup_created o (trail path) (trail path) (resolve fs h path)) e
        ∙ rw ((trail_eq_iff (trail path) (trail path)).1 refl) refl

    same : (p : FilePath) (i : ℕ) → resolve fs h p ≡ some i → resolve fs h p ≡ some i
    same p i e = e

    module _ (create : Heap K → Option ℕ × Heap K) where
      opens_old :
          (node : ℕ)
          → exclusive flags ≡ false
          → open_resolved_node os (some node) create flags h ≡ open_found os node flags h
      unfolding open_resolved_node
      opens_old node e = rw e refl

      refuses_old :
          (node : ℕ)
          → exclusive flags ≡ true
          → open_resolved_node os (some node) create flags h ≡ ((minus_one, none), h)
      unfolding open_resolved_node
      refuses_old node e = rw e refl

      refuses_missing :
          has_flag flags o_creat ≡ false
          → open_resolved_node os none create flags h ≡ ((minus_one, none), h)
      unfolding open_resolved_node
      refuses_missing e = rw e refl

      refuses_unmade :
          has_flag flags o_creat ≡ true
          → (create h).0 ≡ none
          → open_resolved_node os none create flags h ≡ ((minus_one, none), (create h).1)
      unfolding open_resolved_node
      refuses_unmade e n = rw (e, n) refl

      opens_made :
          (node : ℕ)
          → has_flag flags o_creat ≡ true
          → (create h).0 ≡ some node
          → open_resolved_node os none create flags h ≡ open_found os node flags (create h).1
      unfolding open_resolved_node
      opens_made node e n = rw (e, n) refl

    made-IsValid : IsValid fs made.1
    made-IsValid = create_node-IsValid os fs h path file mode valid room

    existing-Opens :
        (node : ℕ)
        → resolve fs h path ≡ some node
        → Opens (open_resolved_node os (some node) (create_node os fs path file mode) flags h)
    existing-Opens node found = elim (Bool-cases (exclusive flags)) [
      | inl e ↦ rw (refuses_old (create_node os fs path file mode) node e) (refl, valid, same)
      | inr e ↦
          rw (opens_old (create_node os fs path file mode) node e)
            (open_found-Opens node h valid same found (λ y. absurd (cc (e, y))) (λ _. found))
    ]

    missing-Opens :
        resolve fs h path ≡ none
        → Opens (open_resolved_node os none (create_node os fs path file mode) flags h)
    missing-Opens free = elim (Bool-cases (has_flag flags o_creat)) [
      | inr e ↦ rw (refuses_missing (create_node os fs path file mode) e) (refl, valid, same)
      | inl e ↦ elim (Option-cases made.0) [
        | inl n ↦
            rw (refuses_unmade (create_node os fs path file mode) e n)
              (refl, made-IsValid, made-keeps free)
        | inr (id, n) ↦ rw (opens_made (create_node os fs path file mode) id e n) (
            open_found-Opens id made.1 made-IsValid (made-keeps free) (made-found id n) (λ _. free)
              (λ y. absurd (cc (e, y))))
      ]
    ]

    -- Opening a path of a well-formed file system, with a node number to spare, fails with a negative
    -- number or gives a node that the path leads to then, and keeps the tree and every path. The node
    -- is new if the flags ask for that, was there if they do not ask to create it, and is a directory
    -- if they ask for one.
    pub open_node-Opens : Opens (open_node os fs path flags mode h)
    unfolding open_node
    open_node-Opens = elim (Option-cases (resolve fs h path)) [
      | inl free ↦ rw free (missing-Opens free)
      | inr (node, found) ↦ rw found (existing-Opens node found)
    ]
