-- ===== src/Memory/Reached/Changes.antt =====
-- The changes of src/impls/memory.rs one by one: after each, every node in the map is found from the
-- root.
use sandbox_vfs.Base.{
  ℕ, ◌+◌, ◌^◌, ◌<◌, ◌≡◌, ◌≢◌, ◌⊎◌, refl, sym, ap, ◌∙◌, subst, Bool, true, false, some, none, arith,
  Bytes, ◌==◌, ==_iff, [], ◌∷◌, ◌++◌, length, length-append, Option, if◌then◌else◌, Bool-cases, inl,
  inr,
}
use mathlib.Core.Option.{some-injective}
use sandbox_vfs.FilePath.{FilePath}
use sandbox_vfs.FilePath.Normal.{IsNormal, trail}
use sandbox_vfs.Filesystem.{EntryKind}
use sandbox_vfs.Memory.{Kernel, Heap, MemoryFs, Node, entry_of, bump_node_id}
use sandbox_vfs.Memory.Create.{create_node, new}
use sandbox_vfs.Memory.Create.Cases.{create_cases, maps-new_kind, entry_of_directory}
use sandbox_vfs.Memory.Create.Laws.{lookup_created, create_node_cases, create_node-locate}
use sandbox_vfs.Memory.Remove.{detach}
use sandbox_vfs.Memory.Remove.Cases.{locate-removed}
use sandbox_vfs.Memory.Remove.Laws.{removal, removal_cases}
use sandbox_vfs.Memory.Rename.Ends.{Renames, renaming, renaming_cases}
use sandbox_vfs.Memory.Rename.Laws.{moved-locate}
use sandbox_vfs.Memory.Tree.{IsValid, IsTree, Lists}
use sandbox_vfs.Memory.Tree.Locate.{
  Trail, trail_eq, trail_eq_iff, step, locate, locate-live, locate-cons, locate_inversion,
}
use sandbox_vfs.Memory.Tree.PathsMove.{is_below, rebase, is_below_self, is_below_append}

-- Some path leads to the node.
abbrev pub Reached : {K : Type 0} → MemoryFs → Heap K → ℕ → Type 0
Reached fs h i = (t : Trail) × (locate h.objects (h.maps fs.nodes) fs.root t ≡ some i)

abbrev pub AllReached : {K : Type 0} → MemoryFs → Heap K → Type 0
AllReached fs h = (i : ℕ) → h.maps fs.nodes i ≡ true → Reached fs h i

is_below-append : (x s : Trail) → is_below (x ++ s) s ≡ true
unfolding is_below
is_below-append [] s = is_below_self s
is_below-append (n ∷ x) s = ground (arith, is_below-append x s)

rebase-append : (x s r : Trail) → rebase (x ++ s) s r ≡ x ++ r
unfolding rebase
rebase-append [] [] r = refl
rebase-append [] (n ∷ s) r = ground (arith, trail_eq_iff (n ∷ s) (n ∷ s))
rebase-append (n ∷ x) s r = elim (Bool-cases (trail_eq (n ∷ (x ++ s)) s)) [
  | inl e ↦
      absurd (omega (arith, ap length ((trail_eq_iff (n ∷ (x ++ s)) s).0 e), length-append x s))
  | inr e ↦ rw e (ap (◌∷◌ n) (rebase-append x s r))
]

module _ {objects : ℕ → Node} {live : ℕ → Bool} {next root : ℕ}
    (t : IsTree objects live next root) where
  -- A path below another leads somewhere only if that one leads to a node with an entry.
  passes :
      (n : Bytes) (x s : Trail) (i : ℕ)
      → locate objects live root (n ∷ (x ++ s)) ≡ some i
      → (k : ℕ) × (m : Bytes) × (c : ℕ) × (locate objects live root s ≡ some k)
        × Lists objects k m c
  passes n [] s i e = let (d, f, _, l, _) = locate_inversion t n s i e in (d, n, i, f, l)
  passes n (m ∷ x) s i e =
      let (d, f, _, _, _) = locate_inversion t n (m ∷ (x ++ s)) i e in passes m x s d f

module _ {K : Type 0} (fs : MemoryFs) (h : Heap K) (valid : IsValid fs h)
    (all : AllReached fs h) where
  abbrev at : Trail → Option ℕ
  at = locate h.objects (h.maps fs.nodes) fs.root

  no_entry :
      (up : ℕ) (name : Bytes) (q : Trail)
      → at q ≡ some up
      → entry_of (h.objects up).kind name ≡ none
      → at (name ∷ q) ≡ none
  unfolding locate step
  no_entry up name q found free = ground (arith, found, free)

  module _ (os : Kernel K) (path : FilePath) (kind : EntryKind) (mode : ℕ)
      (room : h.next_node_id + 1 < 2 ^ 64) where
    -- What is in the map after a create is new or was there.
    live_created :
        (i : ℕ)
        → (create_node os fs path kind mode h).1.maps fs.nodes i ≡ true
        → ((create_node os fs path kind mode h).0 ≡ some i) ⊎ (h.maps fs.nodes i ≡ true)
    live_created i =
        create_node_cases os fs h path kind mode valid room
          (λ r. r.1.maps fs.nodes i ≡ true → (r.0 ≡ some i) ⊎ (h.maps fs.nodes i ≡ true))
          (λ l. inr l)
          (λ up name q named at.
            create_cases os up fs.nodes name kind mode h
              (λ r. r.1.maps fs.nodes i ≡ true → (r.0 ≡ some i) ⊎ (h.maps fs.nodes i ≡ true))
              (λ l. inr l) (λ l. inr (ground (arith, maps-new_kind os kind (bump_node_id h))))
              (λ es fd is_dir free l. elim (Bool-cases (h.next_node_id == i)) [
                | inl e ↦ inl (ap some ((==_iff h.next_node_id i).0 e))
                | inr e ↦ inr (ground (arith, maps-new_kind os kind (bump_node_id h)))
              ]))

    -- Only a path that led nowhere is given a node.
    created_free :
        (id : ℕ)
        → (create_node os fs path kind mode h).0 ≡ some id
        → locate h.objects (h.maps fs.nodes) fs.root (trail path) ≡ none
    created_free id =
        create_node_cases os fs h path kind mode valid room
          (λ r. r.0 ≡ some id → locate h.objects (h.maps fs.nodes) fs.root (trail path) ≡ none)
          (λ e. absurd (cc))
          (λ up name q named at. rw named (
            create_cases os up fs.nodes name kind mode h
              (λ r. r.0 ≡ some id → locate h.objects (h.maps fs.nodes) fs.root (name ∷ q) ≡ none)
              (λ e. absurd (cc)) (λ e. absurd (cc))
              (λ es fd is_dir free _.
                no_entry up name q at
                  (entry_of_directory (h.objects up).kind name es fd is_dir ∙ free))))

    kept_path :
        (t : Trail) (i : ℕ)
        → at t ≡ some i
        → (made : Option ℕ) → ((id : ℕ) → made ≡ some id → at (trail path) ≡ none)
        → lookup_created made (trail path) t (at t) ≡ some i
    kept_path t i e none free = e
    kept_path t i e (some id) free = elim (Bool-cases (trail_eq t (trail path))) [
      | inl same ↦ absurd (cc (e, free id refl, (trail_eq_iff t (trail path)).0 same))
      | inr other ↦ rw other e
    ]

    pub create_node-AllReached : AllReached fs (create_node os fs path kind mode h).1
    create_node-AllReached i l =
        let found = create_node-locate os fs h path kind mode valid room in
        elim (live_created i l) [
          | inl e ↦ (
            trail path,
            found (trail path)
                ∙ ap
                    (λ o.
                      lookup_created o (trail path) (trail path)
                        (locate h.objects (h.maps fs.nodes) fs.root (trail path)))
                    e
                ∙ rw ((trail_eq_iff (trail path) (trail path)).1 refl) refl,
          )
          | inr old ↦
              let (t, e) = all i old in
              (t, found t ∙ kept_path t i e (create_node os fs path kind mode h).0 created_free)
        ]

  -- A path that led to another node than the one that went still leads there.
  survives :
      (t u : Trail) (i id : ℕ)
      → at t ≡ some i
      → at u ≡ some id
      → i ≢ id
      → (if trail_eq t u then none else at t) ≡ some i
  survives t u i id e there ne = elim (Bool-cases (trail_eq t u)) [
    | inl same ↦
        absurd (ne (some-injective i id (sym e ∙ ap at ((trail_eq_iff t u).0 same) ∙ there)))
    | inr other ↦ rw other e
  ]

  module _ (path : FilePath) (kind : EntryKind) where
    pub remove_node_at-AllReached : AllReached fs (removal fs h path kind valid).1
    remove_node_at-AllReached =
        removal_cases fs h path kind valid (λ r. AllReached fs r.1) all
          (λ up name q es fd id last named found is_dir lists ok i l.
            let up_live = locate-live valid q up found in
            let (t, e) = all i (unfold detach in ground arith) in
            let there =
              locate-cons valid name q up id found
                (entry_of_directory (h.objects up).kind name es fd is_dir ∙ lists) in
            (
              t,
              locate-removed fs h valid up name kind up_live es fd is_dir id lists ok q t found
                  ∙ survives t (name ∷ q) i id e there (λ same. unfold detach in ground arith),
            ))

  module _ (old_path new_path : FilePath) (old_normal : IsNormal old_path)
      (new_normal : IsNormal new_path) where
    module _ (h' : Heap K) (r : Renames fs h valid old_path new_path h') where
      -- At the new path there was the replaced node at most, and it had no entries.
      replaced_at : (i : ℕ) → at (trail new_path) ≡ some i → r.gone i ≡ true
      replaced_at i e =
          let (d, f, _, l, _) =
            locate_inversion valid r.new_name r.new_q i (ap at (sym r.new_trail) ∙ e) in
          let same : d ≡ r.new_up = some-injective d r.new_up (sym f ∙ r.new_found) in
          r.moves.named_gone i (subst (λ k. Lists h.objects k r.new_name i) same l)

      replaced_below : (x : Trail) (i : ℕ) → at (x ++ trail new_path) ≡ some i → r.gone i ≡ true
      replaced_below [] i e = replaced_at i e
      replaced_below (n ∷ x) i e =
          let (k, m, c, f, l) = passes valid n x (trail new_path) i e in
          absurd (cc (l, r.moves.gone_empty k m (replaced_at k f)))

      moved_to :
          (x : Trail) (i : ℕ)
          → at (x ++ trail old_path) ≡ some i
          → locate h'.objects (h'.maps fs.nodes) fs.root (x ++ trail new_path) ≡ some i
      moved_to x i e =
          moved-locate fs h old_path new_path valid old_normal new_normal h' r (x ++ trail new_path)
          ∙ rw
              (
                is_below-append x (trail new_path),
                rebase-append x (trail new_path) (trail old_path),
              )
              e

      moved-Reached : (i : ℕ) (t : Trail) → r.gone i ≡ false → at t ≡ some i → Reached fs h' i
      moved-Reached i t stays e = elim (Bool-cases (is_below t (trail new_path))) [
        | inl b ↦
            let (x, shape) = is_below_append t (trail new_path) b in
            absurd (cc (stays, replaced_below x i (ap at (sym shape) ∙ e)))
        | inr b ↦ elim (Bool-cases (is_below t (trail old_path))) [
          | inl c ↦
              let (x, shape) = is_below_append t (trail old_path) c in
              (x ++ trail new_path, moved_to x i (ap at (sym shape) ∙ e))
          | inr c ↦ (
            t,
            moved-locate fs h old_path new_path valid old_normal new_normal h' r t ∙ rw (b, c) e,
          )
        ]
      ]

      moved-AllReached : AllReached fs h'
      moved-AllReached i l =
          let stays : r.gone i ≡ false = ground (arith, r.moves.shrunk i) in
          let (t, e) = all i (ground (arith, r.moves.shrunk i)) in moved-Reached i t stays e

    pub rename_node_at-AllReached : AllReached fs (renaming fs h old_path new_path valid).1
    rename_node_at-AllReached =
        renaming_cases fs h old_path new_path valid (λ r. AllReached fs r.1) all (λ _. all)
          moved-AllReached

module _ {K : Type 0} (os : Kernel K) (id : Bytes) (h : Heap K) where
  -- A new file system has its root only.
  pub new-AllReached : AllReached (new os id h).0 (new os id h).1
  unfolding new locate
  new-AllReached i l = ([], ground arith)
