-- ===== src/Memory/Drop/Steps.antt =====
-- A pointer to a node of src/impls/memory.rs that goes: the file behind the node stays open as long as
-- something else points to the node, and no longer.
use sandbox_vfs.Base.{
  ℕ, ◌≡◌, ◌≢◌, refl, sym, subst, ap, ◌∙◌, Bool, true, false, some, List, [], ◌∷◌, arith, ℤ,
  if◌then◌else◌, Bool-cases, Option-cases, inl, inr,
}
use sandbox_vfs.FilePath.{FilePath}
use sandbox_vfs.FilePath.Normal.{trail}
use sandbox_vfs.Memory.{Kernel, Heap, MemoryFs, backing_fd, resolve}
use sandbox_vfs.Memory.Drop.{
  Session, is_held, without, is_owned, drop_node, drop_unowned, drop_opened,
}
use sandbox_vfs.Memory.Drop.Backed.{HasDescriptors, IsBacked, IsBacked-fewer, IsBacked-close}
use sandbox_vfs.Memory.Paths.{resolve-locate}
use sandbox_vfs.Memory.Rename.Moved.{SameBacking}
use sandbox_vfs.Memory.Tree.{IsValid}
use sandbox_vfs.Memory.Tree.Locate.{locate-live}

pub is_held-without :
    (i j : ℕ) (handles : List ℕ) → i ≢ j → is_held (without i handles) j ≡ is_held handles j
unfolding is_held without
is_held-without i j [] ne = refl
is_held-without i j (n ∷ handles) ne = ground (arith, is_held-without i j handles ne)

pub held_without :
    (i j : ℕ) (handles : List ℕ) → is_held (without i handles) j ≡ true → is_held handles j ≡ true
unfolding is_held without
held_without i j [] e = e
held_without i j (n ∷ handles) e = ground (arith, held_without i j handles)

abbrev pub fds : {K : Type 0} → Heap K → ℕ → ℤ
fds h i = backing_fd (h.objects i).kind

module _ {K : Type 0} {os : Kernel K} {IsOpen : K → ℤ → Type 0} (table : HasDescriptors os IsOpen)
    (fs : MemoryFs) where
  abbrev pub Backed : Session K → Type 0
  Backed (handles, h) = IsBacked IsOpen (is_owned os fs handles h) (fds h) h.next_node_id h.kernel

  -- The file of a node is closed when the last pointer to the node goes.
  abbrev pub Closes : Session K → Session K → Type 0
  Closes (handles, h) (handles', h') =
      (i : ℕ)
      → is_owned os fs handles h i ≡ true
      → is_owned os fs handles' h' i ≡ false
      → ¬ IsOpen h'.kernel (fds h i)

  -- Every node is still pointed to.
  abbrev pub Adds : Session K → Session K → Type 0
  Adds (handles, h) (handles', h') =
      Backed (handles', h')
      × ((i : ℕ) → is_owned os fs handles h i ≡ true → is_owned os fs handles' h' i ≡ true)

  abbrev pub StepsTo : Session K → Session K → Type 0
  StepsTo s s' = Backed s' × Closes s s'

  pub Adds-StepsTo : (s t : Session K) → Adds s t → StepsTo s t
  Adds-StepsTo s t (b, all) = (b, λ i o n. absurd (cc (all i o, n)))

  -- A node at most loses its last pointer, and that one is looked at.
  module _ (handles handles' : List ℕ) (h h' : Heap K) (b : Backed (handles, h))
      (same : SameBacking h h') (next : h'.next_node_id ≡ h.next_node_id)
      (fewer : (i : ℕ)
        → is_owned os fs handles' h' i ≡ true
        → is_owned os fs handles h i ≡ true) where
    still : Backed (handles', h')
    still =
        IsBacked-fewer table b (is_owned os fs handles' h') (fds h') h'.next_node_id h'.kernel fewer
          same.1 (omega (arith, next)) (λ fd o. subst (λ k. IsOpen k fd) (sym same.0) o)

    module _ (c : ℕ) (was : is_owned os fs handles h c ≡ true)
        (lost : (i : ℕ)
          → is_owned os fs handles h i ≡ true
          → is_owned os fs handles' h' i ≡ false
          → c ≡ i) where
      module _ (gone : is_owned os fs handles' h' c ≡ false) where
        before : IsBacked IsOpen (is_owned os fs handles h) (fds h') h'.next_node_id h'.kernel
        before =
            IsBacked-fewer table b (is_owned os fs handles h) (fds h') h'.next_node_id h'.kernel
              (λ i o. o) same.1 (omega (arith, next))
              (λ fd o. subst (λ k. IsOpen k fd) (sym same.0) o)

        dropped : StepsTo (handles, h) (handles', drop_node os c h')
        unfolding is_owned drop_node
        dropped = (
          IsBacked-close table before c (is_owned os fs handles' h') was gone fewer,
          λ i o n is_open.
              let here : c ≡ i = lost i o n in
              table.close_closes (fds h' c) h'.kernel (
                subst (IsOpen (os.close (fds h' c) h'.kernel))
                  (ap (fds h) (sym here) ∙ sym (same.1 c)) is_open),
        )

        to_dropped : drop_unowned os fs handles' (some c) h' ≡ drop_node os c h'
        unfolding drop_unowned
        to_dropped = rw gone refl

      to_kept : is_owned os fs handles' h' c ≡ true → drop_unowned os fs handles' (some c) h' ≡ h'
      unfolding drop_unowned
      to_kept e = rw e refl

      pub drops : StepsTo (handles, h) (handles', drop_unowned os fs handles' (some c) h')
      drops = elim (Bool-cases (is_owned os fs handles' h' c)) [
        | inl e ↦
            subst (λ g. StepsTo (handles, h) (handles', g)) (sym (to_kept e))
              (still, λ i o n. let here : c ≡ i = lost i o n in absurd (cc))
        | inr e ↦ subst (λ g. StepsTo (handles, h) (handles', g)) (sym (to_dropped e)) (dropped e)
      ]

    pub keeps :
        ((i : ℕ) → is_owned os fs handles h i ≡ true → is_owned os fs handles' h' i ≡ true)
        → StepsTo (handles, h) (handles', h')
    keeps all = (still, λ i o n. absurd (cc (all i o, n)))

  -- A handle that is dropped.
  module _ (handles : List ℕ) (h : Heap K) (b : Backed (handles, h)) where
    to_dropped_handle :
        (i : ℕ)
        → is_held handles i ≡ true
        → drop_opened os fs i (handles, h)
          ≡ (without i handles, drop_unowned os fs (without i handles) (some i) h)
    unfolding drop_opened
    to_dropped_handle i e = rw e refl

    to_no_handle :
        (i : ℕ) → is_held handles i ≡ false → drop_opened os fs i (handles, h) ≡ (handles, h)
    unfolding drop_opened
    to_no_handle i e = rw e refl

    pub drop_opened-StepsTo : (i : ℕ) → StepsTo (handles, h) (drop_opened os fs i (handles, h))
    drop_opened-StepsTo i = elim (Bool-cases (is_held handles i)) [
      | inl e ↦ subst (StepsTo (handles, h)) (sym (to_dropped_handle i e)) (
          drops handles (without i handles) h h b (refl, λ j. refl) refl
            (unfold is_owned in λ j. ground (arith, held_without i j handles)) i
            (unfold is_owned in ground arith)
            (λ j. unfold is_owned in ground (arith, is_held-without i j handles)))
      | inr e ↦
          subst (StepsTo (handles, h)) (sym (to_no_handle i e))
            (keeps handles handles h h b (refl, λ j. refl) refl (λ j o. o) (λ j o. o))
    ]

    module _ (valid : IsValid fs h) where
      module _ (h' : Heap K) (same : SameBacking h h') (next : h'.next_node_id ≡ h.next_node_id)
          (gone : ℕ → Bool)
          (shrunk : (j : ℕ) → h'.maps fs.nodes j ≡ (if gone j then false else h.maps fs.nodes j))
          (path : FilePath) (gone_at : (j : ℕ) → gone j ≡ true → resolve fs h path ≡ some j) where
        -- Only the node under the path leaves the map.
        pub cleared-StepsTo :
            StepsTo (handles, h) (handles, drop_unowned os fs handles (resolve fs h path) h')
        cleared-StepsTo = elim (Option-cases (resolve fs h path)) [
          | inl e ↦ rw e (
              unfold drop_unowned in
              keeps handles handles h h' b same next
                (unfold is_owned in λ j. ground (arith, shrunk j))
                (unfold is_owned in λ j. ground (arith, shrunk j, gone_at j, e)))
          | inr (i, e) ↦
              let live : h.maps fs.nodes i ≡ true =
                locate-live valid (trail path) i
                  (sym (resolve-locate fs h path valid.root_live) ∙ e) in
              rw e (
                drops handles handles h h' b same next
                  (unfold is_owned in λ j. ground (arith, shrunk j)) i
                  (unfold is_owned in ground arith)
                  (unfold is_owned in λ j. ground (arith, shrunk j, gone_at j, e)))
        ]
