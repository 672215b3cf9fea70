-- ===== src/Memory/Tree/Locate.antt =====
-- The tree as a map from paths to nodes. A path is the list of its names, the last one first.
use sandbox_vfs.Base.{
  ℕ, ◌≡◌, ◌≢◌, refl, Bool, true, false, ◌&&◌, Option, none, some, List, [], ◌∷◌, arith, Bytes,
  bytes_eq, bytes_eq_iff, ◌↔◌, if◌then◌else◌, Option-cases, inl, inr,
}
use sandbox_vfs.Memory.{Node, entry_of}
use sandbox_vfs.Memory.Tree.{IsTree, Lists}

abbrev pub Trail : Type 0
Trail = List Bytes

unfoldable pub trail_eq : Trail → Trail → Bool
trail_eq [] [] = true
trail_eq (a ∷ p) (b ∷ q) = bytes_eq a b && trail_eq p q
trail_eq _ _ = false

pub trail_eq_iff : (p q : Trail) → (trail_eq p q ≡ true) ↔ (p ≡ q)
unfolding trail_eq
trail_eq_iff [] [] = ground arith
trail_eq_iff (a ∷ p) (b ∷ q) = ground (arith, bytes_eq_iff a b, trail_eq_iff p q)
trail_eq_iff [] (b ∷ q) = ground arith
trail_eq_iff (a ∷ p) [] = ground arith

module _ (objects : ℕ → Node) (live : ℕ → Bool) where
  -- The entry of a name, if its node is live.
  unfoldable pub step : ℕ → Bytes → Option ℕ
  step d n = elim (entry_of (objects d).kind n) [
    | none ↦ none
    | some c ↦ if live c then some c else none
  ]

  unfoldable pub step_from : Option ℕ → Bytes → Option ℕ
  unfolding step
  step_from none n = none
  step_from (some d) n = step d n

  unfoldable pub locate : ℕ → Trail → Option ℕ
  unfolding step_from
  locate root [] = some root
  locate root (n ∷ p) = step_from (locate root p) n

module _ {objects : ℕ → Node} {live : ℕ → Bool} {next root : ℕ}
    (t : IsTree objects live next root) where
  pub step-Lists : (d c : ℕ) (n : Bytes) → step objects live d n ≡ some c → Lists objects d n c
  unfolding step
  step-Lists d c n h = ground arith

  -- What a name reaches is live, and so is what a path reaches.
  pub locate-live : (p : Trail) (c : ℕ) → locate objects live root p ≡ some c → live c ≡ true
  unfolding locate
  locate-live [] c h = ground (arith, t.root_live)
  locate-live (n ∷ p) c h = ground arith

  -- The directory that lists the last name of a path.
  pub locate_inversion :
      (n : Bytes) (p : Trail) (c : ℕ)
      → locate objects live root (n ∷ p) ≡ some c
      → (d : ℕ) × (locate objects live root p ≡ some d)
        × (live d ≡ true)
        × (Lists objects d n c)
        × (live c ≡ true)
  unfolding locate
  locate_inversion n p c h = elim (Option-cases (locate objects live root p)) [
    | inl e ↦ absurd (ground (arith, e))
    | inr (d, e) ↦
        (d, e, locate-live p d e, step-Lists d c n (ground (arith, e)), locate-live (n ∷ p) c h)
  ]

  -- Only the empty path leads to the root.
  pub locate-ne-root : (n : Bytes) (p : Trail) → locate objects live root (n ∷ p) ≢ some root
  locate-ne-root n p h =
      let (d, e, ld, l, lc) = locate_inversion n p root h in t.child-ne-root d n root ld l refl

  -- A node has one path.
  pub locate_unique :
      (p q : Trail) (c : ℕ)
      → locate objects live root p ≡ some c
      → locate objects live root q ≡ some c
      → p ≡ q
  unfolding locate
  locate_unique [] [] c hp hq = refl
  locate_unique [] (n ∷ q) c hp hq = absurd (ground (arith, locate-ne-root n q))
  locate_unique (m ∷ p) [] c hp hq = absurd (ground (arith, locate-ne-root m p))
  locate_unique (m ∷ p) (n ∷ q) c hp hq =
      let (d, e, ld, l, lc) = locate_inversion m p c hp in
      let (d', e', ld', l', lc') = locate_inversion n q c hq in
      ground (
        arith,
        t.child_parent d m c,
        t.child_parent d' n c,
        locate_unique p q d e,
        t.one_name d m n c,
      )

  pub locate-cons :
      (n : Bytes) (p : Trail) (d c : ℕ)
      → locate objects live root p ≡ some d
      → Lists objects d n c
      → locate objects live root (n ∷ p) ≡ some c
  unfolding locate step
  locate-cons n p d c e l = ground (arith, t.child_live d n c (locate-live p d e) l)
