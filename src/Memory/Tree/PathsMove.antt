-- ===== src/Memory/Tree/PathsMove.antt =====
-- How the map from paths to nodes changes when a node moves, with all that is below it.
use sandbox_vfs.Base.{
  ℕ, ◌≤◌, ◌≡◌, sym, ◌≢◌, refl, ap, ◌∙◌, Bool, true, false, ◌&&◌, ◌||◌, none, some, arith, Bytes,
  bytes_eq, bytes_eq_iff, ◌==◌, if◌then◌else◌, [], ◌∷◌, ◌++◌, Bool-cases, Option-cases, inl, inr,
  length,
}
use sandbox_vfs.Memory.{Node, entry_of}
use sandbox_vfs.Memory.Tree.{IsTree}
use sandbox_vfs.Memory.Tree.Move.{Moves}
use sandbox_vfs.Memory.Tree.Locate.{
  Trail, trail_eq, trail_eq_iff, step, locate, locate-live, locate_unique,
}

-- `p` is the path `s`, or a path below it.
unfoldable pub is_below : Trail → Trail → Bool
is_below [] s = trail_eq [] s
is_below (n ∷ p) s = trail_eq (n ∷ p) s || is_below p s

-- The path `p`, which is below `s`, seen from `r`.
unfoldable pub rebase : Trail → Trail → Trail → Trail
rebase [] s r = r
rebase (n ∷ p) s r = if trail_eq (n ∷ p) s then r else n ∷ rebase p s r

pub length-is_below : (p s : Trail) → is_below p s ≡ true → length s ≤ length p
unfolding is_below
length-is_below [] s h = let e = (trail_eq_iff [] s).0 h in omega (arith, ap length e)
length-is_below (n ∷ p) s h = elim (Bool-cases (trail_eq (n ∷ p) s)) [
  | inl e ↦ omega (arith, ap length ((trail_eq_iff (n ∷ p) s).0 e))
  | inr e ↦ omega (arith, length-is_below p s (ground (arith, e)))
]

not-is_below_self : (n : Bytes) (p : Trail) → is_below p (n ∷ p) ≡ false
not-is_below_self n p = elim (Bool-cases (is_below p (n ∷ p))) [
  | inl e ↦ absurd (omega (arith, length-is_below p (n ∷ p) e))
  | inr e ↦ e
]

pub is_below_append : (p s : Trail) → is_below p s ≡ true → (r : Trail) × (p ≡ r ++ s)
unfolding is_below
is_below_append [] s h = ([], (trail_eq_iff [] s).0 h)
is_below_append (n ∷ p) s h = elim (Bool-cases (trail_eq (n ∷ p) s)) [
  | inl e ↦ ([], (trail_eq_iff (n ∷ p) s).0 e)
  | inr e ↦ let (r, f) = is_below_append p s (ground (arith, e)) in (n ∷ r, ap (◌∷◌ n) f)
]

pub is_below_self : (p : Trail) → is_below p p ≡ true
unfolding is_below
is_below_self [] = ground (arith, trail_eq_iff [] [])
is_below_self (n ∷ p) = ground (arith, trail_eq_iff (n ∷ p) (n ∷ p))

is_below-rebase : (p s r : Trail) → is_below p s ≡ true → is_below (rebase p s r) r ≡ true
unfolding is_below rebase
is_below-rebase [] s r h = is_below_self r
is_below-rebase (n ∷ p) s r h = elim (Bool-cases (trail_eq (n ∷ p) s)) [
  | inl e ↦ rw e (is_below_self r)
  | inr e ↦ ground (arith, e, is_below-rebase p s r)
]

pub rebase_self : (p s : Trail) → is_below p s ≡ true → rebase p s s ≡ p
unfolding is_below rebase
rebase_self [] s h = sym ((trail_eq_iff [] s).0 h)
rebase_self (n ∷ p) s h = elim (Bool-cases (trail_eq (n ∷ p) s)) [
  | inl e ↦ rw e (sym ((trail_eq_iff (n ∷ p) s).0 e))
  | inr e ↦ rw e (ap (◌∷◌ n) (rebase_self p s (ground (arith, e))))
]

module _ {objects objects' : ℕ → Node} {live live' : ℕ → Bool} {next root : ℕ}
    (t : IsTree objects live next root) {c old_up new_up : ℕ} {old_name new_name : Bytes}
    {gone : ℕ → Bool}
    (m : Moves objects objects' live live' root c old_up new_up old_name new_name gone)
    (old_q new_q : Trail) (old_found : locate objects live root old_q ≡ some old_up)
    (new_found : locate objects live root new_q ≡ some new_up)
    (apart : is_below new_q (old_name ∷ old_q) ≡ false) where
  c_live : live c ≡ true
  c_live = t.child_live old_up old_name c (locate-live t old_q old_up old_found) m.named

  step-move :
      (d : ℕ) (n : Bytes)
      → live d ≡ true
      → step objects' live' d n ≡ (
          if new_up == d && bytes_eq new_name n
          then some c
          else if old_up == d && bytes_eq old_name n
          then none
          else step objects live d n)
  unfolding step
  step-move d n l = elim (Option-cases (entry_of (objects d).kind n)) [
    | inl e ↦ ground (arith, e, m.same_entries d n, m.shrunk c, m.kept, c_live)
    | inr (x, e) ↦ ground (
      arith,
      e,
      m.same_entries d n,
      m.shrunk x,
      m.shrunk c,
      m.kept,
      c_live,
      m.gone_named x,
      t.child_live d n x l e,
      t.child_parent d n x l e,
      t.child_parent new_up new_name x (locate-live t new_q new_up new_found),
      t.one_name d n new_name x l e,
      bytes_eq_iff new_name n,
    )
  ]

  -- Away from the two paths nothing changes.
  pub locate-move_elsewhere :
      (p : Trail)
      → is_below p (old_name ∷ old_q) ≡ false
      → is_below p (new_name ∷ new_q) ≡ false
      → locate objects' live' root p ≡ locate objects live root p
  unfolding locate is_below
  locate-move_elsewhere [] ho hn = refl
  locate-move_elsewhere (n ∷ p) ho hn = elim (Option-cases (locate objects live root p)) [
    | inl e ↦ ground (arith, e, locate-move_elsewhere p)
    | inr (d, e) ↦ ground (
      arith,
      e,
      locate-move_elsewhere p,
      step-move d n (locate-live t p d e),
      old_found,
      new_found,
      locate_unique t p old_q d e,
      locate_unique t p new_q d e,
      bytes_eq_iff old_name n,
      bytes_eq_iff new_name n,
      trail_eq_iff (n ∷ p) (old_name ∷ old_q),
      trail_eq_iff (n ∷ p) (new_name ∷ new_q),
    )
  ]

  new_parent_kept : locate objects' live' root new_q ≡ some new_up
  new_parent_kept = locate-move_elsewhere new_q apart (not-is_below_self new_name new_q) ∙ new_found

  old_path : locate objects live root (old_name ∷ old_q) ≡ some c
  unfolding locate step
  old_path = ground (arith, old_found, m.named, c_live)

  -- What is reached below the old path is neither of the parents.
  not_parents :
      (r : Trail) (d : ℕ)
      → locate objects live root r ≡ some d
      → is_below r (old_name ∷ old_q) ≡ true
      → (d ≢ new_up) × (d ≢ old_up)
  not_parents r d e b = (
    λ same_new.
        let at = locate_unique t r new_q d e (ground arith) in
        ground (arith, ap (λ x. is_below x (old_name ∷ old_q)) at),
    λ same_old.
        let at = locate_unique t r old_q d e (ground arith) in
        ground
          (arith, ap (λ x. is_below x (old_name ∷ old_q)) at, not-is_below_self old_name old_q),
  )

  moved_step :
      (n : Bytes) (p : Trail)
      → locate objects' live' root p
        ≡ locate objects live root (rebase p (new_name ∷ new_q) (old_name ∷ old_q))
      → is_below p (new_name ∷ new_q) ≡ true
      → locate objects' live' root (n ∷ p)
        ≡ locate objects live root (n ∷ rebase p (new_name ∷ new_q) (old_name ∷ old_q))
  unfolding locate
  moved_step n p ih h =
      let r = rebase p (new_name ∷ new_q) (old_name ∷ old_q) in
      let b = is_below-rebase p (new_name ∷ new_q) (old_name ∷ old_q) h in
      elim (Option-cases (locate objects live root r)) [
        | inl e ↦ ground (arith, e, ih)
        | inr (d, e) ↦
            ground
              (arith, e, ih, step-move d n (locate-live t r d e), b, apart, not_parents r d e b)
      ]

  -- The new path leads to what the old one led to, and so on below it.
  pub locate-move_new :
      (p : Trail)
      → is_below p (new_name ∷ new_q) ≡ true
      → locate objects' live' root p
        ≡ locate objects live root (rebase p (new_name ∷ new_q) (old_name ∷ old_q))
  unfolding locate is_below rebase
  locate-move_new [] h = absurd (ground (arith, trail_eq_iff [] (new_name ∷ new_q)))
  locate-move_new (n ∷ p) h = elim (Bool-cases (trail_eq (n ∷ p) (new_name ∷ new_q))) [
    | inl e ↦
        let here = (trail_eq_iff (n ∷ p) (new_name ∷ new_q)).0 e in
        ground (
          arith,
          e,
          here,
          old_path,
          new_parent_kept,
          step-move new_up new_name (locate-live t new_q new_up new_found),
          bytes_eq_iff new_name new_name,
        )
    | inr e ↦ rw e (moved_step n p (locate-move_new p (ground (arith, e))) (ground (arith, e)))
  ]

  -- The old path, unless it is below the new one, leads nowhere.
  pub locate-move_old :
      (p : Trail)
      → is_below p (old_name ∷ old_q) ≡ true
      → is_below p (new_name ∷ new_q) ≡ false
      → locate objects' live' root p ≡ none
  unfolding locate is_below
  locate-move_old [] ho hn = absurd (ground (arith, trail_eq_iff [] (old_name ∷ old_q)))
  locate-move_old (n ∷ p) ho hn = elim (Bool-cases (trail_eq (n ∷ p) (old_name ∷ old_q))) [
    | inl e ↦ ground (
      arith,
      (trail_eq_iff (n ∷ p) (old_name ∷ old_q)).0 e,
      locate-move_elsewhere old_q (not-is_below_self old_name old_q),
      step-move old_up old_name (locate-live t old_q old_up old_found),
      bytes_eq_iff old_name old_name,
      bytes_eq_iff new_name old_name,
      hn,
      old_found,
      trail_eq_iff (n ∷ p) (new_name ∷ new_q),
      locate_unique t old_q new_q old_up old_found,
    )
    | inr e ↦ ground (arith, e, locate-move_old p)
  ]
