-- ===== src/Memory/Tree/Paths.antt =====
-- How the map from paths to nodes changes when a node gets a name, loses one, or moves.
use sandbox_vfs.Base.{
  ℕ, ◌≡◌, Bool, true, false, ◌&&◌, none, some, arith, Bytes, bytes_eq, bytes_eq_iff, ◌==◌,
  if◌then◌else◌, [], ◌∷◌, Option-cases, inl, inr,
}
use sandbox_vfs.Memory.{Node, entry_of}
use sandbox_vfs.Memory.Tree.{IsTree}
use sandbox_vfs.Memory.Tree.Locate.{
  Trail, trail_eq, trail_eq_iff, step, locate, locate-live, locate_unique,
}

module _ (objects objects' : ℕ → Node) (live live' : ℕ → Bool) (next root : ℕ)
    (t : IsTree objects live next root) (up : ℕ) (name : Bytes) (q : Trail)
    (found : locate objects live root q ≡ some up) (free : entry_of (objects up).kind name ≡ none)
    (same : (d : ℕ) (n : Bytes)
      → entry_of (objects' d).kind n ≡ (
          if up == d
          then if bytes_eq name n then some next else entry_of (objects d).kind n
          else if next == d
          then none
          else entry_of (objects d).kind n))
    (grown : (j : ℕ) → live' j ≡ (if next == j then true else live j)) where
  step-insert :
      (d : ℕ) (n : Bytes)
      → live d ≡ true
      → step objects' live' d n
        ≡ (if up == d && bytes_eq name n then some next else step objects live d n)
  unfolding step
  step-insert d n l = elim (Option-cases (entry_of (objects d).kind n)) [
    | inl e ↦ ground (arith, e, same d n, grown next, t.fresh d l, bytes_eq_iff name n)
    | inr (c, e) ↦ ground (
      arith,
      e,
      same d n,
      grown next,
      grown c,
      t.fresh d l,
      t.child_live d n c l e,
      bytes_eq_iff name n,
      free,
    )
  ]

  step-insert_new : (n : Bytes) → step objects' live' next n ≡ none
  unfolding step
  step-insert_new n = ground (arith, same next n, t.fresh up (locate-live t q up found))

  free_path : locate objects live root (name ∷ q) ≡ none
  unfolding locate step
  free_path = ground (arith, found, free)

  -- The new node is found under its path, and every other path leads where it led.
  pub locate-insert :
      (p : Trail)
      → locate objects' live' root p
        ≡ (if trail_eq p (name ∷ q) then some next else locate objects live root p)
  unfolding locate
  locate-insert [] = ground (arith, trail_eq_iff [] (name ∷ q))
  locate-insert (n ∷ p) = elim (Option-cases (locate objects live root p)) [
    | inl e ↦ ground (
      arith,
      e,
      locate-insert p,
      step-insert_new n,
      found,
      free_path,
      trail_eq_iff p (name ∷ q),
      trail_eq_iff (n ∷ p) (name ∷ q),
    )
    | inr (d, e) ↦ ground (
      arith,
      e,
      locate-insert p,
      step-insert d n (locate-live t p d e),
      found,
      free_path,
      trail_eq_iff p (name ∷ q),
      trail_eq_iff (n ∷ p) (name ∷ q),
      bytes_eq_iff name n,
      locate_unique t p q d e,
    )
  ]

module _ (objects objects' : ℕ → Node) (live live' : ℕ → Bool) (next root : ℕ)
    (t : IsTree objects live next root) (up gone : ℕ) (name : Bytes) (q : Trail)
    (found : locate objects live root q ≡ some up)
    (named : entry_of (objects up).kind name ≡ some gone)
    (gone_empty : (n : Bytes) → entry_of (objects gone).kind n ≡ none)
    (same : (d : ℕ) (n : Bytes)
      → entry_of (objects' d).kind n
        ≡ (if up == d && bytes_eq name n then none else entry_of (objects d).kind n))
    (shrunk : (j : ℕ) → live' j ≡ (if gone == j then false else live j)) where
  gone_path : locate objects live root (name ∷ q) ≡ some gone
  unfolding locate step
  gone_path =
      ground (arith, found, named, t.child_live up name gone (locate-live t q up found) named)

  step-remove :
      (d : ℕ) (n : Bytes)
      → live d ≡ true
      → step objects' live' d n
        ≡ (if up == d && bytes_eq name n then none else step objects live d n)
  unfolding step
  step-remove d n l = elim (Option-cases (entry_of (objects d).kind n)) [
    | inl e ↦ ground (arith, e, same d n)
    | inr (c, e) ↦ ground (
      arith,
      e,
      same d n,
      shrunk c,
      named,
      bytes_eq_iff name n,
      t.child_live d n c l e,
      t.child_parent d n c l e,
      t.child_parent up name gone (locate-live t q up found) named,
      t.one_name up n name gone,
    )
  ]

  step-gone : (n : Bytes) → step objects live gone n ≡ none
  unfolding step
  step-gone n = ground (arith, gone_empty n)

  -- Nothing is found under the path that went, and every other path leads where it led.
  pub locate-remove :
      (p : Trail)
      → locate objects' live' root p
        ≡ (if trail_eq p (name ∷ q) then none else locate objects live root p)
  unfolding locate
  locate-remove [] = ground (arith, trail_eq_iff [] (name ∷ q))
  locate-remove (n ∷ p) = elim (Option-cases (locate objects live root p)) [
    | inl e ↦ ground (arith, e, locate-remove p)
    | inr (d, e) ↦ ground (
      arith,
      e,
      locate-remove p,
      step-remove d n (locate-live t p d e),
      found,
      gone_path,
      step-gone n,
      trail_eq_iff p (name ∷ q),
      trail_eq_iff (n ∷ p) (name ∷ q),
      bytes_eq_iff name n,
      locate_unique t p q d e,
    )
  ]
