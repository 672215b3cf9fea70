-- ===== src/RootVfs/Mounts.antt =====
-- The loop of `absolute_path_to_fs` in src/root_vfs.rs: the longest mount on the way to a path.
use sandbox_vfs.Base.{
  ℕ, zero, suc, ◌≤◌, ◌≡◌, ◌≢◌, refl, sym, ap, ◌∙◌, subst, true, Option, none, some, List, [], ◌∷◌,
  ◌++◌, Bytes, arith, length, length-append, append_assoc, Option-cases, inl, inr,
}
use sandbox_vfs.FilePath.{
  FilePath, root_dir, cur_dir, parent_dir, normal, root_path, parent, join, starts_with,
  parents_from,
}
use sandbox_vfs.FilePath.Laws.{path_eq_iff, parent-append_normal, strip_prefix-append}
use sandbox_vfs.FilePath.Normal.{AllNames, IsNormal, untrail, untrail-append}
use sandbox_vfs.RootVfs.{find_mount, select_mount}
use sandbox_vfs.RootVfs.Normalize.{untrail-cons, IsNormal-untrail}

abbrev pub Trail : Type 0
Trail = List Bytes

abbrev pub at : Trail → FilePath
at q = root_dir ∷ untrail q

-- The key `m` is a mount other than the root.
abbrev pub IsMount : {A : Type 0} → List (FilePath × A) → FilePath → Type 0
IsMount mounts m = (m ≢ root_path) × (find_mount m mounts ≢ none)

-- The answer for a path: with a mount, the rest of the path below it, and no other mount on the way
-- is longer; without one, the path itself, and there is no mount on the way.
abbrev pub Nearest :
    {A : Type 0} → List (FilePath × A) → FilePath → Option FilePath × FilePath → Type 0
Nearest mounts path (none, rest) =
    (rest ≡ path) × ((m : FilePath) → IsNormal m → starts_with path m ≡ true → IsMount mounts m → ⊥)
Nearest mounts path (some found, rest) =
    IsMount mounts found
    × ((below : FilePath) × (path ≡ found ++ below) × (rest ≡ root_dir ∷ below))
    × ((m : FilePath)
        → IsNormal m
        → starts_with path m ≡ true
        → IsMount mounts m
        → length m ≤ length found)

abbrev pub Selects :
    {A : Type 0} → List (FilePath × A) → Trail → Trail → Option FilePath × FilePath → Type 0
Selects mounts t q (none, rest) =
    (rest ≡ at t) × ((x s : Trail) → q ≡ x ++ s → IsMount mounts (at s) → ⊥)
Selects mounts t q (some found, rest) =
    (s : Trail) × (found ≡ at s)
    × IsMount mounts (at s)
    × ((y : Trail) × (t ≡ y ++ s) × (rest ≡ at y))
    × ((x s' : Trail) → q ≡ x ++ s' → IsMount mounts (at s') → length s' ≤ length s)

join-names : (p : FilePath) → AllNames p → join root_path p ≡ root_dir ∷ p
unfolding join
join-names [] a = refl
join-names (normal n ∷ p) a = refl
join-names (root_dir ∷ p) a = absurd a
join-names (cur_dir ∷ p) a = absurd a
join-names (parent_dir ∷ p) a = absurd a

IsMount-above :
    {A : Type 0}
    → (mounts : List (FilePath × A)) (x s : Trail) → [] ≡ x ++ s
    → IsMount mounts (at s)
    → ⊥
IsMount-above mounts [] s e (below, _) = below (ap at (sym e))
IsMount-above mounts (n ∷ x) s e m = absurd (cc)

at-ne-root : (n : Bytes) (q : Trail) → at (n ∷ q) ≢ root_path
at-ne-root n q e = absurd (names_ne (untrail q) (sym (untrail-cons n q) ∙ ap without_root e))
  where
    without_root : FilePath → FilePath
    without_root [] = []
    without_root (c ∷ p) = p

    names_ne : (p : FilePath) → p ++ normal n ∷ [] ≢ []
    names_ne [] f = cc
    names_ne (c ∷ p) f = cc

parent-cons : (n : Bytes) (q : Trail) → parent (at (n ∷ q)) ≡ some (at q)
parent-cons n q = ap (λ p. parent (root_dir ∷ p)) (untrail-cons n q) ∙ parent-append_normal (at q) n

parents_from_step :
    (p q : FilePath) (fuel : ℕ)
    → parent p ≡ some q
    → parents_from (suc fuel) p ≡ p ∷ parents_from fuel q
unfolding parents_from
parents_from_step p q fuel e = ground (arith, e)

parents_from-root : (fuel : ℕ) → parents_from fuel root_path ≡ root_path ∷ []
unfolding parents_from parent
parents_from-root zero = refl
parents_from-root (suc fuel) = refl

-- A part of the names is all of them, or a part without the last name.
suffix_cases :
    (P : Trail → Type 0) (n : Bytes) (q x s : Trail)
    → n ∷ q ≡ x ++ s
    → P (n ∷ q)
    → ((x' : Trail) → q ≡ x' ++ s → P s)
    → P s
suffix_cases P n q [] s e here below = subst P e here
suffix_cases P n q (m ∷ x) s e here below = below x (cc)

module _ {A : Type 0} (mounts : List (FilePath × A)) where
  select-root : (path : FilePath) → select_mount mounts path (root_path ∷ []) ≡ (none, path)
  unfolding select_mount
  select-root path = ground (arith, path_eq_iff root_path root_path)

  select-free :
      (path m : FilePath) (ps : List FilePath)
      → find_mount m mounts ≡ none
      → select_mount mounts path (m ∷ ps) ≡ select_mount mounts path ps
  unfolding select_mount
  select-free path m ps free = ground (arith, free)

  select-mount :
      (path m below : FilePath) (ps : List FilePath) (fs : A)
      → find_mount m mounts ≡ some fs
      → m ≢ root_path
      → AllNames below
      → path ≡ m ++ below
      → select_mount mounts path (m ∷ ps) ≡ (some m, root_dir ∷ below)
  unfolding select_mount
  select-mount path m below ps fs found ne a e =
      ground
        (arith, found, path_eq_iff m root_path, e, strip_prefix-append m below, join-names below a)

  module _ (t : Trail) where
    Selects-root : Selects mounts t [] (none, at t)
    Selects-root = (refl, λ x s e m. IsMount-above mounts x s e m)

    Selects-free :
        (n : Bytes) (q : Trail) (r : Option FilePath × FilePath)
        → find_mount (at (n ∷ q)) mounts ≡ none
        → Selects mounts t q r
        → Selects mounts t (n ∷ q) r
    Selects-free n q (none, rest) free (same, above) = (
      same,
      λ x s e.
          suffix_cases (λ s. IsMount mounts (at s) → ⊥) n q x s e (λ m. m.1 free)
            (λ x' e'. above x' s e'),
    )
    Selects-free n q (some found, rest) free (s, is, mount, below, above) = (
      s,
      is,
      mount,
      below,
      λ x s' e.
          suffix_cases (λ s'. IsMount mounts (at s') → length s' ≤ length s) n q x s' e
            (λ m. absurd (m.1 free)) (λ x' e'. above x' s' e'),
    )

    Selects-mount :
        (n : Bytes) (q y : Trail)
        → IsMount mounts (at (n ∷ q))
        → t ≡ y ++ n ∷ q
        → Selects mounts t (n ∷ q) (some (at (n ∷ q)), at y)
    Selects-mount n q y mount e =
        (n ∷ q, refl, mount, (y, e, refl), λ x s f _. omega (arith, ap length f, length-append x s))

    pub select-names :
        (q : Trail) (fuel : ℕ) (y : Trail)
        → length q ≤ fuel
        → t ≡ y ++ q
        → Selects mounts t q (select_mount mounts (at t) (parents_from fuel (at q)))
    select-names [] fuel y enough e = rw (parents_from-root fuel, select-root (at t)) Selects-root
    select-names (n ∷ q) zero y enough e = absurd (omega arith)
    select-names (n ∷ q) (suc fuel) y enough e =
        rw (parents_from_step (at (n ∷ q)) (at q) fuel (parent-cons n q))
          (elim (Option-cases (find_mount (at (n ∷ q)) mounts)) [
            | inl free ↦ rw (select-free (at t) (at (n ∷ q)) (parents_from fuel (at q)) free) (
                Selects-free n q (select_mount mounts (at t) (parents_from fuel (at q))) free (
                  select-names q fuel (y ++ n ∷ []) (omega arith)
                    (e ∙ sym (append_assoc y (n ∷ []) q))))
            | inr (fs, found) ↦
                rw
                  (select-mount (at t) (at (n ∷ q)) (untrail y) (parents_from fuel (at q)) fs found
                    (at-ne-root n q) (IsNormal-untrail y)
                    (ap at e ∙ ap (◌∷◌ root_dir) (untrail-append y (n ∷ q))))
                  (Selects-mount n q y (at-ne-root n q, λ f. absurd (cc (f, found))) e)
          ])
