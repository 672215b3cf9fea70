-- ===== src/Base/Effects.antt =====
-- Code that changes a state and may panic. A panic unwinds with the state as it is then.
use mathlib.Core.Bool.{Bool, true, false}
use sandbox_vfs.Base.Tests.{if◌then◌else◌}
use mathlib.Core.Path.{◌≡◌, refl, sym, ap, subst}

pub data Outcome (S A : Type 0) : Type 0 where
  returned : A → S → Outcome S A
  panicked : S → Outcome S A

abbrev pub Action : Type 0 → Type 0 → Type 0
Action S A = S → Outcome S A

module _ {S A : Type 0} where
  abbrev pub pure : A → Action S A
  pure a s = returned a s

  abbrev pub panic : Action S A
  panic s = panicked s

  -- Code with no panic in it.
  abbrev pub total : (S → A × S) → Action S A
  total f s = returned (f s).0 (f s).1

  -- The state after the action, panic or not.
  abbrev pub after : Outcome S A → S
  after (returned a s) = s
  after (panicked s) = s

module _ {S A B : Type 0} where
  infixl 5 ◌>>=◌ ◌>>◌
  abbrev pub ◌>>=◌ : Action S A → (A → Action S B) → Action S B
  ◌>>=◌ m f s = elim (m s) [ returned a s' ↦ f a s' | panicked s' ↦ panicked s' ]

  abbrev pub ◌>>◌ : Action S A → Action S B → Action S B
  m >> k = m >>= λ _. k

-- assert!(b)
abbrev pub assert : {S : Type 0} → Bool → Action S (Unit {0})
assert true s = returned tt s
assert false s = panicked s

-- What holds after `m` is what `f` starts from; a panic of `m` skips `f`.
module _ {S A B : Type 0} (R : Outcome S A → Type 0) (Q : Outcome S B → Type 0)
    (f : A → Action S B) where
  pub outcome_then :
      (o : Outcome S A)
      → R o
      → ((a : A) (s : S) → R (returned a s) → Q (f a s))
      → ((s : S) → R (panicked s) → Q (panicked s))
      → Q (elim o [ returned a s ↦ f a s | panicked s ↦ panicked s ])
  outcome_then (returned a s) r step fail = step a s r
  outcome_then (panicked s) r step fail = fail s r

-- The same for an `m` that changes nothing.
module _ {S A : Type 0} (s : S) (R : A → Type 0) where
  abbrev pub Kept : Outcome S A → Type 0
  Kept (returned a s') = (s' ≡ s) × R a
  Kept (panicked s') = s' ≡ s

  pub kept_then :
      {B : Type 0} (Q : Outcome S B → Type 0) (f : A → Action S B) (o : Outcome S A)
      → Kept o
      → ((a : A) → R a → Q (f a s))
      → Q (panicked s)
      → Q (elim o [ returned a s' ↦ f a s' | panicked s' ↦ panicked s' ])
  kept_then Q f (returned a s') (same, r) step fail = subst (λ t. Q (f a t)) (sym same) (step a r)
  kept_then Q f (panicked s') same step fail = subst (λ t. Q (panicked t)) (sym same) fail

-- An invariant holds after an action that starts where it holds, panic or not.
module _ {S : Type 0} (I : S → Type 0) where
  abbrev pub Preserves : {A : Type 0} → Action S A → Type 0
  Preserves m = (s : S) → I s → I (after (m s))

  pub Preserves-pure : {A : Type 0} (a : A) → Preserves (pure a)
  Preserves-pure a s i = i

  pub Preserves-bind :
      {A B : Type 0} (m : Action S A) (f : A → Action S B)
      → Preserves m
      → ((a : A) → Preserves (f a))
      → Preserves (m >>= f)
  Preserves-bind {A} {B} m f first next s i =
      outcome_then (λ o. I (after o)) (λ o. I (after o)) f (m s) (first s i)
        (λ a s' i'. next a s' i') (λ s' i'. i')

  pub Preserves-if :
      {A : Type 0} (b : Bool) (m k : Action S A)
      → Preserves m
      → Preserves k
      → Preserves (if b then m else k)
  Preserves-if true m k keeps keeps' = keeps
  Preserves-if false m k keeps keeps' = keeps'

pub bind_returned :
    {S A B : Type 0} (m : Action S A) (f : A → Action S B) (s s' : S) (a : A)
    → m s ≡ returned a s'
    → (m >>= f) s ≡ f a s'
bind_returned m f s s' a e = ap (λ o. elim o [ returned b t ↦ f b t | panicked t ↦ panicked t ]) e

-- A chain that returned: what the first action gave, and what came of it.
module _ {S A B : Type 0} (f : A → Action S B) (b : B) (t : S) where
  outcome_inversion :
      (o : Outcome S A)
      → (elim o [ returned a s ↦ f a s | panicked s ↦ panicked s ]) ≡ returned b t
      → (a : A) × (s : S) × (o ≡ returned a s) × (f a s ≡ returned b t)
  outcome_inversion (returned a s) e = (a, s, refl, e)
  outcome_inversion (panicked s) e = cc

  pub bind_inversion :
      (m : Action S A) (s : S)
      → (m >>= f) s ≡ returned b t
      → (a : A) × (s' : S) × (m s ≡ returned a s') × (f a s' ≡ returned b t)
  bind_inversion m s e = outcome_inversion (m s) e
