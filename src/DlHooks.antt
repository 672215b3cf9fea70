-- ===== src/DlHooks.antt =====
-- src/dlhooks.rs: the look-up of the function behind a hook, whose result is kept. What `dlsym` finds
-- is a parameter, with 0 for the null pointer; the state is the `OnceLock` of one hook.
use sandbox_vfs.Base.{
  ℕ, ◌≡◌, refl, false, Option, none, some, arith, Bytes, ◌==◌, if◌then◌else◌, Bool-cases, inl, inr,
  Action, Outcome, returned, panicked, pure, panic,
}

unfoldable pub dlsym_next : {S : Type 0} → (Bytes → ℕ) → Bytes → Action S ℕ
dlsym_next dlsym symbol = if dlsym symbol == 0 then panic else pure (dlsym symbol)

-- REAL.get_or_init(..), which keeps nothing when the look-up panics
unfoldable pub get_or_init : Action (Option ℕ) ℕ → Action (Option ℕ) ℕ
get_or_init init (some real) = returned real (some real)
get_or_init init none = elim (init none) [
  | returned ptr s ↦ returned ptr (some ptr)
  | panicked s ↦ panicked s
]

unfoldable pub orig : (Bytes → ℕ) → Bytes → Action (Option ℕ) ℕ
unfolding dlsym_next get_or_init
orig dlsym symbol = get_or_init (dlsym_next dlsym symbol)

-- A function that was found, and that a later look-up gives again; or there is none, and nothing is
-- kept.
abbrev pub IsKept : (Bytes → ℕ) → (Bytes → ℕ) → Bytes → Outcome (Option ℕ) ℕ → Type 0
IsKept dlsym later symbol (returned ptr s) =
    (dlsym symbol ≡ ptr) × ((ptr == 0) ≡ false) × (orig later symbol s ≡ returned ptr s)
IsKept dlsym later symbol (panicked s) = (dlsym symbol ≡ 0) × (s ≡ none)

-- The first look-up of a function gives what `dlsym` finds, which is not null, and every later one
-- gives the same, whatever `dlsym` would find then; or `dlsym` finds nothing, the look-up panics, and
-- nothing is kept.
pub orig-IsKept :
    (dlsym later : Bytes → ℕ) (symbol : Bytes) → IsKept dlsym later symbol (orig dlsym symbol none)
unfolding orig
orig-IsKept dlsym later symbol = elim (Bool-cases (dlsym symbol == 0)) [
  | inl e ↦ rw e (ground (arith, e), refl)
  | inr e ↦ rw e (refl, e, refl)
]
