-- ===== src/Entries/Order.antt =====
-- The order of a `BTreeMap`: the names grow from entry to entry, whatever is inserted or removed.
use sandbox_vfs.Base.{
  ℕ, ◌≡◌, refl, subst, true, false, some, [], ◌∷◌, arith, Bytes, bytes_eq, bytes_eq_iff, bytes_lt,
  Bool-cases, inl, inr,
}
use sandbox_vfs.Entries.{Entries, lookup, insert, remove}

pub bytes_lt_trans :
    (a b c : Bytes) → bytes_lt a b ≡ true → bytes_lt b c ≡ true → bytes_lt a c ≡ true
unfolding bytes_lt
bytes_lt_trans [] [] c h k = cc
bytes_lt_trans [] (y ∷ b) [] h k = cc
bytes_lt_trans [] (y ∷ b) (z ∷ c) h k = refl
bytes_lt_trans (x ∷ a) [] c h k = cc
bytes_lt_trans (x ∷ a) (y ∷ b) [] h k = cc
bytes_lt_trans (x ∷ a) (y ∷ b) (z ∷ c) h k = ground (arith, bytes_lt_trans a b c)

-- Of two different names one comes before the other.
bytes_lt_total : (a b : Bytes) → bytes_eq b a ≡ false → bytes_lt a b ≡ false → bytes_lt b a ≡ true
unfolding bytes_lt bytes_eq
bytes_lt_total [] [] h k = cc
bytes_lt_total [] (y ∷ b) h k = cc
bytes_lt_total (x ∷ a) [] h k = refl
bytes_lt_total (x ∷ a) (y ∷ b) h k = ground (arith, bytes_lt_total a b)

bytes_lt_irrefl : (a : Bytes) → bytes_lt a a ≡ false
unfolding bytes_lt
bytes_lt_irrefl [] = refl
bytes_lt_irrefl (x ∷ a) = ground (arith, bytes_lt_irrefl a)

-- All names of the map come after `k`.
abbrev pub AllAfter : Bytes → Entries → Type 0
AllAfter k [] = Unit {0}
AllAfter k ((j, v) ∷ m) = (bytes_lt k j ≡ true) × AllAfter k m

abbrev pub IsSorted : Entries → Type 0
IsSorted [] = Unit {0}
IsSorted ((k, v) ∷ m) = AllAfter k m × IsSorted m

AllAfter-trans : (i k : Bytes) (m : Entries) → bytes_lt i k ≡ true → AllAfter k m → AllAfter i m
AllAfter-trans i k [] lt all = tt
AllAfter-trans i k ((j, v) ∷ m) lt (h, all) =
    (bytes_lt_trans i k j lt h, AllAfter-trans i k m lt all)

AllAfter-insert :
    (i k : Bytes) (v : ℕ) (m : Entries)
    → bytes_lt i k ≡ true
    → AllAfter i m
    → AllAfter i (insert k v m)
unfolding insert
AllAfter-insert i k v [] lt all = (lt, tt)
AllAfter-insert i k v ((j, w) ∷ m) lt (h, all) = ground (arith, AllAfter-insert i k v m lt all)

pub insert-IsSorted : (k : Bytes) (v : ℕ) (m : Entries) → IsSorted m → IsSorted (insert k v m)
unfolding insert
insert-IsSorted k v [] s = (tt, tt)
insert-IsSorted k v ((j, w) ∷ m) (all, s) = elim (Bool-cases (bytes_eq j k)) [
  | inl e ↦ rw e (subst (λ n. AllAfter n m) ((bytes_eq_iff j k).0 e) all, s)
  | inr e ↦ elim (Bool-cases (bytes_lt k j)) [
    | inl lt ↦ rw (e, lt) ((lt, AllAfter-trans k j m lt all), (all, s))
    | inr ge ↦
        rw (e, ge) (AllAfter-insert j k v m (bytes_lt_total k j e ge) all, insert-IsSorted k v m s)
  ]
]

AllAfter-remove : (i k : Bytes) (m : Entries) → AllAfter i m → AllAfter i (remove k m)
unfolding remove
AllAfter-remove i k [] all = tt
AllAfter-remove i k ((j, w) ∷ m) (h, all) = ground (arith, AllAfter-remove i k m all)

pub remove-IsSorted : (k : Bytes) (m : Entries) → IsSorted m → IsSorted (remove k m)
unfolding remove
remove-IsSorted k [] s = tt
remove-IsSorted k ((j, w) ∷ m) (all, s) = elim (Bool-cases (bytes_eq j k)) [
  | inl e ↦ rw e (remove-IsSorted k m s)
  | inr e ↦ rw e (AllAfter-remove j k m all, remove-IsSorted k m s)
]

-- What holds of each name and number of a map.
abbrev pub Each : (Bytes → ℕ → Type 0) → Entries → Type 0
Each P [] = Unit {0}
Each P ((k, v) ∷ m) = P k v × Each P m

pub Each-map :
    (P Q : Bytes → ℕ → Type 0) (m : Entries)
    → ((k : Bytes) (v : ℕ) → P k v → Q k v)
    → Each P m
    → Each Q m
Each-map P Q [] f h = tt
Each-map P Q ((k, v) ∷ m) f (p, h) = (f k v p, Each-map P Q m f h)

after_differs : (k j : Bytes) → bytes_lt k j ≡ true → bytes_eq k j ≡ false
after_differs k j lt = elim (Bool-cases (bytes_eq k j)) [
  | inr e ↦ e
  | inl e ↦
      let same = (bytes_eq_iff k j).0 e in
      absurd (cc (bytes_lt_irrefl j, subst (λ n. bytes_lt n j ≡ true) same lt))
]

Each-found_after :
    (k : Bytes) (w : ℕ) (m n : Entries)
    → AllAfter k m
    → Each (λ j v. lookup j n ≡ some v) m
    → Each (λ j v. lookup j ((k, w) ∷ n) ≡ some v) m
unfolding lookup
Each-found_after k w [] n all h = tt
Each-found_after k w ((j, v) ∷ m) n (lt, all) (e, h) =
    (rw (after_differs k j lt) e, Each-found_after k w m n all h)

-- In a sorted map each entry is found under its name.
pub IsSorted-found : (m : Entries) → IsSorted m → Each (λ k v. lookup k m ≡ some v) m
unfolding lookup
IsSorted-found [] s = tt
IsSorted-found ((k, v) ∷ m) (all, s) =
    (rw ((bytes_eq_iff k k).1 refl) refl, Each-found_after k v m m all (IsSorted-found m s))
