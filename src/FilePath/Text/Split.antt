-- ===== src/FilePath/Text/Split.antt =====
-- What `split` and `components` make of names and separators.
use sandbox_vfs.Base.{
  ℕ, ◌≡◌, refl, false, ◌||◌, List, [], ◌∷◌, ◌++◌, arith, Bytes, bytes_eq, codes, ◌==◌, Bool-cases,
  inl, inr,
}
use sandbox_vfs.FilePath.{FilePath, normal}
use sandbox_vfs.FilePath.Text.{
  separator, push_byte, split, components, leading_dot, leading_root, parse,
}

-- The byte occurs nowhere.
abbrev pub Without : ℕ → Bytes → Type 0
Without b [] = Unit {0}
Without b (c ∷ s) = ((c == b) ≡ false) × Without b s

-- What may stand between two separators as the name of a file.
abbrev pub IsName : Bytes → Type 0
IsName name =
    Without separator name
    × (bytes_eq name [] ≡ false)
    × (bytes_eq name (codes ".") ≡ false)
    × (bytes_eq name (codes "..") ≡ false)

-- Every name of the path is so.
abbrev pub AllNamed : (Bytes → Type 0) → FilePath → Type 0
AllNamed P [] = Unit {0}
AllNamed P (normal name ∷ p) = P name × AllNamed P p
AllNamed P (c ∷ p) = AllNamed P p

pub split-name : (name : Bytes) → Without separator name → split name ≡ name ∷ []
unfolding split
split-name [] w = refl
split-name (c ∷ s) (w, ws) = rw (w, split-name s ws) refl

pub split-name_separator :
    (name s : Bytes) → Without separator name → split (name ++ separator ∷ s) ≡ name ∷ split s
unfolding split
split-name_separator [] s w = refl
split-name_separator (c ∷ name) s (w, ws) = rw (w, split-name_separator name s ws) refl

pub components-name :
    (name : Bytes) (pieces : List Bytes)
    → IsName name
    → components (name ∷ pieces) ≡ normal name ∷ components pieces
unfolding components
components-name name pieces (w, nonempty, not_dot, not_dots) = rw (nonempty, not_dot, not_dots) refl

abbrev pub AllWithout : ℕ → List Bytes → Type 0
AllWithout b [] = Unit {0}
AllWithout b (piece ∷ pieces) = Without b piece × AllWithout b pieces

push_byte-AllWithout :
    (b c : ℕ) (pieces : List Bytes)
    → (c == b) ≡ false
    → AllWithout b pieces
    → AllWithout b (push_byte c pieces)
push_byte-AllWithout b c [] e a = ((e, tt), tt)
push_byte-AllWithout b c (piece ∷ pieces) e (w, a) = ((e, w), a)

split-AllWithout-separator : (s : Bytes) → AllWithout separator (split s)
unfolding split
split-AllWithout-separator [] = (tt, tt)
split-AllWithout-separator (c ∷ s) = elim (Bool-cases (c == separator)) [
  | inl e ↦ rw e (tt, split-AllWithout-separator s)
  | inr e ↦ rw e (push_byte-AllWithout separator c (split s) e (split-AllWithout-separator s))
]

split-AllWithout : (b : ℕ) (s : Bytes) → Without b s → AllWithout b (split s)
unfolding split
split-AllWithout b [] w = (tt, tt)
split-AllWithout b (c ∷ s) (e, w) = elim (Bool-cases (c == separator)) [
  | inl f ↦ rw f (tt, split-AllWithout b s w)
  | inr f ↦ rw f (push_byte-AllWithout b c (split s) e (split-AllWithout b s w))
]

components-IsName :
    (pieces : List Bytes) → AllWithout separator pieces → AllNamed IsName (components pieces)
unfolding components
components-IsName [] a = tt
components-IsName (piece ∷ pieces) (w, a) =
    elim (Bool-cases (bytes_eq piece [] || bytes_eq piece (codes "."))) [
      | inl e ↦ rw e (components-IsName pieces a)
      | inr e ↦ elim (Bool-cases (bytes_eq piece (codes ".."))) [
        | inl f ↦ rw (e, f) (components-IsName pieces a)
        | inr f ↦
            rw (e, f) ((w, ground (arith, e), ground (arith, e), f), components-IsName pieces a)
      ]
    ]

components-Without :
    (b : ℕ) (pieces : List Bytes) → AllWithout b pieces → AllNamed (Without b) (components pieces)
unfolding components
components-Without b [] a = tt
components-Without b (piece ∷ pieces) (w, a) =
    elim (Bool-cases (bytes_eq piece [] || bytes_eq piece (codes "."))) [
      | inl e ↦ rw e (components-Without b pieces a)
      | inr e ↦ elim (Bool-cases (bytes_eq piece (codes ".."))) [
        | inl f ↦ rw (e, f) (components-Without b pieces a)
        | inr f ↦ rw (e, f) (w, components-Without b pieces a)
      ]
    ]

leading_dot-AllNamed :
    (P : Bytes → Type 0) (pieces : List Bytes) (p : FilePath)
    → AllNamed P p
    → AllNamed P (leading_dot pieces ++ p)
leading_dot-AllNamed P [] p a = a
leading_dot-AllNamed P (piece ∷ pieces) p a = elim (Bool-cases (bytes_eq piece (codes "."))) [
  | inl e ↦ rw e a
  | inr e ↦ rw e a
]

parse_cases :
    (P : Bytes → Type 0) (s : Bytes) → AllNamed P (components (split s)) → AllNamed P (parse s)
unfolding parse
parse_cases P s a = elim (Bool-cases (leading_root s)) [
  | inl e ↦ rw e a
  | inr e ↦ rw e (leading_dot-AllNamed P (split s) (components (split s)) a)
]

-- The names of a path that was read are names of files.
pub parse-IsName : (s : Bytes) → AllNamed IsName (parse s)
parse-IsName s = parse_cases IsName s (components-IsName (split s) (split-AllWithout-separator s))

-- A byte that the text does not have is in no name.
pub parse-Without : (b : ℕ) (s : Bytes) → Without b s → AllNamed (Without b) (parse s)
parse-Without b s w =
    parse_cases (Without b) s (components-Without b (split s) (split-AllWithout b s w))
