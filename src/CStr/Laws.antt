-- ===== src/CStr/Laws.antt =====
-- Paths that cross the C boundary.
use sandbox_vfs.Base.{
  ◌≡◌, refl, ap, ◌∙◌, true, false, [], ◌∷◌, ◌++◌, Bytes, take, ◌==◌, Bool-cases, inl, inr, returned,
}
use sandbox_vfs.FilePath.{FilePath}
use sandbox_vfs.FilePath.Normal.{IsNormal}
use sandbox_vfs.FilePath.Text.{parse, print}
use sandbox_vfs.FilePath.Text.Split.{AllNamed, IsName, Without, parse-IsName, parse-Without}
use sandbox_vfs.FilePath.Text.Print.{parse-print, print-Without}
use sandbox_vfs.CStr.{strlen, from_cstr, ends_with_nul, has_nul, path_to_cstring}

-- Every name is the name of a file, without a nul in it.
abbrev pub IsWellNamed : FilePath → Type 0
IsWellNamed p = AllNamed IsName p × AllNamed (Without 0) p

take-strlen-Without : (s : Bytes) → Without 0 (take (strlen s) s)
unfolding strlen
take-strlen-Without [] = tt
take-strlen-Without (c ∷ s) = elim (Bool-cases (c == 0)) [
  | inl e ↦ rw e tt
  | inr e ↦ rw e (e, take-strlen-Without s)
]

-- A path that a caller passes has proper names, without a nul or a separator in them, whatever bytes
-- the caller passes.
pub from_cstr-IsWellNamed : (value : Bytes) → IsWellNamed (from_cstr value)
unfolding from_cstr
from_cstr-IsWellNamed value = (
  parse-IsName (take (strlen value) value),
  parse-Without 0 (take (strlen value) value) (take-strlen-Without value),
)

pub take-strlen : (s rest : Bytes) → Without 0 s → take (strlen (s ++ 0 ∷ rest)) (s ++ 0 ∷ rest) ≡ s
unfolding strlen
take-strlen [] rest w = refl
take-strlen (c ∷ s) rest (e, w) = rw e (ap (λ x. c ∷ x) (take-strlen s rest w))

not-has_nul : (s : Bytes) → Without 0 s → has_nul s ≡ false
unfolding has_nul
not-has_nul [] w = refl
not-has_nul (c ∷ s) (e, w) = rw (e, not-has_nul s w) refl

pub ends_with_nul-append : (s : Bytes) → ends_with_nul (s ++ 0 ∷ []) ≡ true
unfolding ends_with_nul
ends_with_nul-append [] = refl
ends_with_nul-append (c ∷ []) = refl
ends_with_nul-append (c ∷ d ∷ s) = ends_with_nul-append (d ∷ s)

module _ (p : FilePath) (normal : IsNormal p) (named : IsWellNamed p) where
  pub no_nul : Without 0 (print p)
  no_nul = print-Without 0 p refl normal named.1

  -- A normal path with proper names, written as a C string with a nul and any bytes behind it, is read
  -- as itself.
  pub from_cstr-print : (rest : Bytes) → from_cstr (print p ++ 0 ∷ rest) ≡ p
  unfolding from_cstr
  from_cstr-print rest = ap parse (take-strlen (print p) rest no_nul) ∙ parse-print p normal named.0

  pub path_to_cstring-print :
      {S : Type 0} (s : S) → path_to_cstring p s ≡ returned (print p ++ 0 ∷ []) s
  unfolding path_to_cstring
  path_to_cstring-print s = rw (not-has_nul (print p) no_nul) refl
