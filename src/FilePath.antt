-- ===== src/FilePath.antt =====
-- `std::path::Path` on Unix, seen through `Path::components()`: the standard library defines
-- equality, hashing, `parent`, `file_name`, `starts_with` and `strip_prefix` on that view.
-- A path is absolute when its first component is the root.
pub mod Laws
pub mod Normal
pub mod Below
pub mod Text
use sandbox_vfs.Base.{
  ℕ, zero, suc, ◌≡◌, ◌↔◌, Bool, true, false, ◌&&◌, Option, none, some, List, [], ◌∷◌, ◌++◌, arith,
  Bytes, bytes_eq, bytes_eq_iff, length, if◌then◌else◌,
}
use mathlib.Core.Option

-- std::path::Component, without the Windows-only `Prefix`
pub data Component : Type 0 where
  root_dir cur_dir parent_dir : Component
  normal : Bytes → Component

abbrev pub FilePath : Type 0
FilePath = List Component

-- Path::new("/")
abbrev pub root_path : FilePath
root_path = root_dir ∷ []

unfoldable pub component_eq : Component → Component → Bool
component_eq root_dir root_dir = true
component_eq cur_dir cur_dir = true
component_eq parent_dir parent_dir = true
component_eq (normal a) (normal b) = bytes_eq a b
component_eq _ _ = false

unfoldable pub path_eq : FilePath → FilePath → Bool
unfolding component_eq
path_eq [] [] = true
path_eq (a ∷ p) (b ∷ q) = component_eq a b && path_eq p q
path_eq _ _ = false

-- has_root, which is all there is to it on Unix
abbrev pub is_absolute : FilePath → Bool
is_absolute (root_dir ∷ p) = true
is_absolute _ = false

-- A `.` is kept by the parser only in front of a relative path.
abbrev pub without_cur_dir : FilePath → FilePath
without_cur_dir (cur_dir ∷ p) = p
without_cur_dir p = p

unfoldable pub join : FilePath → FilePath → FilePath
join [] q = q
join (c ∷ p) q = if is_absolute q then q else (c ∷ p) ++ without_cur_dir q

unfoldable pub parent : FilePath → Option FilePath
parent [] = none
parent (root_dir ∷ []) = none
parent (c ∷ []) = some []
parent (c ∷ d ∷ p) = Option.map (λ q. c ∷ q) (parent (d ∷ p))

unfoldable pub file_name : FilePath → Option Bytes
file_name [] = none
file_name (normal name ∷ []) = some name
file_name (c ∷ []) = none
file_name (c ∷ d ∷ p) = file_name (d ∷ p)

unfoldable pub strip_prefix : FilePath → FilePath → Option FilePath
unfolding component_eq
strip_prefix p [] = some p
strip_prefix [] (b ∷ q) = none
strip_prefix (a ∷ p) (b ∷ q) = if component_eq a b then strip_prefix p q else none

unfoldable pub starts_with : FilePath → FilePath → Bool
unfolding component_eq
starts_with p [] = true
starts_with [] (b ∷ q) = false
starts_with (a ∷ p) (b ∷ q) = component_eq a b && starts_with p q

-- Path::ancestors: the path, its parent, and so on; the fuel bounds the number of steps.
unfoldable pub parents_from : ℕ → FilePath → List FilePath
parents_from zero p = p ∷ []
parents_from (suc fuel) p = p ∷ (elim (parent p) [ none ↦ [] | some q ↦ parents_from fuel q ])

unfoldable pub ancestors : FilePath → List FilePath
unfolding parents_from
ancestors p = parents_from (length p) p
