-- ===== src/FilePath/Laws.antt =====
-- Laws of paths that the components share.
use sandbox_vfs.Base.{◌≡◌, refl, ◌↔◌, true, some, [], ◌∷◌, ◌++◌, arith, Bytes, bytes_eq_iff}
use sandbox_vfs.FilePath.{
  Component, root_dir, cur_dir, parent_dir, normal, FilePath, component_eq, path_eq, parent,
  file_name, strip_prefix, starts_with,
}

pub component_eq_iff : (a b : Component) → (component_eq a b ≡ true) ↔ (a ≡ b)
unfolding component_eq
component_eq_iff (normal a) (normal b) = ground (arith, bytes_eq_iff a b)
component_eq_iff root_dir root_dir = ground arith
component_eq_iff cur_dir cur_dir = ground arith
component_eq_iff parent_dir parent_dir = ground arith
component_eq_iff _ _ = ground arith

pub path_eq_iff : (p q : FilePath) → (path_eq p q ≡ true) ↔ (p ≡ q)
unfolding path_eq
path_eq_iff [] [] = ground arith
path_eq_iff (a ∷ p) (b ∷ q) = ground (arith, component_eq_iff a b, path_eq_iff p q)
path_eq_iff [] (b ∷ q) = ground arith
path_eq_iff (a ∷ p) [] = ground arith

-- The paths with a given parent and file name are those with that name appended.
pub parent-append_normal : (p : FilePath) (n : Bytes) → parent (p ++ normal n ∷ []) ≡ some p
unfolding parent
parent-append_normal [] n = refl
parent-append_normal (root_dir ∷ []) n = refl
parent-append_normal (cur_dir ∷ []) n = refl
parent-append_normal (parent_dir ∷ []) n = refl
parent-append_normal (normal m ∷ []) n = refl
parent-append_normal (root_dir ∷ d ∷ p) n = rw (parent-append_normal (d ∷ p) n)
parent-append_normal (cur_dir ∷ d ∷ p) n = rw (parent-append_normal (d ∷ p) n)
parent-append_normal (parent_dir ∷ d ∷ p) n = rw (parent-append_normal (d ∷ p) n)
parent-append_normal (normal m ∷ d ∷ p) n = rw (parent-append_normal (d ∷ p) n)

pub file_name-append_normal : (p : FilePath) (n : Bytes) → file_name (p ++ normal n ∷ []) ≡ some n
unfolding file_name
file_name-append_normal [] n = refl
file_name-append_normal (c ∷ []) n = refl
file_name-append_normal (c ∷ d ∷ p) n = file_name-append_normal (d ∷ p) n

pub strip_prefix_sound : (p q r : FilePath) → strip_prefix p q ≡ some r → p ≡ q ++ r
unfolding strip_prefix
strip_prefix_sound p [] r h = ground arith
strip_prefix_sound [] (b ∷ q) r h = cc
strip_prefix_sound (a ∷ p) (b ∷ q) r h =
    ground (arith, component_eq_iff a b, strip_prefix_sound p q r)

pub strip_prefix-append : (p q : FilePath) → strip_prefix (p ++ q) p ≡ some q
unfolding strip_prefix
strip_prefix-append [] q = refl
strip_prefix-append (c ∷ p) q = ground (arith, component_eq_iff c c, strip_prefix-append p q)

pub starts_with_iff : (p q : FilePath) → (starts_with p q ≡ true) ↔ ((r : FilePath) × (p ≡ q ++ r))
unfolding starts_with
starts_with_iff p [] = (λ _. (p, refl), λ _. refl)
starts_with_iff [] (b ∷ q) = (λ h. cc, λ (r, e). cc)
starts_with_iff (a ∷ p) (b ∷ q) = (
  λ h.
      let (r, e) = (starts_with_iff p q).0 (ground arith) in
      (r, ground (arith, component_eq_iff a b)),
  λ (r, e). ground (arith, component_eq_iff a b, (starts_with_iff p q).1 (r, ground arith)),
)
