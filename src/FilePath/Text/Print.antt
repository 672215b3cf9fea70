-- ===== src/FilePath/Text/Print.antt =====
-- A path that is printed and read is the same path.
use sandbox_vfs.Base.{ℕ, ◌≡◌, refl, ap, ◌∙◌, false, [], ◌∷◌, ◌++◌, Bytes, bytes_eq, ◌==◌}
use sandbox_vfs.FilePath.{FilePath, root_dir, cur_dir, parent_dir, normal}
use sandbox_vfs.FilePath.Normal.{AllNames, IsNormal}
use sandbox_vfs.FilePath.Text.{separator, split, components, parse, print, print_relative}
use sandbox_vfs.FilePath.Text.Split.{
  AllNamed, IsName, Without, split-name, split-name_separator, components-name,
}

components-print_relative :
    (p : FilePath) → AllNames p → AllNamed IsName p → components (split (print_relative p)) ≡ p
unfolding print_relative bytes_eq
components-print_relative [] a n = unfold split components in refl
components-print_relative (normal name ∷ []) a (is, n) =
    ap components (split-name name is.0) ∙ components-name name [] is ∙ unfold components in refl
components-print_relative (normal name ∷ normal next ∷ p) a (is, n) =
    ap components (split-name_separator name (print_relative (normal next ∷ p)) is.0)
    ∙ components-name name (split (print_relative (normal next ∷ p))) is
    ∙ ap (λ q. normal name ∷ q) (components-print_relative (normal next ∷ p) a n)
components-print_relative (normal name ∷ root_dir ∷ p) a n = absurd a
components-print_relative (normal name ∷ cur_dir ∷ p) a n = absurd a
components-print_relative (normal name ∷ parent_dir ∷ p) a n = absurd a
components-print_relative (root_dir ∷ p) a n = absurd a
components-print_relative (cur_dir ∷ p) a n = absurd a
components-print_relative (parent_dir ∷ p) a n = absurd a

parse-root : (s : Bytes) → parse (separator ∷ s) ≡ root_dir ∷ components (split s)
unfolding parse bytes_eq
parse-root s = refl

print-root : (p : FilePath) → print (root_dir ∷ p) ≡ separator ∷ print_relative p
unfolding print
print-root p = refl

-- A normal path is read from its own bytes.
pub parse-print : (p : FilePath) → IsNormal p → AllNamed IsName p → parse (print p) ≡ p
parse-print (root_dir ∷ p) a n =
    ap parse (print-root p)
    ∙ parse-root (print_relative p)
    ∙ ap (λ q. root_dir ∷ q) (components-print_relative p a n)
parse-print [] a n = absurd a
parse-print (cur_dir ∷ p) a n = absurd a
parse-print (parent_dir ∷ p) a n = absurd a
parse-print (normal name ∷ p) a n = absurd a

Without-append : (b : ℕ) (s t : Bytes) → Without b s → Without b t → Without b (s ++ t)
Without-append b [] t u v = v
Without-append b (c ∷ s) t (e, u) v = (e, Without-append b s t u v)

print_relative-Without :
    (b : ℕ) (p : FilePath)
    → (separator == b) ≡ false
    → AllNames p
    → AllNamed (Without b) p
    → Without b (print_relative p)
unfolding print_relative
print_relative-Without b [] e a n = tt
print_relative-Without b (normal name ∷ []) e a (w, n) = w
print_relative-Without b (normal name ∷ normal next ∷ p) e a (w, n) =
    Without-append b name (separator ∷ print_relative (normal next ∷ p)) w
      (e, print_relative-Without b (normal next ∷ p) e a n)
print_relative-Without b (normal name ∷ root_dir ∷ p) e a n = absurd a
print_relative-Without b (normal name ∷ cur_dir ∷ p) e a n = absurd a
print_relative-Without b (normal name ∷ parent_dir ∷ p) e a n = absurd a
print_relative-Without b (root_dir ∷ p) e a n = absurd a
print_relative-Without b (cur_dir ∷ p) e a n = absurd a
print_relative-Without b (parent_dir ∷ p) e a n = absurd a

-- A byte that is no separator and in no name is not in the text of a normal path.
pub print-Without :
    (b : ℕ) (p : FilePath)
    → (separator == b) ≡ false
    → IsNormal p
    → AllNamed (Without b) p
    → Without b (print p)
unfolding print
print-Without b (root_dir ∷ p) e a n = (e, print_relative-Without b p e a n)
print-Without b [] e a n = absurd a
print-Without b (cur_dir ∷ p) e a n = absurd a
print-Without b (parent_dir ∷ p) e a n = absurd a
print-Without b (normal name ∷ p) e a n = absurd a
