-- ===== src/RootVfs/Normalize.antt =====
-- `normalize_absolute` of src/root_vfs.rs against a stack of names.
use mathlib.Core.List.{reverse-cons, map-append}
use sandbox_vfs.Base.{◌≡◌, refl, sym, ap, ◌∙◌, List, [], ◌∷◌, ◌++◌, map, reverse, Bytes}
use sandbox_vfs.FilePath.{FilePath, root_dir, cur_dir, parent_dir, normal, root_path, parent, join}
use sandbox_vfs.FilePath.Laws.{parent-append_normal}
use sandbox_vfs.FilePath.Normal.{AllNames, IsNormal, trail_onto, untrail, untrail-trail}
use sandbox_vfs.RootVfs.{pop, normalize_from, normalize_absolute}

-- The directory one is in, its names with the last one first, after a walk along a path from `q`,
-- where `..` leaves a directory and does nothing at the root.
abbrev pub visit : List Bytes → FilePath → List Bytes
visit q [] = q
visit q (root_dir ∷ p) = visit q p
visit q (cur_dir ∷ p) = visit q p
visit [] (parent_dir ∷ p) = visit [] p
visit (n ∷ q) (parent_dir ∷ p) = visit q p
visit q (normal n ∷ p) = visit (n ∷ q) p

pub untrail-cons : (n : Bytes) (q : List Bytes) → untrail (n ∷ q) ≡ untrail q ++ normal n ∷ []
untrail-cons n q = simp (reverse-cons, map-append)

pop-root : pop root_path ≡ root_path
unfolding pop parent
pop-root = refl

pop-append : (p : FilePath) (n : Bytes) → pop (p ++ normal n ∷ []) ≡ p
unfolding pop
pop-append p n = rw (pop, parent-append_normal p n) refl

pop-cons : (n : Bytes) (q : List Bytes) → pop (root_dir ∷ untrail (n ∷ q)) ≡ root_dir ∷ untrail q
pop-cons n q = ap (λ p. pop (root_dir ∷ p)) (untrail-cons n q) ∙ pop-append (root_dir ∷ untrail q) n

join-names :
    (n : Bytes) (q : List Bytes)
    → join (root_dir ∷ untrail q) (normal n ∷ []) ≡ root_dir ∷ untrail (n ∷ q)
unfolding join
join-names n q = ap (◌∷◌ root_dir) (sym (untrail-cons n q))

normalize_from-visit :
    (q : List Bytes) (p : FilePath)
    → normalize_from (root_dir ∷ untrail q) p ≡ root_dir ∷ untrail (visit q p)
unfolding normalize_from
normalize_from-visit q [] = refl
normalize_from-visit q (root_dir ∷ p) = normalize_from-visit q p
normalize_from-visit q (cur_dir ∷ p) = normalize_from-visit q p
normalize_from-visit [] (parent_dir ∷ p) = rw pop-root (normalize_from-visit [] p)
normalize_from-visit (n ∷ q) (parent_dir ∷ p) = rw (pop-cons n q) (normalize_from-visit q p)
normalize_from-visit q (normal n ∷ p) = rw (join-names n q) (normalize_from-visit (n ∷ q) p)

-- A normalized path is the root, then the names of the directory that a walk along the path from
-- the root ends in.
pub normalize_absolute-visit :
    (p : FilePath) → normalize_absolute p ≡ root_dir ∷ untrail (visit [] p)
unfolding normalize_absolute
normalize_absolute-visit p = normalize_from-visit [] p

AllNames-map : (q : List Bytes) → AllNames (map normal q)
AllNames-map [] = tt
AllNames-map (n ∷ q) = AllNames-map q

pub IsNormal-untrail : (q : List Bytes) → IsNormal (root_dir ∷ untrail q)
IsNormal-untrail q = AllNames-map (reverse q)

-- Normalizing gives a normal path.
pub normalize_absolute-IsNormal : (p : FilePath) → IsNormal (normalize_absolute p)
normalize_absolute-IsNormal p = rw (normalize_absolute-visit p) (IsNormal-untrail (visit [] p))

visit-names : (q : List Bytes) (p : FilePath) → AllNames p → visit q p ≡ trail_onto q p
visit-names q [] a = refl
visit-names q (normal n ∷ p) a = visit-names (n ∷ q) p a
visit-names q (root_dir ∷ p) a = absurd a
visit-names q (cur_dir ∷ p) a = absurd a
visit-names q (parent_dir ∷ p) a = absurd a

-- A normal path is its own normal form.
pub normalize_absolute-normal : (p : FilePath) → IsNormal p → normalize_absolute p ≡ p
normalize_absolute-normal (root_dir ∷ p) a =
    normalize_absolute-visit (root_dir ∷ p)
    ∙ ap (λ q. root_dir ∷ untrail q) (visit-names [] p a)
    ∙ ap (◌∷◌ root_dir) (untrail-trail p a)
normalize_absolute-normal [] a = absurd a
normalize_absolute-normal (cur_dir ∷ p) a = absurd a
normalize_absolute-normal (parent_dir ∷ p) a = absurd a
normalize_absolute-normal (normal n ∷ p) a = absurd a

-- A normalized path is normal, and to normalize it again does not change it.
pub normalize_absolute_idempotent :
    (p : FilePath)
    → IsNormal (normalize_absolute p)
      × (normalize_absolute (normalize_absolute p) ≡ normalize_absolute p)
normalize_absolute_idempotent p = (
  normalize_absolute-IsNormal p,
  normalize_absolute-normal (normalize_absolute p) (normalize_absolute-IsNormal p),
)
