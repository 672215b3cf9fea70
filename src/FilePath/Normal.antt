-- ===== src/FilePath/Normal.antt =====
-- Normal paths: the root, then names only. `RootVFS` hands such paths to its backends.
use mathlib.Core.List.{reverse-append, reverse-cons, map-append}
use sandbox_vfs.Base.{
  ◌≡◌, refl, sym, ap, ◌∙◌, true, List, [], ◌∷◌, ◌++◌, map, reverse, append-nil, append_assoc, arith,
  Bytes,
}
use sandbox_vfs.FilePath.{FilePath, root_dir, cur_dir, parent_dir, normal, starts_with}
use sandbox_vfs.FilePath.Laws.{starts_with_iff}

abbrev pub AllNames : FilePath → Type 0
AllNames [] = Unit {0}
AllNames (normal name ∷ p) = AllNames p
AllNames (c ∷ p) = ⊥

abbrev pub IsNormal : FilePath → Type 0
IsNormal (root_dir ∷ p) = AllNames p
IsNormal _ = ⊥

-- The names of a path, the last one first; the other components are skipped.
abbrev pub trail_onto : List Bytes → FilePath → List Bytes
trail_onto q [] = q
trail_onto q (root_dir ∷ p) = trail_onto q p
trail_onto q (cur_dir ∷ p) = trail_onto q p
trail_onto q (parent_dir ∷ p) = trail_onto q p
trail_onto q (normal name ∷ p) = trail_onto (name ∷ q) p

abbrev pub trail : FilePath → List Bytes
trail p = trail_onto [] p

-- The components of the names.
abbrev pub untrail : List Bytes → FilePath
untrail q = map normal (reverse q)

untrail-trail_onto :
    (q : List Bytes) (p : FilePath) → AllNames p → untrail (trail_onto q p) ≡ untrail q ++ p
untrail-trail_onto q [] a = sym (append-nil (untrail q))
untrail-trail_onto q (normal name ∷ p) a = untrail-trail_onto (name ∷ q) p a ∙ untrail_step q name p
  where
    untrail_step :
        (q : List Bytes) (name : Bytes) (p : FilePath)
        → untrail (name ∷ q) ++ p ≡ untrail q ++ normal name ∷ p
    untrail_step q name p = simp (reverse-cons, map-append, append_assoc)
untrail-trail_onto q (root_dir ∷ p) a = absurd a
untrail-trail_onto q (cur_dir ∷ p) a = absurd a
untrail-trail_onto q (parent_dir ∷ p) a = absurd a

pub untrail-append : (r s : List Bytes) → untrail (r ++ s) ≡ untrail s ++ untrail r
untrail-append r s = simp (reverse-append, map-append)

pub untrail-trail : (p : FilePath) → AllNames p → untrail (trail p) ≡ p
untrail-trail p a = untrail-trail_onto [] p a

-- A normal path whose names begin with those of another starts with it.
pub starts_with-trail :
    (p q : FilePath) (r : List Bytes)
    → IsNormal p
    → IsNormal q
    → trail p ≡ r ++ trail q
    → starts_with p q ≡ true
starts_with-trail (root_dir ∷ p) (root_dir ∷ q) r a b e =
    (starts_with_iff (root_dir ∷ p) (root_dir ∷ q)).1 (untrail r, ap (◌∷◌ root_dir) shape)
  where
    shape : p ≡ q ++ untrail r
    shape =
        sym (untrail-trail p a)
        ∙ ap untrail e
        ∙ untrail-append r (trail q)
        ∙ ap (λ x. x ++ untrail r) (untrail-trail q b)
starts_with-trail p q r a b e = ground arith

trail_onto-append :
    (q : List Bytes) (p r : FilePath) → trail_onto q (p ++ r) ≡ trail_onto (trail_onto q p) r
trail_onto-append q [] r = refl
trail_onto-append q (root_dir ∷ p) r = trail_onto-append q p r
trail_onto-append q (cur_dir ∷ p) r = trail_onto-append q p r
trail_onto-append q (parent_dir ∷ p) r = trail_onto-append q p r
trail_onto-append q (normal n ∷ p) r = trail_onto-append (n ∷ q) p r

trail_onto-trail : (q : List Bytes) (p : FilePath) → trail_onto q p ≡ trail p ++ q
trail_onto-trail q [] = refl
trail_onto-trail q (root_dir ∷ p) = trail_onto-trail q p
trail_onto-trail q (cur_dir ∷ p) = trail_onto-trail q p
trail_onto-trail q (parent_dir ∷ p) = trail_onto-trail q p
trail_onto-trail q (normal n ∷ p) =
    trail_onto-trail (n ∷ q) p
    ∙ sym (append_assoc (trail p) (n ∷ []) q)
    ∙ ap (λ x. x ++ q) (sym (trail_onto-trail (n ∷ []) p))

-- The names of a path end in those of any path that it starts with.
pub trail-starts_with :
    (p m : FilePath) → starts_with p m ≡ true → (x : List Bytes) × (trail p ≡ x ++ trail m)
trail-starts_with p m e =
    let (r, shape) = (starts_with_iff p m).0 e in
    (trail r, ap trail shape ∙ trail_onto-append [] m r ∙ trail_onto-trail (trail m) r)

-- A path of names has the names that it is made of.
pub AllNames-untrail : (t : List Bytes) → AllNames (untrail t)
AllNames-untrail t = AllNames-map (reverse t)
  where
    AllNames-map : (names : List Bytes) → AllNames (map normal names)
    AllNames-map [] = tt
    AllNames-map (n ∷ names) = AllNames-map names

pub trail-untrail : (t : List Bytes) → trail (untrail t) ≡ t
trail-untrail [] = refl
trail-untrail (n ∷ t) =
    ap trail (untrail-append (n ∷ []) t)
    ∙ trail_onto-append [] (untrail t) (normal n ∷ [])
    ∙ ap (◌∷◌ n) (trail-untrail t)

pub trail-append_normal : (p : FilePath) (n : Bytes) → trail (p ++ normal n ∷ []) ≡ n ∷ trail p
trail-append_normal p n = trail_onto-append [] p (normal n ∷ [])
