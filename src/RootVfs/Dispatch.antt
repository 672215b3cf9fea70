-- ===== src/RootVfs/Dispatch.antt =====
-- `absolute_path_to_fs` and `path_to_fs` of src/root_vfs.rs: which backend gets a call, with which
-- path.
use sandbox_vfs.Base.{
  ◌+◌, ◌≡◌, refl, sym, ap, ◌∙◌, subst, Option, none, some, List, [], ◌∷◌, ◌++◌, arith, length,
  length-append, Bool-cases, inl, inr,
}
use sandbox_vfs.FilePath.{
  FilePath, root_dir, cur_dir, parent_dir, normal, is_absolute, join, parents_from, ancestors,
}
use sandbox_vfs.FilePath.Normal.{
  IsNormal, trail, untrail, untrail-trail, untrail-append, trail-starts_with,
}
use sandbox_vfs.RootVfs.{
  select_mount, RootVfs, VfsState, absolute_path_to_fs, resolve_path, path_to_fs,
}
use sandbox_vfs.RootVfs.Normalize.{untrail-cons, IsNormal-untrail, normalize_absolute-IsNormal}
use sandbox_vfs.RootVfs.Mounts.{Trail, at, IsMount, Nearest, Selects, select-names}

at-trail : (p : FilePath) → IsNormal p → at (trail p) ≡ p
at-trail (root_dir ∷ p) a = ap (◌∷◌ root_dir) (untrail-trail p a)
at-trail [] a = absurd a
at-trail (cur_dir ∷ p) a = absurd a
at-trail (parent_dir ∷ p) a = absurd a
at-trail (normal n ∷ p) a = absurd a

length-untrail : (q : Trail) → length (untrail q) ≡ length q
length-untrail [] = refl
length-untrail (n ∷ q) = omega (
  arith,
  ap length (untrail-cons n q),
  length-append (untrail q) (normal n ∷ []),
  length-untrail q,
)

length-normal : (p : FilePath) → IsNormal p → length p ≡ length (trail p) + 1
length-normal p a = omega (arith, ap length (at-trail p a), length-untrail (trail p))

module _ {A : Type 0} (mounts : List (FilePath × A)) (p : FilePath) (a : IsNormal p) where
  select : Selects mounts (trail p) (trail p) (select_mount mounts p (ancestors p))
  unfolding ancestors
  select =
      subst
        (λ x.
          Selects mounts (trail p) (trail p) (select_mount mounts x (parents_from (length p) x)))
        (at-trail p a)
        (select-names mounts (trail p) (trail p) (length p) [] (omega (arith, length-normal p a))
          refl)

  Nearest-Selects :
      (r : Option FilePath × FilePath) → Selects mounts (trail p) (trail p) r → Nearest mounts p r
  Nearest-Selects (none, rest) (same, above) = (
    same ∙ at-trail p a,
    λ m b starts mount.
        let (x, e) = trail-starts_with p m starts in
        above x (trail m) e (subst (IsMount mounts) (sym (at-trail m b)) mount),
  )
  Nearest-Selects (some found, rest) (s, is, mount, (y, e, is_rest), above) = (
    subst (IsMount mounts) (sym is) mount,
    (
      untrail y,
      sym (at-trail p a)
          ∙ ap at e
          ∙ ap (◌∷◌ root_dir) (untrail-append y s)
          ∙ ap (λ x. x ++ untrail y) (sym is),
      is_rest,
    ),
    λ m b starts mount'.
        let (x, e') = trail-starts_with p m starts in
        omega (
          arith,
          length-normal m b,
          ap length is,
          length-untrail s,
          above x (trail m) e' (subst (IsMount mounts) (sym (at-trail m b)) mount'),
        ),
  )

  IsNormal-rest :
      (r : Option FilePath × FilePath) → Selects mounts (trail p) (trail p) r → IsNormal r.1
  IsNormal-rest (none, rest) (same, above) = subst IsNormal (sym same) (IsNormal-untrail (trail p))
  IsNormal-rest (some found, rest) (s, is, mount, (y, e, is_rest), above) =
      subst IsNormal (sym is_rest) (IsNormal-untrail y)

module _ {W H : Type 0} (s : VfsState W H) (in_path : FilePath) where
  pub resolve_path-IsNormal : IsNormal (resolve_path s in_path)
  unfolding resolve_path
  resolve_path-IsNormal = elim (Bool-cases (is_absolute in_path)) [
    | inl e ↦ rw e (normalize_absolute-IsNormal in_path)
    | inr e ↦ rw e (normalize_absolute-IsNormal (join s.cwd in_path))
  ]

module _ {W H : Type 0} (vfs : RootVfs W H) (p : FilePath) (a : IsNormal p) where
  pub absolute_path_to_fs-Nearest : Nearest vfs.mounts p (absolute_path_to_fs vfs p)
  unfolding absolute_path_to_fs
  absolute_path_to_fs-Nearest =
      Nearest-Selects vfs.mounts p a (absolute_path_to_fs vfs p) (select vfs.mounts p a)

  pub absolute_path_to_fs-IsNormal : IsNormal (absolute_path_to_fs vfs p).1
  unfolding absolute_path_to_fs
  absolute_path_to_fs-IsNormal =
      IsNormal-rest vfs.mounts p a (absolute_path_to_fs vfs p) (select vfs.mounts p a)

module _ {W H : Type 0} (vfs : RootVfs W H) (s : VfsState W H) (in_path : FilePath) where
  -- A call goes to the nearest mount above the resolved path other than a mount at /, with the rest of
  -- the path below it, or to the root backend with the path itself if there is no such mount above it.
  pub path_to_fs-Nearest : Nearest vfs.mounts (resolve_path s in_path) (path_to_fs vfs s in_path)
  unfolding path_to_fs
  path_to_fs-Nearest =
      absolute_path_to_fs-Nearest vfs (resolve_path s in_path) (resolve_path-IsNormal s in_path)

  -- The path that a backend gets is normal: the root, then names only.
  pub path_to_fs-IsNormal : IsNormal (path_to_fs vfs s in_path).1
  unfolding path_to_fs
  path_to_fs-IsNormal =
      absolute_path_to_fs-IsNormal vfs (resolve_path s in_path) (resolve_path-IsNormal s in_path)
