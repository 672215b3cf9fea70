-- ===== src/RootVfs/Names.antt =====
-- The names in the paths of src/root_vfs.rs: resolving and dispatching make up no name.
use sandbox_vfs.Base.{
  sym, subst, Option, none, some, List, [], ◌∷◌, ◌++◌, Bytes, Bool-cases, inl, inr,
}
use sandbox_vfs.FilePath.{
  FilePath, root_dir, cur_dir, parent_dir, normal, is_absolute, join, without_cur_dir,
}
use sandbox_vfs.FilePath.Normal.{IsNormal, untrail}
use sandbox_vfs.FilePath.Text.Split.{AllNamed}
use sandbox_vfs.RootVfs.{
  RootVfs, VfsState, normalize_absolute, resolve_path, absolute_path_to_fs, path_to_fs,
}
use sandbox_vfs.RootVfs.Normalize.{visit, untrail-cons, normalize_absolute-visit}
use sandbox_vfs.RootVfs.Mounts.{Nearest}
use sandbox_vfs.RootVfs.Dispatch.{absolute_path_to_fs-Nearest, path_to_fs-Nearest}

module _ (P : Bytes → Type 0) where
  abbrev AllNames : List Bytes → Type 0
  AllNames [] = Unit {0}
  AllNames (n ∷ q) = P n × AllNames q

  pub AllNamed-append : (p q : FilePath) → AllNamed P p → AllNamed P q → AllNamed P (p ++ q)
  AllNamed-append [] q a b = b
  AllNamed-append (root_dir ∷ p) q a b = AllNamed-append p q a b
  AllNamed-append (cur_dir ∷ p) q a b = AllNamed-append p q a b
  AllNamed-append (parent_dir ∷ p) q a b = AllNamed-append p q a b
  AllNamed-append (normal n ∷ p) q (h, a) b = (h, AllNamed-append p q a b)

  pub AllNamed-append_right : (p q : FilePath) → AllNamed P (p ++ q) → AllNamed P q
  AllNamed-append_right [] q a = a
  AllNamed-append_right (root_dir ∷ p) q a = AllNamed-append_right p q a
  AllNamed-append_right (cur_dir ∷ p) q a = AllNamed-append_right p q a
  AllNamed-append_right (parent_dir ∷ p) q a = AllNamed-append_right p q a
  AllNamed-append_right (normal n ∷ p) q (h, a) = AllNamed-append_right p q a

  visit-AllNames :
      (q : List Bytes) (p : FilePath) → AllNames q → AllNamed P p → AllNames (visit q p)
  visit-AllNames q [] a b = a
  visit-AllNames q (root_dir ∷ p) a b = visit-AllNames q p a b
  visit-AllNames q (cur_dir ∷ p) a b = visit-AllNames q p a b
  visit-AllNames [] (parent_dir ∷ p) a b = visit-AllNames [] p a b
  visit-AllNames (n ∷ q) (parent_dir ∷ p) (h, a) b = visit-AllNames q p a b
  visit-AllNames q (normal n ∷ p) a (h, b) = visit-AllNames (n ∷ q) p (h, a) b

  AllNamed-untrail : (q : List Bytes) → AllNames q → AllNamed P (untrail q)
  AllNamed-untrail [] a = tt
  AllNamed-untrail (n ∷ q) (h, a) =
      subst (AllNamed P) (sym (untrail-cons n q))
        (AllNamed-append (untrail q) (normal n ∷ []) (AllNamed-untrail q a) (h, tt))

  pub normalize_absolute-AllNamed :
      (p : FilePath) → AllNamed P p → AllNamed P (normalize_absolute p)
  normalize_absolute-AllNamed p a =
      subst (AllNamed P) (sym (normalize_absolute-visit p))
        (AllNamed-untrail (visit [] p) (visit-AllNames [] p tt a))

  without_cur_dir-AllNamed : (p : FilePath) → AllNamed P p → AllNamed P (without_cur_dir p)
  without_cur_dir-AllNamed [] a = a
  without_cur_dir-AllNamed (root_dir ∷ p) a = a
  without_cur_dir-AllNamed (cur_dir ∷ p) a = a
  without_cur_dir-AllNamed (parent_dir ∷ p) a = a
  without_cur_dir-AllNamed (normal n ∷ p) a = a

  pub join-AllNamed : (p q : FilePath) → AllNamed P p → AllNamed P q → AllNamed P (join p q)
  unfolding join
  join-AllNamed [] q a b = b
  join-AllNamed (c ∷ p) q a b = elim (Bool-cases (is_absolute q)) [
    | inl e ↦ rw e b
    | inr e ↦ rw e (AllNamed-append (c ∷ p) (without_cur_dir q) a (without_cur_dir-AllNamed q b))
  ]

  Nearest-AllNamed :
      {A : Type 0} (mounts : List (FilePath × A)) (p : FilePath) (r : Option FilePath × FilePath)
      → Nearest mounts p r
      → AllNamed P p
      → AllNamed P r.1
  Nearest-AllNamed mounts p (none, rest) (same, above) a = subst (AllNamed P) (sym same) a
  Nearest-AllNamed mounts p (some found, rest) (mount, (below, shape, is_rest), above) a =
      subst (AllNamed P) (sym is_rest)
        (AllNamed-append_right found below (subst (AllNamed P) shape a))

  pub absolute_path_to_fs-AllNamed :
      {W H : Type 0} (vfs : RootVfs W H) (p : FilePath)
      → IsNormal p
      → AllNamed P p
      → AllNamed P (absolute_path_to_fs vfs p).1
  absolute_path_to_fs-AllNamed vfs p a named =
      Nearest-AllNamed vfs.mounts p (absolute_path_to_fs vfs p)
        (absolute_path_to_fs-Nearest vfs p a) named

  module _ {W H : Type 0} (s : VfsState W H) (in_path : FilePath) (cwd : AllNamed P s.cwd)
      (named : AllNamed P in_path) where
    pub resolve_path-AllNamed : AllNamed P (resolve_path s in_path)
    unfolding resolve_path
    resolve_path-AllNamed = elim (Bool-cases (is_absolute in_path)) [
      | inl e ↦ rw e (normalize_absolute-AllNamed in_path named)
      | inr e ↦
          rw e (
            normalize_absolute-AllNamed (join s.cwd in_path)
              (join-AllNamed s.cwd in_path cwd named))
    ]

    -- What holds for the names of the path and of the current directory holds for the names of the
    -- path that the backend gets.
    pub path_to_fs-AllNamed : (vfs : RootVfs W H) → AllNamed P (path_to_fs vfs s in_path).1
    path_to_fs-AllNamed vfs =
        Nearest-AllNamed vfs.mounts (resolve_path s in_path) (path_to_fs vfs s in_path)
          (path_to_fs-Nearest vfs s in_path) resolve_path-AllNamed
