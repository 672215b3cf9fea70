-- ===== src/BindFs/Containment.antt =====
-- src/impls/bindfs.rs below src/root_vfs.rs: host paths stay below the root of the `BindFS`.
use sandbox_vfs.Base.{◌≡◌, refl, sym, ap, ◌∙◌, true, some, [], ◌∷◌, ◌++◌}
use sandbox_vfs.FilePath.{
  FilePath, root_dir, cur_dir, parent_dir, normal, join, starts_with, strip_prefix,
}
use sandbox_vfs.FilePath.Laws.{starts_with_iff, strip_prefix-append}
use sandbox_vfs.FilePath.Normal.{AllNames, IsNormal, trail, untrail, untrail-trail}
use sandbox_vfs.BindFs.{BindFs, translate_path}
use sandbox_vfs.RootVfs.{RootVfs, VfsState, path_to_fs}
use sandbox_vfs.RootVfs.Dispatch.{path_to_fs-IsNormal}

join-names : (root p : FilePath) → AllNames p → join root p ≡ root ++ p
unfolding join
join-names [] p a = refl
join-names (c ∷ root) [] a = refl
join-names (c ∷ root) (normal n ∷ p) a = refl
join-names (c ∷ root) (root_dir ∷ p) a = absurd a
join-names (c ∷ root) (cur_dir ∷ p) a = absurd a
join-names (c ∷ root) (parent_dir ∷ p) a = absurd a

-- A normal path is translated to the root of the file system followed by its names.
pub translate_path-normal :
    (fs : BindFs) (p : FilePath) → IsNormal p → translate_path fs p ≡ fs.root ++ untrail (trail p)
unfolding translate_path
translate_path-normal fs (root_dir ∷ p) a =
    join-names fs.root p a ∙ ap (λ q. fs.root ++ q) (sym (untrail-trail p a))
translate_path-normal fs [] a = absurd a
translate_path-normal fs (cur_dir ∷ p) a = absurd a
translate_path-normal fs (parent_dir ∷ p) a = absurd a
translate_path-normal fs (normal n ∷ p) a = absurd a

-- Whatever path a call has, with `..` in it or not, the host path that a `BindFS` makes of what it
-- gets is its root followed by names only: it starts with the root, and below the root it has the
-- names of the path that the dispatch chose.
pub translate_path-dispatched :
    {W H : Type 0} (fs : BindFs) (vfs : RootVfs W H) (s : VfsState W H) (in_path : FilePath)
    → let host_path = translate_path fs (path_to_fs vfs s in_path).1 in
      (starts_with host_path fs.root ≡ true)
      × (strip_prefix host_path fs.root ≡ some (untrail (trail (path_to_fs vfs s in_path).1)))
translate_path-dispatched fs vfs s in_path =
    let p = (path_to_fs vfs s in_path).1 in
    let shape = translate_path-normal fs p (path_to_fs-IsNormal vfs s in_path) in
    (
      (starts_with_iff (translate_path fs p) fs.root).1 (untrail (trail p), shape),
      ap (λ q. strip_prefix q fs.root) shape ∙ strip_prefix-append fs.root (untrail (trail p)),
    )
