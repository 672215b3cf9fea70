-- ===== src/BindFs/HostPath.antt =====
-- The C string that `BindFS` of src/impls/bindfs.rs hands to the host, for the C string that a
-- caller of `RootVFS` passed.
use sandbox_vfs.Base.{
  ◌≡◌, refl, sym, ap, ◌∙◌, subst, true, false, [], ◌∷◌, ◌++◌, Bytes, arith, returned,
}
use sandbox_vfs.CStr.{from_cstr, ends_with_nul, as_cstr}
use sandbox_vfs.CStr.Laws.{
  IsWellNamed, from_cstr-IsWellNamed, from_cstr-print, no_nul, ends_with_nul-append,
}
use sandbox_vfs.FilePath.{FilePath, root_dir, cur_dir, parent_dir, normal, is_absolute}
use sandbox_vfs.FilePath.Normal.{AllNames, IsNormal, trail, untrail, untrail-trail}
use sandbox_vfs.FilePath.Text.{print}
use sandbox_vfs.FilePath.Text.Split.{AllNamed, IsName, Without}
use sandbox_vfs.BindFs.{BindFs, Host, translate_path, nul_terminate, translate_c_path, translated}
use sandbox_vfs.BindFs.Containment.{translate_path-normal}
use sandbox_vfs.RootVfs.{RootVfs, VfsState, path_to_fs}
use sandbox_vfs.RootVfs.Dispatch.{path_to_fs-IsNormal}
use sandbox_vfs.RootVfs.Names.{AllNamed-append, path_to_fs-AllNamed}

AllNames-append : (p q : FilePath) → AllNames p → AllNames q → AllNames (p ++ q)
AllNames-append [] q a b = b
AllNames-append (normal n ∷ p) q a b = AllNames-append p q a b
AllNames-append (root_dir ∷ p) q a b = absurd a
AllNames-append (cur_dir ∷ p) q a b = absurd a
AllNames-append (parent_dir ∷ p) q a b = absurd a

-- A root with the names of a normal path behind it.
abbrev below : FilePath → FilePath → FilePath
below root p = root ++ untrail (trail p)

below-root : (root p : FilePath) → AllNames p → below root (root_dir ∷ p) ≡ root ++ p
below-root root p a = ap (λ q. root ++ q) (untrail-trail p a)

below-IsNormal : (root p : FilePath) → IsNormal root → IsNormal p → IsNormal (below root p)
below-IsNormal (root_dir ∷ root) (root_dir ∷ p) a b =
    subst IsNormal (sym (below-root (root_dir ∷ root) p b)) (AllNames-append root p a b)
below-IsNormal root p a b = ground (arith, a, b)

below-AllNamed :
    (P : Bytes → Type 0) (root p : FilePath)
    → IsNormal p
    → AllNamed P root
    → AllNamed P p
    → AllNamed P (below root p)
below-AllNamed P root (root_dir ∷ p) a r n =
    subst (AllNamed P) (sym (below-root root p a)) (AllNamed-append P root p r n)
below-AllNamed P root [] a r n = absurd a
below-AllNamed P root (cur_dir ∷ p) a r n = absurd a
below-AllNamed P root (parent_dir ∷ p) a r n = absurd a
below-AllNamed P root (normal name ∷ p) a r n = absurd a

IsNormal-is_absolute : (p : FilePath) → IsNormal p → is_absolute p ≡ true
IsNormal-is_absolute (root_dir ∷ p) a = refl
IsNormal-is_absolute [] a = absurd a
IsNormal-is_absolute (cur_dir ∷ p) a = absurd a
IsNormal-is_absolute (parent_dir ∷ p) a = absurd a
IsNormal-is_absolute (normal name ∷ p) a = absurd a

not-ends_with_nul : (s : Bytes) → Without 0 s → ends_with_nul s ≡ false
unfolding ends_with_nul
not-ends_with_nul [] w = refl
not-ends_with_nul (c ∷ []) w = w.0
not-ends_with_nul (c ∷ d ∷ s) (e, w) = not-ends_with_nul (d ∷ s) w

nul_terminate-Without : (s : Bytes) → Without 0 s → nul_terminate s ≡ s ++ 0 ∷ []
unfolding nul_terminate
nul_terminate-Without s w = rw (not-ends_with_nul s w) refl

as_cstr-terminated :
    {W : Type 0} (s : Bytes) (w : W) → as_cstr (s ++ 0 ∷ []) w ≡ returned (s ++ 0 ∷ []) w
unfolding as_cstr
as_cstr-terminated s w = rw (ends_with_nul-append s) refl

module _ {W : Type 0} (host : Host W) (fs : BindFs) (w : W) where
  translated-absolute :
      (p : FilePath)
      → is_absolute p ≡ true
      → translated host fs p w ≡ as_cstr (translate_c_path fs p) w
  unfolding translated
  translated-absolute p a = rw a refl

  pub translated-normal :
      (p : FilePath)
      → IsNormal fs.root
      → IsWellNamed fs.root
      → IsNormal p
      → IsWellNamed p
      → (c : Bytes) × (translated host fs p w ≡ returned c w) × (from_cstr c ≡ below fs.root p)
  translated-normal p root_normal root_named normal_p named =
      let q = below fs.root p in
      let is_normal = below-IsNormal fs.root p root_normal normal_p in
      let is_named : IsWellNamed q = (
        below-AllNamed IsName fs.root p normal_p root_named.0 named.0,
        below-AllNamed (Without 0) fs.root p normal_p root_named.1 named.1,
      ) in
      let text : translate_c_path fs p ≡ print q ++ 0 ∷ [] =
        c_path p
        ∙ ap (λ x. nul_terminate (print x)) (translate_path-normal fs p normal_p)
        ∙ nul_terminate-Without (print q) (no_nul q is_normal is_named) in
      (
        print q ++ 0 ∷ [],
        translated-absolute p (IsNormal-is_absolute p normal_p)
            ∙ ap (λ c. as_cstr c w) text
            ∙ as_cstr-terminated (print q) w,
        from_cstr-print q is_normal is_named [],
      )
    where
      c_path : (p : FilePath) → translate_c_path fs p ≡ nul_terminate (print (translate_path fs p))
      c_path p = unfold translate_c_path in refl

  -- For every C string that a caller passes, whatever its bytes: the call does not panic, and the C
  -- string that the host gets is read as the root of the `BindFS` with the names of the dispatched path
  -- behind it, if that root and the names of the current directory are proper and the root is normal.
  pub translated-dispatched :
      {H : Type 0} (vfs : RootVfs W H) (s : VfsState W H) (value : Bytes)
      → IsNormal fs.root
      → IsWellNamed fs.root
      → IsWellNamed s.cwd
      → let p = (path_to_fs vfs s (from_cstr value)).1 in
        (c : Bytes) × (translated host fs p w ≡ returned c w)
        × (from_cstr c ≡ fs.root ++ untrail (trail p))
  translated-dispatched vfs s value root_normal root_named cwd =
      let path = from_cstr value in
      let named = from_cstr-IsWellNamed value in
      translated-normal (path_to_fs vfs s path).1 root_normal root_named
        (path_to_fs-IsNormal vfs s path)
        (
          path_to_fs-AllNamed IsName s path cwd.0 named.0 vfs,
          path_to_fs-AllNamed (Without 0) s path cwd.1 named.1 vfs,
        )
