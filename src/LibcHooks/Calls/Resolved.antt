-- ===== src/LibcHooks/Calls/Resolved.antt =====
-- What src/root_vfs.rs makes of a directory descriptor and a path.
use sandbox_vfs.Base.{
  subst, ◌||◌, Option, none, some, ℤ, Bytes, int_eq, Bool-cases, Option-cases, inl, inr,
}
use sandbox_vfs.CStr.{from_cstr}
use sandbox_vfs.CStr.Laws.{from_cstr-IsWellNamed}
use sandbox_vfs.FilePath.{FilePath, is_absolute, join}
use sandbox_vfs.Libc.{at_fdcwd}
use sandbox_vfs.RootVfs.{FdInfo, VfsState, resolve_openat_path}
use sandbox_vfs.RootVfs.At.{tracked_handle}
use sandbox_vfs.RootVfs.At.Plain.{
  resolve_openat_path_here, resolve_openat_path_closed, resolve_openat_path_based,
}
use sandbox_vfs.LibcHooks.Calls.Keeps.{
  IsCanonical, IsCanonicalEntry, IsSound, normalize_absolute-IsCanonical, join-IsWellNamed,
  resolve_path-IsCanonical,
}

-- A result that may be missing.
abbrev pub IsCanonicalResult : Option FilePath → Type 0
IsCanonicalResult none = Unit {0}
IsCanonicalResult (some p) = IsCanonical p

abbrev pub IsCanonicalHandle : {H : Type 0} → Option (FdInfo H × H) → Type 0
IsCanonicalHandle none = Unit {0}
IsCanonicalHandle (some (info, opened)) = IsCanonical info.path

module _ {W H : Type 0} (s : VfsState W H) (sound : IsSound s) where
  pub resolve_openat_path-IsCanonical :
      (dirfd : ℤ) (value : Bytes)
      → IsCanonicalResult (resolve_openat_path s dirfd (from_cstr value))
  resolve_openat_path-IsCanonical dirfd value =
      let path = from_cstr value in
      elim (Bool-cases (is_absolute path || int_eq dirfd at_fdcwd)) [
        | inl e ↦
            rw (resolve_openat_path_here s dirfd path e) (resolve_path-IsCanonical s value sound)
        | inr e ↦ elim (Option-cases (s.fds dirfd)) [
          | inl f ↦ rw (resolve_openat_path_closed s dirfd path e f) tt
          | inr (base, f) ↦ rw (resolve_openat_path_based s dirfd path base e f) (
              normalize_absolute-IsCanonical (join base.path path) (
                join-IsWellNamed base.path path (subst IsCanonicalEntry f (sound.1 dirfd)).1
                  (from_cstr-IsWellNamed value)))
        ]
      ]

  pub tracked_handle-IsCanonical :
      (dirfd : ℤ) (path : FilePath) → IsCanonicalHandle (tracked_handle s dirfd path)
  unfolding tracked_handle
  tracked_handle-IsCanonical dirfd path =
      elim (Bool-cases (is_absolute path || int_eq dirfd at_fdcwd)) [
        | inl e ↦ rw e tt
        | inr e ↦ elim (Option-cases (s.fds dirfd)) [
          | inl f ↦ rw (e, f) tt
          | inr (info, f) ↦ elim (Option-cases info.opened) [
            | inl g ↦ rw (e, f, g) tt
            | inr (opened, g) ↦ rw (e, f, g) (subst IsCanonicalEntry f (sound.1 dirfd))
          ]
        ]
      ]
