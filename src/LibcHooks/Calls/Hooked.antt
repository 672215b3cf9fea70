-- ===== src/LibcHooks/Calls/Hooked.antt =====
-- The hooks of src/libc_hooks.rs that take a path, one by one.
use sandbox_vfs.Base.{
  ℕ, ℤ, Bytes, bit_or, Action, after, Option-cases, inl, inr, if◌then◌else◌, ◌==◌,
}
use sandbox_vfs.CStr.{from_cstr}
use sandbox_vfs.FilePath.{FilePath}
use sandbox_vfs.Filesystem.{Stat}
use sandbox_vfs.Libc.{at_fdcwd, o_creat, o_wronly, o_trunc}
use sandbox_vfs.RootVfs.{RootVfs, lift}
use sandbox_vfs.RootVfs.At
use sandbox_vfs.RootVfs.Backend
use sandbox_vfs.RootVfs.Open
use sandbox_vfs.LibcHooks.{Originals, open_mode}
use sandbox_vfs.LibcHooks.Paths
use sandbox_vfs.LibcHooks.Calls.Keeps.{Keeps, lift-Keeps, if-Keeps, hooked-Keeps}
use sandbox_vfs.LibcHooks.Calls.Sound

module _ {W H : Type 0} (orig : Originals W) (vfs : RootVfs W H) where
  pub accessat-Keeps :
      (dirfd : ℤ) (path : Bytes) (mode flags : ℕ)
      → Keeps (Paths.accessat orig vfs dirfd path mode flags)
  unfolding Paths.accessat
  accessat-Keeps dirfd path mode flags =
      hooked-Keeps (lift (orig.accessat dirfd path mode flags))
        (orig.accessat dirfd path mode flags) (lift-Keeps (orig.accessat dirfd path mode flags))

  pub access-Keeps : (path : Bytes) (mode : ℕ) → Keeps (Paths.access orig vfs path mode)
  unfolding Paths.access Backend.access
  access-Keeps path mode =
      hooked-Keeps (Backend.access vfs (from_cstr path) mode) (orig.access path mode)
        (Sound.dispatch-Keeps vfs (λ fs p. fs.access p mode) (from_cstr path))

  pub chmod-Keeps : (path : Bytes) (mode : ℕ) → Keeps (Paths.chmod orig vfs path mode)
  unfolding Paths.chmod Backend.chmod
  chmod-Keeps path mode =
      hooked-Keeps (Backend.chmod vfs (from_cstr path) mode) (orig.chmod path mode)
        (Sound.dispatch-Keeps vfs (λ fs p. fs.chmod p mode) (from_cstr path))

  pub stat-Keeps : (path : Bytes) (buf : Stat) → Keeps (Paths.stat orig vfs path buf)
  unfolding Paths.stat Backend.stat
  stat-Keeps path buf =
      hooked-Keeps (Backend.stat vfs (from_cstr path) buf) (orig.stat path buf)
        (Sound.dispatch-Keeps vfs (λ fs p. fs.stat p buf) (from_cstr path))

  pub lstat-Keeps : (path : Bytes) (buf : Stat) → Keeps (Paths.lstat orig vfs path buf)
  unfolding Paths.lstat Backend.stat
  lstat-Keeps path buf =
      hooked-Keeps (Backend.stat vfs (from_cstr path) buf) (orig.lstat path buf)
        (Sound.dispatch-Keeps vfs (λ fs p. fs.stat p buf) (from_cstr path))

  pub fchownat-Keeps :
      (dirfd : ℤ) (path : Bytes) (uid gid flags : ℕ)
      → Keeps (Paths.fchownat orig vfs dirfd path uid gid flags)
  unfolding Paths.fchownat
  fchownat-Keeps dirfd path uid gid flags =
      hooked-Keeps (lift (orig.fchownat dirfd path uid gid flags))
        (orig.fchownat dirfd path uid gid flags)
        (lift-Keeps (orig.fchownat dirfd path uid gid flags))

  pub lchown-Keeps : (path : Bytes) (uid gid : ℕ) → Keeps (Paths.lchown orig vfs path uid gid)
  unfolding Paths.lchown
  lchown-Keeps path uid gid =
      hooked-Keeps (lift (orig.lchown path uid gid)) (orig.lchown path uid gid)
        (lift-Keeps (orig.lchown path uid gid))

  pub creat-Keeps : (path : Bytes) (mode : ℕ) → Keeps (Paths.creat orig vfs path mode)
  unfolding Paths.creat
  creat-Keeps path mode =
      hooked-Keeps
        (Open.open_path vfs (from_cstr path) (bit_or (bit_or o_creat o_wronly) o_trunc) mode)
        (orig.creat path mode)
        (Sound.open_path-Keeps vfs path (bit_or (bit_or o_creat o_wronly) o_trunc) mode)

  pub mkdir-Keeps : (path : Bytes) (mode : ℕ) → Keeps (Paths.mkdir orig vfs path mode)
  unfolding Paths.mkdir Backend.mkdir
  mkdir-Keeps path mode =
      hooked-Keeps (Backend.mkdir vfs (from_cstr path) mode) (orig.mkdir path mode)
        (Sound.dispatch-Keeps vfs (λ fs p. fs.mkdir p mode) (from_cstr path))

  pub mkdirat-Keeps :
      (dirfd : ℤ) (path : Bytes) (mode : ℕ) → Keeps (Paths.mkdirat orig vfs dirfd path mode)
  unfolding Paths.mkdirat
  mkdirat-Keeps dirfd path mode =
      hooked-Keeps (At.mkdirat vfs dirfd (from_cstr path) mode) (orig.mkdirat dirfd path mode)
        (Sound.mkdirat-Keeps vfs dirfd (from_cstr path) mode)

  pub unlink-Keeps : (path : Bytes) → Keeps (Paths.unlink orig vfs path)
  unfolding Paths.unlink Backend.unlink
  unlink-Keeps path =
      hooked-Keeps (Backend.unlink vfs (from_cstr path)) (orig.unlink path)
        (Sound.dispatch-Keeps vfs (λ fs p. fs.unlink p) (from_cstr path))

  pub rmdir-Keeps : (path : Bytes) → Keeps (Paths.rmdir orig vfs path)
  unfolding Paths.rmdir Backend.rmdir
  rmdir-Keeps path =
      hooked-Keeps (Backend.rmdir vfs (from_cstr path)) (orig.rmdir path)
        (Sound.dispatch-Keeps vfs (λ fs p. fs.rmdir p) (from_cstr path))

  pub unlinkat-Keeps :
      (dirfd : ℤ) (path : Bytes) (flags : ℕ) → Keeps (Paths.unlinkat orig vfs dirfd path flags)
  unfolding Paths.unlinkat
  unlinkat-Keeps dirfd path flags =
      hooked-Keeps (At.unlinkat vfs dirfd (from_cstr path) flags) (orig.unlinkat dirfd path flags)
        (Sound.unlinkat-Keeps vfs dirfd (from_cstr path) flags)

  pub rename-Keeps : (old new : Bytes) → Keeps (Paths.rename orig vfs old new)
  unfolding Paths.rename Backend.rename
  rename-Keeps old new =
      hooked-Keeps (Backend.rename vfs (from_cstr old) (from_cstr new)) (orig.rename old new)
        (Sound.renameat-Keeps vfs at_fdcwd (from_cstr old) at_fdcwd (from_cstr new))

  pub renameat-Keeps :
      (old_dirfd : ℤ) (old : Bytes) (new_dirfd : ℤ) (new : Bytes)
      → Keeps (Paths.renameat orig vfs old_dirfd old new_dirfd new)
  unfolding Paths.renameat
  renameat-Keeps old_dirfd old new_dirfd new =
      hooked-Keeps (At.renameat vfs old_dirfd (from_cstr old) new_dirfd (from_cstr new))
        (orig.renameat old_dirfd old new_dirfd new)
        (Sound.renameat-Keeps vfs old_dirfd (from_cstr old) new_dirfd (from_cstr new))

  stat_resolved-Keeps :
      (original : Action W (ℤ × Stat)) (dirfd : ℤ) (path : FilePath) (buf : Stat)
      → Keeps (Paths.stat_resolved orig vfs (lift original) dirfd path buf)
  unfolding Paths.stat_resolved Backend.stat
  stat_resolved-Keeps original dirfd path buf s sound =
      elim (Option-cases (At.resolve_at s dirfd path)) [
        | inl e ↦ rw (after, e) (lift-Keeps original s sound)
        | inr (resolved, e) ↦
            rw (after, e) (Sound.dispatch-Keeps vfs (λ fs p. fs.stat p buf) resolved s sound)
      ]

  pub fstatat-Keeps :
      (dirfd : ℤ) (path : Bytes) (buf : Stat) (flags : ℕ)
      → Keeps (Paths.fstatat orig vfs dirfd path buf flags)
  unfolding Paths.fstatat
  fstatat-Keeps dirfd path buf flags =
      let call = orig.fstatat dirfd path buf flags in
      hooked-Keeps (Paths.stat_resolved orig vfs (lift call) dirfd (from_cstr path) buf) call
        (stat_resolved-Keeps call dirfd (from_cstr path) buf)

  pub newfstatat-Keeps :
      (dirfd : ℤ) (path : Bytes) (buf : Stat) (flags : ℕ)
      → Keeps (Paths.newfstatat orig vfs dirfd path buf flags)
  unfolding Paths.newfstatat
  newfstatat-Keeps dirfd path buf flags =
      let call = orig.newfstatat dirfd path buf flags in
      hooked-Keeps (Paths.stat_resolved orig vfs (lift call) dirfd (from_cstr path) buf) call
        (stat_resolved-Keeps call dirfd (from_cstr path) buf)

  pub renameat2-Keeps :
      (old_dirfd : ℤ) (old : Bytes) (new_dirfd : ℤ) (new : Bytes) (flags : ℕ)
      → Keeps (Paths.renameat2 orig vfs old_dirfd old new_dirfd new flags)
  unfolding Paths.renameat2
  renameat2-Keeps old_dirfd old new_dirfd new flags =
      let act = At.renameat vfs old_dirfd (from_cstr old) new_dirfd (from_cstr new) in
      let call = orig.renameat2 old_dirfd old new_dirfd new flags in
      hooked-Keeps (if flags == 0 then act else lift call) call (
        if-Keeps (flags == 0) act (lift call)
          (Sound.renameat-Keeps vfs old_dirfd (from_cstr old) new_dirfd (from_cstr new))
          (lift-Keeps call))

  pub open_path-Keeps :
      (path : Bytes) (oflag va_mode : ℕ) → Keeps (Paths.open_path orig vfs path oflag va_mode)
  unfolding Paths.open_path
  open_path-Keeps path oflag va_mode =
      Sound.open_path-Keeps vfs path oflag (open_mode oflag va_mode)

  pub open64-Keeps :
      (path : Bytes) (oflag va_mode : ℕ) → Keeps (Paths.open64 orig vfs path oflag va_mode)
  unfolding Paths.open64
  open64-Keeps path oflag va_mode = Sound.open_path-Keeps vfs path oflag (open_mode oflag va_mode)

  pub openat-Keeps :
      (dirfd : ℤ) (path : Bytes) (oflag va_mode : ℕ)
      → Keeps (Paths.openat orig vfs dirfd path oflag va_mode)
  unfolding Paths.openat
  openat-Keeps dirfd path oflag va_mode =
      Sound.openat-Keeps vfs dirfd path oflag (open_mode oflag va_mode)
