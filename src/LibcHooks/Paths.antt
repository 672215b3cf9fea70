-- ===== src/LibcHooks/Paths.antt =====
-- src/libc_hooks.rs: the hooks that take a path, and those that only call the original.
use sandbox_vfs.Base.{ℕ, none, some, ℤ, Bytes, bit_or, if◌then◌else◌, ◌==◌}
use sandbox_vfs.CStr.{from_cstr}
use sandbox_vfs.FilePath.{FilePath}
use sandbox_vfs.Filesystem.{Stat}
use sandbox_vfs.Libc.{o_creat, o_wronly, o_trunc}
use sandbox_vfs.LibcHooks.{Originals, catch_unwind, open_mode}
use sandbox_vfs.RootVfs.{RootVfs, Vfs, lift}
use sandbox_vfs.RootVfs.Open
use sandbox_vfs.RootVfs.At
use sandbox_vfs.RootVfs.Backend

module _ {W H : Type 0} (orig : Originals W) (vfs : RootVfs W H) where
  unfoldable pub accessat : ℤ → Bytes → ℕ → ℕ → Vfs W H ℤ
  unfolding catch_unwind
  accessat dirfd cpath mode flags =
      catch_unwind (lift (orig.accessat dirfd cpath mode flags))
        (lift (orig.accessat dirfd cpath mode flags))

  unfoldable pub access : Bytes → ℕ → Vfs W H ℤ
  unfolding catch_unwind
  access cpath mode =
      catch_unwind (Backend.access vfs (from_cstr cpath) mode) (lift (orig.access cpath mode))

  unfoldable pub chmod : Bytes → ℕ → Vfs W H ℤ
  unfolding catch_unwind
  chmod path mode =
      catch_unwind (Backend.chmod vfs (from_cstr path) mode) (lift (orig.chmod path mode))

  unfoldable pub stat : Bytes → Stat → Vfs W H (ℤ × Stat)
  unfolding catch_unwind
  stat path statbuf =
      catch_unwind (Backend.stat vfs (from_cstr path) statbuf) (lift (orig.stat path statbuf))

  unfoldable pub lstat : Bytes → Stat → Vfs W H (ℤ × Stat)
  unfolding catch_unwind
  lstat path statbuf =
      catch_unwind (Backend.stat vfs (from_cstr path) statbuf) (lift (orig.lstat path statbuf))

  -- The body of both: a path that cannot be resolved against the descriptor is left to the original.
  unfoldable pub stat_resolved : Vfs W H (ℤ × Stat) → ℤ → FilePath → Stat → Vfs W H (ℤ × Stat)
  unfolding At.resolve_at Backend.stat
  stat_resolved original dirfd path statbuf s = elim (At.resolve_at s dirfd path) [
    | some resolved ↦ Backend.stat vfs resolved statbuf s
    | none ↦ original s
  ]

  unfoldable pub fstatat : ℤ → Bytes → Stat → ℕ → Vfs W H (ℤ × Stat)
  unfolding catch_unwind stat_resolved
  fstatat dirfd path statbuf flags =
      let original = lift (orig.fstatat dirfd path statbuf flags) in
      catch_unwind (stat_resolved original dirfd (from_cstr path) statbuf) original

  unfoldable pub newfstatat : ℤ → Bytes → Stat → ℕ → Vfs W H (ℤ × Stat)
  unfolding catch_unwind stat_resolved
  newfstatat dirfd path statbuf flags =
      let original = lift (orig.newfstatat dirfd path statbuf flags) in
      catch_unwind (stat_resolved original dirfd (from_cstr path) statbuf) original

  unfoldable pub fchownat : ℤ → Bytes → ℕ → ℕ → ℕ → Vfs W H ℤ
  unfolding catch_unwind
  fchownat dirfd cpath uid gid flags =
      catch_unwind (lift (orig.fchownat dirfd cpath uid gid flags))
        (lift (orig.fchownat dirfd cpath uid gid flags))

  unfoldable pub lchown : Bytes → ℕ → ℕ → Vfs W H ℤ
  unfolding catch_unwind
  lchown path uid gid =
      catch_unwind (lift (orig.lchown path uid gid)) (lift (orig.lchown path uid gid))

  unfoldable pub creat : Bytes → ℕ → Vfs W H ℤ
  unfolding catch_unwind
  creat path mode =
      catch_unwind
        (Open.open_path vfs (from_cstr path) (bit_or (bit_or o_creat o_wronly) o_trunc) mode)
        (lift (orig.creat path mode))

  unfoldable pub mkdir : Bytes → ℕ → Vfs W H ℤ
  unfolding catch_unwind
  mkdir path mode =
      catch_unwind (Backend.mkdir vfs (from_cstr path) mode) (lift (orig.mkdir path mode))

  unfoldable pub mkdirat : ℤ → Bytes → ℕ → Vfs W H ℤ
  unfolding catch_unwind
  mkdirat dirfd pathname mode =
      catch_unwind (At.mkdirat vfs dirfd (from_cstr pathname) mode)
        (lift (orig.mkdirat dirfd pathname mode))

  unfoldable pub unlink : Bytes → Vfs W H ℤ
  unfolding catch_unwind
  unlink path = catch_unwind (Backend.unlink vfs (from_cstr path)) (lift (orig.unlink path))

  unfoldable pub rmdir : Bytes → Vfs W H ℤ
  unfolding catch_unwind
  rmdir path = catch_unwind (Backend.rmdir vfs (from_cstr path)) (lift (orig.rmdir path))

  unfoldable pub unlinkat : ℤ → Bytes → ℕ → Vfs W H ℤ
  unfolding catch_unwind
  unlinkat dirfd pathname flags =
      catch_unwind (At.unlinkat vfs dirfd (from_cstr pathname) flags)
        (lift (orig.unlinkat dirfd pathname flags))

  unfoldable pub rename : Bytes → Bytes → Vfs W H ℤ
  unfolding catch_unwind
  rename oldpath newpath =
      catch_unwind (Backend.rename vfs (from_cstr oldpath) (from_cstr newpath))
        (lift (orig.rename oldpath newpath))

  unfoldable pub renameat : ℤ → Bytes → ℤ → Bytes → Vfs W H ℤ
  unfolding catch_unwind
  renameat olddirfd oldpath newdirfd newpath =
      catch_unwind (At.renameat vfs olddirfd (from_cstr oldpath) newdirfd (from_cstr newpath))
        (lift (orig.renameat olddirfd oldpath newdirfd newpath))

  unfoldable pub renameat2 : ℤ → Bytes → ℤ → Bytes → ℕ → Vfs W H ℤ
  unfolding catch_unwind
  renameat2 olddirfd oldpath newdirfd newpath flags =
      let original = lift (orig.renameat2 olddirfd oldpath newdirfd newpath flags) in
      catch_unwind
        (if flags == 0
          then At.renameat vfs olddirfd (from_cstr oldpath) newdirfd (from_cstr newpath)
          else original)
        original

  -- The variadic symbols catch no panic.
  unfoldable pub open_path : Bytes → ℕ → ℕ → Vfs W H ℤ
  unfolding open_mode
  open_path cpath oflag va_mode =
      Open.open_path vfs (from_cstr cpath) oflag (open_mode oflag va_mode)

  unfoldable pub openat : ℤ → Bytes → ℕ → ℕ → Vfs W H ℤ
  unfolding open_mode
  openat dirfd cpath oflag va_mode =
      At.openat vfs dirfd (from_cstr cpath) oflag (open_mode oflag va_mode)

  unfoldable pub open64 : Bytes → ℕ → ℕ → Vfs W H ℤ
  unfolding open_mode
  open64 cpath oflag va_mode = Open.open_path vfs (from_cstr cpath) oflag (open_mode oflag va_mode)
