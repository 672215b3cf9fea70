-- ===== src/LibcHooks/Calls.antt =====
-- The calls of libc that a process makes through the hooks of src/libc_hooks.rs, one after another.
pub mod Keeps
pub mod Resolved
pub mod Sound
pub mod Listings
pub mod Hooked
pub mod Tracked
pub mod Copies
pub mod Reached
use sandbox_vfs.Base.{ℕ, Bool, none, List, [], ◌∷◌, ℤ, Bytes, Action, Outcome, after}
use sandbox_vfs.FilePath.{FilePath}
use sandbox_vfs.Filesystem.{Stat}
use sandbox_vfs.LibcHooks.{Originals}
use sandbox_vfs.LibcHooks.Paths
use sandbox_vfs.LibcHooks.Descriptors
use sandbox_vfs.LibcHooks.Descriptors.{VaArg}
use sandbox_vfs.LibcHooks.Directories
use sandbox_vfs.LibcHooks.Directories.{HookState, Linked, Hooks, lift_vfs}
use sandbox_vfs.RootVfs.{RootVfs, Vfs, initial}

-- The arguments of a call; a path is the memory that the pointer points to.
pub data Call : Type 0 where
  accessat : ℤ → Bytes → ℕ → ℕ → Call
  access : Bytes → ℕ → Call
  chmod : Bytes → ℕ → Call
  stat lstat : Bytes → Stat → Call
  fstat : ℤ → Stat → Call
  fstatat newfstatat : ℤ → Bytes → Stat → ℕ → Call
  fchownat : ℤ → Bytes → ℕ → ℕ → ℕ → Call
  lchown : Bytes → ℕ → ℕ → Call
  creat mkdir : Bytes → ℕ → Call
  mkdirat unlinkat : ℤ → Bytes → ℕ → Call
  unlink rmdir : Bytes → Call
  rename : Bytes → Bytes → Call
  renameat : ℤ → Bytes → ℤ → Bytes → Call
  renameat2 : ℤ → Bytes → ℤ → Bytes → ℕ → Call
  open_path open64 : Bytes → ℕ → ℕ → Call
  openat : ℤ → Bytes → ℕ → ℕ → Call
  close dup : ℤ → Call
  dup2 : ℤ → ℤ → Call
  dup3 : ℤ → ℤ → ℕ → Call
  fcntl : ℤ → ℤ → VaArg → Call
  getdents64 : ℤ → Bool → ℤ → Call
  opendir : Bytes → Call
  closedir : ℕ → Call

-- The statics before the first call.
unfoldable pub started : {W H : Type 0} → W → HookState W H
unfolding initial
started w = record { vfs = initial w; materialized_dirs = λ dirp. none; next_materialized_dir = 0 }

module _ {W H : Type 0} (orig : Originals W) (vfs : RootVfs W H) (inode_for_path : FilePath → ℕ)
    (pid : ℕ) where
  -- The library exports both symbols, so they are its own.
  unfoldable pub own_symbols : Linked W H
  unfolding Paths.rmdir Paths.unlink
  own_symbols = record { rmdir = Paths.rmdir orig vfs; unlink = Paths.unlink orig vfs }

  abbrev ends : {A : Type 0} → Vfs W H A → HookState W H → HookState W H
  ends m s = after (lift_vfs m s)

  -- The state after a call, in which a panic may have left it.
  unfoldable pub perform : Call → HookState W H → HookState W H
  perform (accessat dirfd path mode flags) = ends (Paths.accessat orig vfs dirfd path mode flags)
  perform (access path mode) = ends (Paths.access orig vfs path mode)
  perform (chmod path mode) = ends (Paths.chmod orig vfs path mode)
  perform (stat path buf) = ends (Paths.stat orig vfs path buf)
  perform (lstat path buf) = ends (Paths.lstat orig vfs path buf)
  perform (fstat fd buf) = ends (Descriptors.fstat orig vfs fd buf)
  perform (fstatat dirfd path buf flags) = ends (Paths.fstatat orig vfs dirfd path buf flags)
  perform (newfstatat dirfd path buf flags) = ends (Paths.newfstatat orig vfs dirfd path buf flags)
  perform (fchownat dirfd path uid gid flags) =
      ends (Paths.fchownat orig vfs dirfd path uid gid flags)
  perform (lchown path uid gid) = ends (Paths.lchown orig vfs path uid gid)
  perform (creat path mode) = ends (Paths.creat orig vfs path mode)
  perform (mkdir path mode) = ends (Paths.mkdir orig vfs path mode)
  perform (mkdirat dirfd path mode) = ends (Paths.mkdirat orig vfs dirfd path mode)
  perform (unlinkat dirfd path flags) = ends (Paths.unlinkat orig vfs dirfd path flags)
  perform (unlink path) = ends (Paths.unlink orig vfs path)
  perform (rmdir path) = ends (Paths.rmdir orig vfs path)
  perform (rename old new) = ends (Paths.rename orig vfs old new)
  perform (renameat old_dirfd old new_dirfd new) =
      ends (Paths.renameat orig vfs old_dirfd old new_dirfd new)
  perform (renameat2 old_dirfd old new_dirfd new flags) =
      ends (Paths.renameat2 orig vfs old_dirfd old new_dirfd new flags)
  perform (open_path path oflag va_mode) = ends (Paths.open_path orig vfs path oflag va_mode)
  perform (open64 path oflag va_mode) = ends (Paths.open64 orig vfs path oflag va_mode)
  perform (openat dirfd path oflag va_mode) = ends (Paths.openat orig vfs dirfd path oflag va_mode)
  perform (close fd) = ends (Descriptors.close orig fd)
  perform (dup fd) = ends (Descriptors.dup orig fd)
  perform (dup2 oldfd newfd) = ends (Descriptors.dup2 orig oldfd newfd)
  perform (dup3 oldfd newfd flags) = ends (Descriptors.dup3 orig oldfd newfd flags)
  perform (fcntl fd cmd va) = ends (Descriptors.fcntl orig fd cmd va)
  perform (getdents64 fd dirp_is_null count) =
      ends (Descriptors.getdents64 orig inode_for_path vfs fd dirp_is_null count)
  perform (opendir name) = λ s. after (Directories.opendir own_symbols orig pid vfs name s)
  perform (closedir dirp) = λ s. after (Directories.closedir own_symbols orig dirp s)

  unfoldable pub perform_all : List Call → HookState W H → HookState W H
  unfolding perform
  perform_all [] s = s
  perform_all (call ∷ calls) s = perform_all calls (perform call s)
