-- ===== src/LibcHooks/Calls/Reached.antt =====
-- What holds after any sequence of calls through the hooks of src/libc_hooks.rs.
use sandbox_vfs.Base.{ℕ, ℤ, some, ◌≡◌, refl, subst, List, [], ◌∷◌, ◌++◌, Bytes, returned}
use sandbox_vfs.BindFs.{BindFs, Host, translated}
use sandbox_vfs.BindFs.HostPath.{translated-normal}
use sandbox_vfs.CStr.{from_cstr}
use sandbox_vfs.FilePath.{FilePath}
use sandbox_vfs.FilePath.Normal.{trail, untrail}
use sandbox_vfs.FilePath.Text.Split.{IsName, Without}
use sandbox_vfs.RootVfs.{RootVfs, resolve_openat_path, absolute_path_to_fs}
use sandbox_vfs.RootVfs.Dispatch.{absolute_path_to_fs-IsNormal}
use sandbox_vfs.RootVfs.Names.{absolute_path_to_fs-AllNamed}
use sandbox_vfs.LibcHooks.Calls.Resolved.{IsCanonicalResult, resolve_openat_path-IsCanonical}
use sandbox_vfs.LibcHooks.{Originals}
use sandbox_vfs.LibcHooks.Paths
use sandbox_vfs.LibcHooks.Descriptors
use sandbox_vfs.LibcHooks.Directories.{HookState, Linked}
use sandbox_vfs.LibcHooks.Calls.{
  Call, accessat, access, chmod, stat, lstat, fstat, fstatat, newfstatat, fchownat, lchown, creat,
  mkdir, mkdirat, unlinkat, unlink, rmdir, rename, renameat, renameat2, open_path, open64, openat,
  close, dup, dup2, dup3, fcntl, getdents64, opendir, closedir, own_symbols, started, perform,
  perform_all,
}
use sandbox_vfs.LibcHooks.Calls.Keeps.{Keeps, IsCanonical}
use sandbox_vfs.LibcHooks.Calls.Hooked
use sandbox_vfs.LibcHooks.Calls.Tracked
use sandbox_vfs.LibcHooks.Calls.Copies.{
  IsSoundProcess, lift_vfs-Keeps, opendir-Keeps, closedir-Keeps,
}

module _ {W H : Type 0} (orig : Originals W) (vfs : RootVfs W H) (inode_for_path : FilePath → ℕ)
    (pid : ℕ) where
  own : Linked W H
  own = own_symbols orig vfs inode_for_path pid

  own_rmdir : (c : Bytes) → Keeps (own.rmdir c)
  unfolding own own_symbols
  own_rmdir c = Hooked.rmdir-Keeps orig vfs c

  own_unlink : (c : Bytes) → Keeps (own.unlink c)
  unfolding own own_symbols
  own_unlink c = Hooked.unlink-Keeps orig vfs c

  perform-IsSound :
      (call : Call) (s : HookState W H)
      → IsSoundProcess s
      → IsSoundProcess (perform orig vfs inode_for_path pid call s)
  unfolding perform own
  perform-IsSound (accessat dirfd path mode flags) =
      lift_vfs-Keeps (Paths.accessat orig vfs dirfd path mode flags)
        (Hooked.accessat-Keeps orig vfs dirfd path mode flags)
  perform-IsSound (access path mode) =
      lift_vfs-Keeps (Paths.access orig vfs path mode) (Hooked.access-Keeps orig vfs path mode)
  perform-IsSound (chmod path mode) =
      lift_vfs-Keeps (Paths.chmod orig vfs path mode) (Hooked.chmod-Keeps orig vfs path mode)
  perform-IsSound (stat path buf) =
      lift_vfs-Keeps (Paths.stat orig vfs path buf) (Hooked.stat-Keeps orig vfs path buf)
  perform-IsSound (lstat path buf) =
      lift_vfs-Keeps (Paths.lstat orig vfs path buf) (Hooked.lstat-Keeps orig vfs path buf)
  perform-IsSound (fstat fd buf) =
      lift_vfs-Keeps (Descriptors.fstat orig vfs fd buf) (Tracked.fstat-Keeps orig vfs fd buf)
  perform-IsSound (fstatat dirfd path buf flags) =
      lift_vfs-Keeps (Paths.fstatat orig vfs dirfd path buf flags)
        (Hooked.fstatat-Keeps orig vfs dirfd path buf flags)
  perform-IsSound (newfstatat dirfd path buf flags) =
      lift_vfs-Keeps (Paths.newfstatat orig vfs dirfd path buf flags)
        (Hooked.newfstatat-Keeps orig vfs dirfd path buf flags)
  perform-IsSound (fchownat dirfd path uid gid flags) =
      lift_vfs-Keeps (Paths.fchownat orig vfs dirfd path uid gid flags)
        (Hooked.fchownat-Keeps orig vfs dirfd path uid gid flags)
  perform-IsSound (lchown path uid gid) =
      lift_vfs-Keeps (Paths.lchown orig vfs path uid gid)
        (Hooked.lchown-Keeps orig vfs path uid gid)
  perform-IsSound (creat path mode) =
      lift_vfs-Keeps (Paths.creat orig vfs path mode) (Hooked.creat-Keeps orig vfs path mode)
  perform-IsSound (mkdir path mode) =
      lift_vfs-Keeps (Paths.mkdir orig vfs path mode) (Hooked.mkdir-Keeps orig vfs path mode)
  perform-IsSound (mkdirat dirfd path mode) =
      lift_vfs-Keeps (Paths.mkdirat orig vfs dirfd path mode)
        (Hooked.mkdirat-Keeps orig vfs dirfd path mode)
  perform-IsSound (unlinkat dirfd path flags) =
      lift_vfs-Keeps (Paths.unlinkat orig vfs dirfd path flags)
        (Hooked.unlinkat-Keeps orig vfs dirfd path flags)
  perform-IsSound (unlink path) =
      lift_vfs-Keeps (Paths.unlink orig vfs path) (Hooked.unlink-Keeps orig vfs path)
  perform-IsSound (rmdir path) =
      lift_vfs-Keeps (Paths.rmdir orig vfs path) (Hooked.rmdir-Keeps orig vfs path)
  perform-IsSound (rename old new) =
      lift_vfs-Keeps (Paths.rename orig vfs old new) (Hooked.rename-Keeps orig vfs old new)
  perform-IsSound (renameat old_dirfd old new_dirfd new) =
      lift_vfs-Keeps (Paths.renameat orig vfs old_dirfd old new_dirfd new)
        (Hooked.renameat-Keeps orig vfs old_dirfd old new_dirfd new)
  perform-IsSound (renameat2 old_dirfd old new_dirfd new flags) =
      lift_vfs-Keeps (Paths.renameat2 orig vfs old_dirfd old new_dirfd new flags)
        (Hooked.renameat2-Keeps orig vfs old_dirfd old new_dirfd new flags)
  perform-IsSound (open_path path oflag va_mode) =
      lift_vfs-Keeps (Paths.open_path orig vfs path oflag va_mode)
        (Hooked.open_path-Keeps orig vfs path oflag va_mode)
  perform-IsSound (open64 path oflag va_mode) =
      lift_vfs-Keeps (Paths.open64 orig vfs path oflag va_mode)
        (Hooked.open64-Keeps orig vfs path oflag va_mode)
  perform-IsSound (openat dirfd path oflag va_mode) =
      lift_vfs-Keeps (Paths.openat orig vfs dirfd path oflag va_mode)
        (Hooked.openat-Keeps orig vfs dirfd path oflag va_mode)
  perform-IsSound (close fd) =
      lift_vfs-Keeps (Descriptors.close orig fd) (Tracked.close-Keeps orig fd)
  perform-IsSound (dup fd) = lift_vfs-Keeps (Descriptors.dup orig fd) (Tracked.dup-Keeps orig fd)
  perform-IsSound (dup2 oldfd newfd) =
      lift_vfs-Keeps (Descriptors.dup2 orig oldfd newfd) (Tracked.dup2-Keeps orig oldfd newfd)
  perform-IsSound (dup3 oldfd newfd flags) =
      lift_vfs-Keeps (Descriptors.dup3 orig oldfd newfd flags)
        (Tracked.dup3-Keeps orig oldfd newfd flags)
  perform-IsSound (fcntl fd cmd va) =
      lift_vfs-Keeps (Descriptors.fcntl orig fd cmd va) (Tracked.fcntl-Keeps orig fd cmd va)
  perform-IsSound (getdents64 fd dirp_is_null count) =
      lift_vfs-Keeps (Descriptors.getdents64 orig inode_for_path vfs fd dirp_is_null count)
        (Tracked.getdents64-Keeps orig inode_for_path vfs fd dirp_is_null count)
  perform-IsSound (opendir name) = opendir-Keeps own own_rmdir own_unlink orig pid vfs name
  perform-IsSound (closedir dirp) = closedir-Keeps own own_rmdir own_unlink orig dirp

  perform_all-IsSound_lem :
      (calls : List Call) (s : HookState W H)
      → IsSoundProcess s
      → IsSoundProcess (perform_all orig vfs inode_for_path pid calls s)
  unfolding perform_all
  perform_all-IsSound_lem [] s sound = sound
  perform_all-IsSound_lem (call ∷ calls) s sound =
      perform_all-IsSound_lem calls (perform orig vfs inode_for_path pid call s)
        (perform-IsSound call s sound)

  -- After any calls of a process through the hooks, whatever their arguments and the originals do, and
  -- after panics too: the current directory is still the root, and every tracked descriptor stands
  -- under a normal path with proper names.
  pub perform_all-IsSound :
      (calls : List Call) (w : W)
      → IsSoundProcess (perform_all orig vfs inode_for_path pid calls (started w))
  unfolding started
  perform_all-IsSound calls w = perform_all-IsSound_lem calls (started w) (refl, λ fd. tt)

  -- After any calls of a process through the hooks: a path that a further call passes, relative to any
  -- directory descriptor or to none, is dispatched, when it is resolved by path at all, to a path that
  -- a `BindFS` does not panic on, and the C string that the host gets is read as the root of the
  -- `BindFS` with the names of that path behind it, if that root is a normal path with proper names.
  pub perform_all-translated :
      (calls : List Call) (w : W) (dirfd : ℤ) (value : Bytes) (resolved : FilePath) (host : Host W)
      (fs : BindFs)
      → IsCanonical fs.root
      → resolve_openat_path
          (perform_all orig vfs inode_for_path pid calls (started w)).vfs
          dirfd
          (from_cstr value)
        ≡ some resolved
      → let s = (perform_all orig vfs inode_for_path pid calls (started w)).vfs in
        let p = (absolute_path_to_fs vfs resolved).1 in
        (c : Bytes) × (translated host fs p s.world ≡ returned c s.world)
        × (from_cstr c ≡ fs.root ++ untrail (trail p))
  perform_all-translated calls w dirfd value resolved host fs (root_normal, root_named) found =
      let s = (perform_all orig vfs inode_for_path pid calls (started w)).vfs in
      let (is_normal, (names, free)) =
        subst IsCanonicalResult found
          (resolve_openat_path-IsCanonical s (perform_all-IsSound calls w) dirfd value) in
      translated-normal host fs s.world (absolute_path_to_fs vfs resolved).1 root_normal root_named
        (absolute_path_to_fs-IsNormal vfs resolved is_normal)
        (
          absolute_path_to_fs-AllNamed IsName vfs resolved is_normal names,
          absolute_path_to_fs-AllNamed (Without 0) vfs resolved is_normal free,
        )
