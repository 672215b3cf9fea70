-- ===== src/RootVfs/Backend.antt =====
-- src/root_vfs.rs: `RootVFS` as a `LowLevelFS`: a path is resolved and handed to its backend.
use sandbox_vfs.Base.{ℕ, none, ℤ, codes, Action, pure}
use sandbox_vfs.FilePath.{FilePath}
use sandbox_vfs.Filesystem.{Stat, LowLevelFs, default_open_with_handle}
use sandbox_vfs.Libc.{at_fdcwd}
use sandbox_vfs.RootVfs.{RootVfs, VfsState, Vfs, lift, path_to_fs, backend_at}
use sandbox_vfs.RootVfs.Open.{open_path}
use sandbox_vfs.RootVfs.At.{openat, renameat}

module _ {W H : Type 0} (vfs : RootVfs W H) where
  unfoldable pub dispatch :
      {A : Type 0} → (LowLevelFs W H → FilePath → Action W A) → FilePath → Vfs W H A
  unfolding path_to_fs backend_at
  dispatch call path s =
      let (key, backend_path) = path_to_fs vfs s path in
      lift (call (backend_at vfs key) backend_path) s

  unfoldable pub access : FilePath → ℕ → Vfs W H ℤ
  unfolding dispatch
  access path mode = dispatch (λ fs p. fs.access p mode) path

  unfoldable pub mkdir : FilePath → ℕ → Vfs W H ℤ
  unfolding dispatch
  mkdir path mode = dispatch (λ fs p. fs.mkdir p mode) path

  unfoldable pub unlink : FilePath → Vfs W H ℤ
  unfolding dispatch
  unlink path = dispatch (λ fs p. fs.unlink p) path

  unfoldable pub rmdir : FilePath → Vfs W H ℤ
  unfolding dispatch
  rmdir path = dispatch (λ fs p. fs.rmdir p) path

  unfoldable pub rename : FilePath → FilePath → Vfs W H ℤ
  unfolding renameat
  rename old_path new_path = renameat vfs at_fdcwd old_path at_fdcwd new_path

  unfoldable pub chmod : FilePath → ℕ → Vfs W H ℤ
  unfolding dispatch
  chmod path mode = dispatch (λ fs p. fs.chmod p mode) path

  unfoldable pub stat : FilePath → Stat → Vfs W H (ℤ × Stat)
  unfolding dispatch
  stat path statbuf = dispatch (λ fs p. fs.stat p statbuf) path

  -- `open_with_handle` and `read_dir` are what the trait and the inherent method give.
  unfoldable pub root_backend : LowLevelFs (VfsState W H) H
  unfolding access open_path openat mkdir unlink rmdir rename chmod stat default_open_with_handle
  root_backend = record {
    id = codes "<RootVFS>";
    access = access;
    open_path = open_path vfs;
    openat = openat vfs;
    mkdir = mkdir;
    unlink = unlink;
    rmdir = rmdir;
    rename = rename;
    chmod = chmod;
    stat = stat;
    open_with_handle = default_open_with_handle (open_path vfs);
    read_dir = λ path. pure none;
  }
