-- ===== src/BindFs.antt =====
-- src/impls/bindfs.rs: `BindFS`. The libc functions on host paths are a parameter.
pub mod Containment
pub mod HostPath
use sandbox_vfs.Base.{
  ℕ, [], ◌∷◌, ◌++◌, ℤ, Bytes, if◌then◌else◌, Action, pure, panic, assert, ◌>>=◌, ◌>>◌,
}
use sandbox_vfs.CStr.{ends_with_nul, as_cstr}
use sandbox_vfs.FilePath.{FilePath, is_absolute, join}
use sandbox_vfs.FilePath.Text.{print}
use sandbox_vfs.Filesystem.{Stat, LowLevelFs, default_open_with_handle, default_read_dir}

-- The calls of libc, with paths as C strings.
pub record Host (W : Type 0) : Type 0 where
  pub access : Bytes → ℕ → Action W ℤ
  pub open_path : Bytes → ℕ → ℕ → Action W ℤ
  pub mkdir : Bytes → ℕ → Action W ℤ
  pub unlink : Bytes → Action W ℤ
  pub rmdir : Bytes → Action W ℤ
  pub rename : Bytes → Bytes → Action W ℤ
  pub chmod : Bytes → ℕ → Action W ℤ
  pub stat : Bytes → Stat → Action W (ℤ × Stat)

pub record BindFs : Type 0 where
  pub id : Bytes
  pub root : FilePath

-- components.as_path() after the root has been taken off
abbrev pub below_root : FilePath → FilePath
below_root [] = []
below_root (c ∷ p) = p

-- The assertion on the first component is in the actions below. For the path / the text of the host
-- path ends in a separator, which components do not show, and reads as the same path.
unfoldable pub translate_path : BindFs → FilePath → FilePath
translate_path fs path = join fs.root (below_root path)

unfoldable pub nul_terminate : Bytes → Bytes
unfolding ends_with_nul
nul_terminate s = if ends_with_nul s then s else s ++ 0 ∷ []

unfoldable pub translate_c_path : BindFs → FilePath → Bytes
unfolding nul_terminate translate_path print
translate_c_path fs path = nul_terminate (print (translate_path fs path))

module _ {W : Type 0} (host : Host W) (fs : BindFs) where
  -- `translate_path` panics on a path that does not start at the root.
  unfoldable pub translated : FilePath → Action W Bytes
  unfolding translate_c_path as_cstr
  translated path = do assert (is_absolute path); as_cstr (translate_c_path fs path)

  unfoldable pub access : FilePath → ℕ → Action W ℤ
  unfolding translated
  access path mode = do final_path ← translated path; host.access final_path mode

  unfoldable pub open_path : FilePath → ℕ → ℕ → Action W ℤ
  unfolding translated
  open_path path oflag mode = do final_path ← translated path; host.open_path final_path oflag mode

  unfoldable pub mkdir : FilePath → ℕ → Action W ℤ
  unfolding translated
  mkdir path mode = do final_path ← translated path; host.mkdir final_path mode

  unfoldable pub unlink : FilePath → Action W ℤ
  unfolding translated
  unlink path = do final_path ← translated path; host.unlink final_path

  unfoldable pub rmdir : FilePath → Action W ℤ
  unfolding translated
  rmdir path = do final_path ← translated path; host.rmdir final_path

  unfoldable pub rename : FilePath → FilePath → Action W ℤ
  unfolding translated
  rename old_path new_path = do
    final_old_path ← translated old_path
    final_new_path ← translated new_path
    host.rename final_old_path final_new_path

  unfoldable pub chmod : FilePath → ℕ → Action W ℤ
  unfolding translated
  chmod path mode = do final_path ← translated path; host.chmod final_path mode

  unfoldable pub stat : FilePath → Stat → Action W (ℤ × Stat)
  unfolding translated
  stat path statbuf = do final_path ← translated path; host.stat final_path statbuf

  -- todo!()
  unfoldable pub openat : ℤ → FilePath → ℕ → ℕ → Action W ℤ
  openat dirfd path flag mode = panic

  unfoldable pub bind_backend : {H : Type 0} → LowLevelFs W H
  unfolding access open_path openat mkdir unlink rmdir rename chmod stat default_open_with_handle
      default_read_dir
  bind_backend = record {
    id = fs.id;
    access = access;
    open_path = open_path;
    openat = openat;
    mkdir = mkdir;
    unlink = unlink;
    rmdir = rmdir;
    rename = rename;
    chmod = chmod;
    stat = stat;
    open_with_handle = default_open_with_handle open_path;
    read_dir = default_read_dir;
  }
