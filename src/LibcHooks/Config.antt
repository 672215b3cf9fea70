-- ===== src/LibcHooks/Config.antt =====
-- src/libc_hooks.rs: the `VFS` of the process, made at its first use from the environment. The
-- environment and what the standard library asks the system are a parameter.
pub mod Laws
use sandbox_vfs.Base.{
  ℕ, Bool, true, false, Option, none, some, Bytes, bytes_eq, codes, if◌then◌else◌, Action, pure,
  panic, total, assert, ◌>>=◌, ◌>>◌,
}
use sandbox_vfs.BindFs
use sandbox_vfs.BindFs.{Host}
use sandbox_vfs.FilePath.{FilePath, is_absolute, join}
use sandbox_vfs.FilePath.Text.{parse}
use sandbox_vfs.Filesystem.{LowLevelFs}
use sandbox_vfs.Memory.{Kernel, Heap, MemoryOpenedFile}
use sandbox_vfs.Memory.Backend.{memory_backend, memory_opened_file}
use sandbox_vfs.Memory.Create
use sandbox_vfs.Overlay
use sandbox_vfs.RootVfs
use sandbox_vfs.RootVfs.{RootVfs, with_mount}

abbrev pub lower_env : Bytes
lower_env = codes "SANDBOX_VFS_LOWER"

abbrev pub upper_env : Bytes
upper_env = codes "SANDBOX_VFS_UPPER"

abbrev pub backend_env : Bytes
backend_env = codes "SANDBOX_VFS_BACKEND"

abbrev pub memory_mount_env : Bytes
memory_mount_env = codes "SANDBOX_VFS_MEMORY_MOUNT"

-- env::var_os, the check of `env::var` that a value is Unicode, env::current_dir, Path::is_dir
pub record Env (K : Type 0) : Type 0 where
  pub var_os : Bytes → Option Bytes
  pub is_unicode : Bytes → Bool
  pub current_dir : Option FilePath
  pub is_dir : FilePath → K → Bool

pub data BackendKind : Type 0 where
  memory overlay : BackendKind

abbrev Setup : Type 0 → Type 0 → Type 0
Setup K A = Action (Heap K) A

module _ {K : Type 0} (os : Kernel K) where
  -- MemoryFS::new("memory")
  unfoldable pub new_memory : Setup K (LowLevelFs (Heap K) MemoryOpenedFile)
  unfolding Create.new memory_backend
  new_memory = do fs ← total (Create.new os (codes "memory")); pure (memory_backend os fs)

  unfoldable pub rooted : LowLevelFs (Heap K) MemoryOpenedFile → RootVfs (Heap K) MemoryOpenedFile
  unfolding RootVfs.new memory_opened_file
  rooted root = RootVfs.new root (memory_opened_file os)

  unfoldable pub memory_vfs : Setup K (RootVfs (Heap K) MemoryOpenedFile)
  unfolding new_memory rooted
  memory_vfs = do root ← new_memory; pure (rooted root)

  -- The `match` on the mount point.
  unfoldable pub mount_memory :
      RootVfs (Heap K) MemoryOpenedFile
      → Option FilePath
      → Setup K (RootVfs (Heap K) MemoryOpenedFile)
  unfolding new_memory with_mount
  mount_memory root none = pure root
  mount_memory root (some path) = do fs ← new_memory; pure (with_mount root path fs)

module _ {K : Type 0} (host : Host (Heap K)) where
  unfoldable pub overlay_of : FilePath → FilePath → LowLevelFs (Heap K) MemoryOpenedFile
  unfolding Overlay.new Overlay.overlay_backend BindFs.bind_backend
  overlay_of upper lower = Overlay.overlay_backend (
      Overlay.new (codes "overlay")
        (BindFs.bind_backend host (record { id = codes "upper"; root = upper }))
        (BindFs.bind_backend host (record { id = codes "lower"; root = lower })))

module _ {K : Type 0} (env : Env K) where
  unfoldable pub backend_named : Bytes → Setup K BackendKind
  backend_named value =
      if bytes_eq value (codes "memory")
      then pure memory
      else if bytes_eq value (codes "overlay")
      then pure overlay
      else panic

  -- The `match` on `env::var`, whose errors all mean the overlay.
  unfoldable pub kind_of : Option Bytes → Setup K BackendKind
  unfolding backend_named
  kind_of none = pure overlay
  kind_of (some value) = if env.is_unicode value then backend_named value else pure overlay

  unfoldable pub backend_kind : Setup K BackendKind
  unfolding kind_of
  backend_kind = kind_of (env.var_os backend_env)

  unfoldable pub from_current_dir : FilePath → Setup K FilePath
  from_current_dir path =
      if is_absolute path
      then pure path
      else (elim env.current_dir [ none ↦ panic | some cwd ↦ pure (join cwd path) ])

  unfoldable pub existing_dir : FilePath → Setup K FilePath
  existing_dir path h = if env.is_dir path h.kernel then pure path h else panic h

  unfoldable pub required_dir : Option Bytes → Setup K FilePath
  unfolding from_current_dir parse existing_dir
  required_dir none = panic
  required_dir (some value) = do path ← from_current_dir (parse value); existing_dir path

  unfoldable pub required_dir_from_env : Bytes → Setup K FilePath
  unfolding required_dir
  required_dir_from_env name = required_dir (env.var_os name)

  unfoldable pub optional_absolute_path : Option Bytes → Setup K (Option FilePath)
  unfolding parse
  optional_absolute_path none = pure none
  optional_absolute_path (some value) =
      if is_absolute (parse value) then pure (some (parse value)) else panic

  unfoldable pub optional_absolute_path_from_env : Bytes → Setup K (Option FilePath)
  unfolding optional_absolute_path
  optional_absolute_path_from_env name = optional_absolute_path (env.var_os name)

  module _ (os : Kernel K) (host : Host (Heap K)) where
    unfoldable pub overlay_vfs : Setup K (RootVfs (Heap K) MemoryOpenedFile)
    unfolding required_dir_from_env optional_absolute_path_from_env overlay_of mount_memory rooted
    overlay_vfs = do
      lower ← required_dir_from_env lower_env
      upper ← required_dir_from_env upper_env
      mount ← optional_absolute_path_from_env memory_mount_env
      mount_memory os (rooted os (overlay_of host upper lower)) mount

    unfoldable pub vfs_of : BackendKind → Setup K (RootVfs (Heap K) MemoryOpenedFile)
    unfolding memory_vfs overlay_vfs
    vfs_of memory = memory_vfs os
    vfs_of overlay = overlay_vfs

    unfoldable pub vfs : Setup K (RootVfs (Heap K) MemoryOpenedFile)
    unfolding backend_kind vfs_of
    vfs = do kind ← backend_kind; vfs_of kind
