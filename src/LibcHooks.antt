-- ===== src/LibcHooks.antt =====
-- src/libc_hooks.rs and the macro of src/dlhooks.rs: the symbols of libc that the library puts in
-- front of libc's own. The functions behind them, which `dlsym` finds, are a parameter. A pointer
-- argument is the memory that it points to, a `stat` buffer is passed in and returned.
pub mod Paths
pub mod Descriptors
pub mod Directories
pub mod Config
pub mod Calls
use sandbox_vfs.Base.{
  ℕ, Bool, ℤ, Bytes, Action, Outcome, returned, panicked, if◌then◌else◌, bit_or, has_flag,
}
use sandbox_vfs.Filesystem.{Stat}
use sandbox_vfs.Libc.{o_creat, o_tmpfile}
use sandbox_vfs.RootVfs.{Vfs}

-- The argument of `fcntl` as the original is called with it.
pub data FcntlArg : Type 0 where
  no_arg : FcntlArg
  int_arg : ℤ → FcntlArg
  ptr_arg : ℕ → FcntlArg

-- call_orig, for each hook
pub record Originals (W : Type 0) : Type 0 where
  pub accessat : ℤ → Bytes → ℕ → ℕ → Action W ℤ
  pub access : Bytes → ℕ → Action W ℤ
  pub chmod : Bytes → ℕ → Action W ℤ
  pub stat : Bytes → Stat → Action W (ℤ × Stat)
  pub lstat : Bytes → Stat → Action W (ℤ × Stat)
  pub fstat : ℤ → Stat → Action W (ℤ × Stat)
  pub fstatat : ℤ → Bytes → Stat → ℕ → Action W (ℤ × Stat)
  pub newfstatat : ℤ → Bytes → Stat → ℕ → Action W (ℤ × Stat)
  pub fchownat : ℤ → Bytes → ℕ → ℕ → ℕ → Action W ℤ
  pub lchown : Bytes → ℕ → ℕ → Action W ℤ
  pub creat : Bytes → ℕ → Action W ℤ
  pub open_path : Bytes → ℕ → ℕ → Action W ℤ
  pub close : ℤ → Action W ℤ
  pub dup : ℤ → Action W ℤ
  pub dup2 : ℤ → ℤ → Action W ℤ
  pub dup3 : ℤ → ℤ → ℕ → Action W ℤ
  pub fcntl : ℤ → ℤ → FcntlArg → Action W ℤ
  pub mkdir : Bytes → ℕ → Action W ℤ
  pub mkdirat : ℤ → Bytes → ℕ → Action W ℤ
  pub unlink : Bytes → Action W ℤ
  pub rmdir : Bytes → Action W ℤ
  pub unlinkat : ℤ → Bytes → ℕ → Action W ℤ
  pub rename : Bytes → Bytes → Action W ℤ
  pub renameat : ℤ → Bytes → ℤ → Bytes → Action W ℤ
  pub renameat2 : ℤ → Bytes → ℤ → Bytes → ℕ → Action W ℤ
  pub getdents64 : ℤ → Bool → ℤ → Action W (ℤ × Bytes)
  pub opendir : Bytes → Action W ℕ
  pub closedir : ℕ → Action W ℤ

-- The hook, or after a panic the original: `catch_unwind(..).unwrap_or_else(..)`.
unfoldable pub catch_unwind : {S A : Type 0} → Action S A → Action S A → Action S A
catch_unwind hook orig s = elim (hook s) [ returned a s' ↦ returned a s' | panicked s' ↦ orig s' ]

-- The variadic mode is read for these flags only.
unfoldable pub open_mode : ℕ → ℕ → ℕ
open_mode oflag va_mode = if has_flag oflag (bit_or o_creat o_tmpfile) then va_mode else 0
