-- ===== src/Filesystem.antt =====
-- src/filesystem.rs: the types of directory listings and open results, and the traits as records
-- of operations. The values of a type that implements `OpenedFile` are the type `H`; `W` is all
-- state that the operations change. A `&mut stat` argument is passed in and returned.
use sandbox_vfs.Base.{ℕ, Option, none, List, Bytes, ℤ, Action, pure, ◌>>=◌}
use sandbox_vfs.FilePath.{FilePath}

pub data EntryKind : Type 0 where
  file dir : EntryKind

pub record DirEntry : Type 0 where
  pub name : Bytes
  pub kind : EntryKind
  pub ino : Option ℕ

-- The fields of `struct stat` that the program writes, and one that only the kernel does.
pub record Stat : Type 0 where
  pub st_mode : ℕ
  pub st_ino : ℕ
  pub st_nlink : ℕ
  pub st_blksize : ℕ
  pub st_size : ℕ

-- std::mem::zeroed()
abbrev pub zeroed : Stat
zeroed = record { st_mode = 0; st_ino = 0; st_nlink = 0; st_blksize = 0; st_size = 0 }

pub record OpenResult (H : Type 0) : Type 0 where
  pub fd : ℤ
  pub opened : Option H

abbrev pub from_fd : {H : Type 0} → ℤ → OpenResult H
from_fd fd = record { fd = fd; opened = none }

pub record OpenedFile (W H : Type 0) : Type 0 where
  pub stat : H → Stat → Action W (ℤ × Stat)
  pub open_child : H → FilePath → ℕ → ℕ → Action W (Option (OpenResult H))
  pub mkdir_child : H → FilePath → ℕ → Action W (Option ℤ)
  pub read_dir : H → Action W (Option (List DirEntry))

pub record LowLevelFs (W H : Type 0) : Type 0 where
  pub id : Bytes
  pub access : FilePath → ℕ → Action W ℤ
  pub open_path : FilePath → ℕ → ℕ → Action W ℤ
  pub openat : ℤ → FilePath → ℕ → ℕ → Action W ℤ
  pub mkdir : FilePath → ℕ → Action W ℤ
  pub unlink : FilePath → Action W ℤ
  pub rmdir : FilePath → Action W ℤ
  pub rename : FilePath → FilePath → Action W ℤ
  pub chmod : FilePath → ℕ → Action W ℤ
  pub stat : FilePath → Stat → Action W (ℤ × Stat)
  pub open_with_handle : FilePath → ℕ → ℕ → Action W (OpenResult H)
  pub read_dir : FilePath → Action W (Option (List DirEntry))

-- The bodies that the trait gives to `open_with_handle` and `read_dir`.
unfoldable pub default_open_with_handle :
    {W H : Type 0} → (FilePath → ℕ → ℕ → Action W ℤ) → FilePath → ℕ → ℕ → Action W (OpenResult H)
default_open_with_handle open_path path flag mode = do
  fd ← open_path path flag mode
  pure (from_fd fd)

unfoldable pub default_read_dir : {W : Type 0} → FilePath → Action W (Option (List DirEntry))
default_read_dir path = pure none
