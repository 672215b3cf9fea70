-- ===== src/Dirents.antt =====
-- src/linux_dirents.rs. The buffer of the caller is the list of the bytes that are written to its
-- front; a number is stored in the byte order of x86-64. The hash that gives a path its inode
-- number is the standard library's and a parameter here.
pub mod Lengths
pub mod Records
pub mod Reader
use sandbox_vfs.Base.{
  ℕ, zero, suc, ◌+◌, ◌-◌, ◌%◌, ◌/◌, ◌^◌, Bool, true, false, ◌||◌, Option, none, some, List, [], ◌∷◌,
  ◌++◌, Bytes, bytes_eq, ℤ, pos, negsuc, minus_one, codes, bit_and, ltb, length, replicate, ◌==◌,
  ◌&&◌, not, if◌then◌else◌,
}
use sandbox_vfs.FilePath.{FilePath, root_path, normal, join, parent}
use sandbox_vfs.Filesystem.{EntryKind, file, dir, DirEntry}
use sandbox_vfs.Libc.{dt_dir, dt_reg}

pub record WriteDirentsResult : Type 0 where
  pub bytes_written : ℤ
  pub entries_consumed : ℕ

abbrev pub dot_entries : List DirEntry
dot_entries =
    record { name = codes "."; kind = dir; ino = none }
    ∷ record { name = codes ".."; kind = dir; ino = none }
    ∷ []

-- (value + alignment - 1) & !(alignment - 1), on 64 bits
unfoldable pub align_to : ℕ → ℕ → ℕ
align_to value alignment = bit_and ((value + alignment - 1) % 2 ^ 64) (2 ^ 64 - 1 - (alignment - 1))

unfoldable pub dirent_type : EntryKind → ℕ
dirent_type file = dt_reg
dirent_type dir = dt_dir

-- `n` bytes of a number, the lowest first.
unfoldable pub le_bytes : ℕ → ℕ → Bytes
le_bytes zero v = []
le_bytes (suc n) v = (v % 256) ∷ le_bytes n (v / 256)

abbrev or_root : Option FilePath → FilePath
or_root none = root_path
or_root (some p) = p

unfoldable pub entry_path : FilePath → Bytes → FilePath
entry_path parent_path name =
    if bytes_eq name (codes ".")
    then parent_path
    else if bytes_eq name (codes "..")
    then or_root (parent parent_path)
    else join parent_path (normal name ∷ [])

unfoldable pub record_length : Bytes → ℕ
unfolding align_to
record_length name = align_to (19 + length name + 1) 8

-- The writes for one entry, in the order of the addresses.
unfoldable pub record_bytes : ℕ → ℕ → ℕ → DirEntry → Bytes
unfolding le_bytes dirent_type
record_bytes ino next_offset reclen entry =
    le_bytes 8 ino
    ++ (le_bytes 8 next_offset
        ++ (le_bytes 2 reclen
            ++ (dirent_type entry.kind
                ∷ (entry.name ++ (0 ∷ replicate (reclen - (19 + length entry.name + 1)) 0)))))

module _ (inode_for_path : FilePath → ℕ) where
  unfoldable pub entry_ino : FilePath → DirEntry → ℕ
  unfolding entry_path
  entry_ino parent_path entry = elim entry.ino [
    | some ino ↦ ino
    | none ↦ inode_for_path (entry_path parent_path entry.name)
  ]

  -- The loop: the bytes from here on, then the final `written` and `consumed`.
  unfoldable pub write_entries : FilePath → ℕ → ℕ → List DirEntry → ℕ → ℕ → Bytes × ℕ × ℕ
  unfolding entry_ino
  write_entries parent_path start_offset count [] written consumed = ([], written, consumed)
  write_entries parent_path start_offset count (entry ∷ entries) written consumed =
      let reclen = record_length entry.name in
      let rest =
        write_entries parent_path start_offset count entries (written + reclen) (consumed + 1) in
      if ltb count (written + reclen) then ([], written, consumed) else (
        record_bytes (entry_ino parent_path entry) (start_offset + consumed + 1) reclen entry
            ++ rest.0,
        rest.1,
        rest.2,
      )

  abbrev is_nil : List DirEntry → Bool
  is_nil [] = true
  is_nil (e ∷ es) = false

  -- An unusable buffer writes nothing.
  unfoldable pub write_dirents64 :
      FilePath → List DirEntry → ℕ → Bool → ℤ → WriteDirentsResult × Bytes
  write_dirents64 parent_path entries start_offset dirp_is_null (negsuc n) =
      (record { bytes_written = minus_one; entries_consumed = 0 }, [])
  write_dirents64 parent_path entries start_offset dirp_is_null (pos count) =
      if dirp_is_null || count == 0
      then (record { bytes_written = minus_one; entries_consumed = 0 }, [])
      else let (bytes, written, consumed) =
          write_entries parent_path start_offset count entries 0 0 in
        if consumed == 0 && not (is_nil entries)
        then (record { bytes_written = minus_one; entries_consumed = 0 }, bytes)
        else (record { bytes_written = pos written; entries_consumed = consumed }, bytes)
