-- ===== src/Dirents/Reader.antt =====
-- A reader of `struct linux_dirent64` records as a caller of getdents64 has it, and the round trip with
-- the records of src/linux_dirents.rs.
use sandbox_vfs.Base.{
  ℕ, zero, suc, ◌+◌, ◌*◌, ◌/◌, ◌^◌, ◌-◌, ◌<◌, ◌≤◌, ◌≡◌, refl, sym, ap, ◌∙◌, List, [], ◌∷◌, ◌++◌,
  append_assoc, arith, Bytes, length, take, drop, drop-append, replicate,
}
use sandbox_vfs.CStr.{strlen}
use sandbox_vfs.CStr.Laws.{take-strlen}
use sandbox_vfs.FilePath.{FilePath}
use sandbox_vfs.FilePath.Text.Split.{Without}
use sandbox_vfs.Filesystem.{DirEntry}
use sandbox_vfs.Dirents.{entry_ino, le_bytes, record_bytes, record_length, dirent_type}
use sandbox_vfs.Dirents.Lengths.{length-record_bytes}
use sandbox_vfs.Dirents.Records.{records}

-- struct linux_dirent64
pub record Dirent : Type 0 where
  pub d_ino : ℕ
  pub d_off : ℕ
  pub d_reclen : ℕ
  pub d_type : ℕ
  pub d_name : Bytes

-- A number in the byte order of x86-64.
abbrev pub le_value : Bytes → ℕ
le_value [] = 0
le_value (b ∷ s) = b + 256 * le_value s

-- The fields at their offsets; the name ends at the first nul.
abbrev pub read_record : Bytes → Dirent
read_record s = record {
  d_ino = le_value (take 8 s);
  d_off = le_value (take 8 (drop 8 s));
  d_reclen = le_value (take 2 (drop 16 s));
  d_type = le_value (take 1 (drop 18 s));
  d_name = take (strlen (drop 19 s)) (drop 19 s);
}

-- The loop of a caller over the bytes it was given: each record tells where the next one starts.
abbrev pub read_records : ℕ → Bytes → List Dirent
read_records zero s = []
read_records (suc fuel) [] = []
read_records (suc fuel) (b ∷ s) =
    let entry = read_record (b ∷ s) in entry ∷ read_records fuel (drop entry.d_reclen (b ∷ s))

-- The number has at most `n` bytes.
abbrev pub bytes_limit : ℕ → ℕ
bytes_limit zero = 1
bytes_limit (suc n) = 256 * bytes_limit n

le_value-le_bytes : (n v : ℕ) → v < bytes_limit n → le_value (le_bytes n v) ≡ v
unfolding le_bytes
le_value-le_bytes zero v h = omega arith
le_value-le_bytes (suc n) v h = omega (arith, le_value-le_bytes n (v / 256) (omega arith))

module _ (inode_for_path : FilePath → ℕ) (path : FilePath) where
  -- What the record of an entry can hold: a name without a nul in it and with a length that 16 bits
  -- count, an inode number of 64 bits, and a number for the next entry that is not negative.
  abbrev pub Holds : ℕ → DirEntry → Type 0
  Holds offset e =
      Without 0 e.name
      × (record_length e.name < 2 ^ 16)
      × (length e.name + 28 ≤ 2 ^ 64)
      × (entry_ino inode_for_path path e < 2 ^ 64)
      × (offset + 1 < 2 ^ 63)

  abbrev pub AllHold : ℕ → List DirEntry → Type 0
  AllHold offset [] = Unit {0}
  AllHold offset (e ∷ es) = Holds offset e × AllHold (offset + 1) es

  -- The entries as a caller is to see them.
  abbrev pub dirent : ℕ → DirEntry → Dirent
  dirent offset e = record {
    d_ino = entry_ino inode_for_path path e;
    d_off = offset + 1;
    d_reclen = record_length e.name;
    d_type = dirent_type e.kind;
    d_name = e.name;
  }

  abbrev pub dirents : ℕ → List DirEntry → List Dirent
  dirents offset [] = []
  dirents offset (e ∷ es) = dirent offset e ∷ dirents (offset + 1) es

  module _ (offset : ℕ) (e : DirEntry) (rest : Bytes) (holds : Holds offset e) where
    abbrev bytes : Bytes
    bytes = record_bytes (entry_ino inode_for_path path e) (offset + 1) (record_length e.name) e

    name_read : (z : Bytes) → let s = (e.name ++ (0 ∷ z)) ++ rest in take (strlen s) s ≡ e.name
    name_read z = rw (append_assoc e.name (0 ∷ z) rest) (take-strlen e.name (z ++ rest) holds.0)

    read_one : read_record (bytes ++ rest) ≡ dirent offset e
    unfolding record_bytes le_bytes
    read_one = λ i. record {
      d_ino = le_value-le_bytes 8 (entry_ino inode_for_path path e) (omega arith) i;
      d_off = le_value-le_bytes 8 (offset + 1) (omega arith) i;
      d_reclen = le_value-le_bytes 2 (record_length e.name) (omega arith) i;
      d_type = type_read i;
      d_name = name_read (replicate (record_length e.name - (19 + length e.name + 1)) 0) i;
    }
      where
        type_read : le_value (dirent_type e.kind ∷ []) ≡ dirent_type e.kind
        type_read = omega arith

    next_record : drop (record_length e.name) (bytes ++ rest) ≡ rest
    next_record =
        ap (λ n. drop n (bytes ++ rest))
          (sym (length-record_bytes (entry_ino inode_for_path path e) (offset + 1) e (holds.2)))
        ∙ drop-append bytes rest

    read_step :
        (fuel : ℕ)
        → read_records (suc fuel) (bytes ++ rest) ≡ dirent offset e ∷ read_records fuel rest
    unfolding record_bytes le_bytes
    read_step fuel =
        ap (λ r. r ∷ read_records fuel (drop r.d_reclen (bytes ++ rest))) read_one
        ∙ ap (λ s. dirent offset e ∷ read_records fuel s) next_record

  -- What a caller reads from the records of entries that these can hold is the entries.
  pub read_records_lem :
      (fuel offset : ℕ) (es : List DirEntry)
      → AllHold offset es
      → length es ≤ fuel
      → read_records fuel (records inode_for_path path offset es) ≡ dirents offset es
  read_records_lem zero offset [] h le = refl
  read_records_lem (suc fuel) offset [] h le = refl
  read_records_lem zero offset (e ∷ es) h le = absurd (omega arith)
  read_records_lem (suc fuel) offset (e ∷ es) (holds, h) le =
      read_step offset e (records inode_for_path path (offset + 1) es) holds fuel
      ∙ ap (◌∷◌ (dirent offset e)) (read_records_lem fuel (offset + 1) es h (omega arith))
