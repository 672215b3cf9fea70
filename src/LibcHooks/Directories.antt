-- ===== src/LibcHooks/Directories.antt =====
-- src/libc_hooks.rs: `opendir` and `closedir`. The listing of a virtual directory is copied to a
-- directory of the host, which is opened in its place and removed when it is closed. `Linked` holds
-- the functions to which the linker binds the symbols `rmdir` and `unlink` of the `libc` crate.
pub mod Copied
pub mod Entries
use sandbox_vfs.Base.{
  ℕ, zero, suc, ◌+◌, ◌%◌, ◌/◌, ◌^◌, Bool, ◌||◌, Option, none, some, List, [], ◌∷◌, ◌++◌, reverse, ℤ,
  pos, minus_one, Bytes, bytes_eq, codes, bit_or, is_negative, int_eq, ltb, ◌==◌, if◌then◌else◌,
  Action, Outcome, returned, panicked, pure, ◌>>=◌, ◌>>◌,
}
use sandbox_vfs.CStr.{from_cstr, path_to_cstring}
use sandbox_vfs.FilePath.{FilePath, join}
use sandbox_vfs.FilePath.Text.{parse}
use sandbox_vfs.Filesystem.{EntryKind, file, dir, DirEntry}
use sandbox_vfs.Libc.{o_creat, o_wronly, o_trunc}
use sandbox_vfs.LibcHooks.{Originals, catch_unwind}
use sandbox_vfs.RootVfs.{RootVfs, VfsState, Vfs, lift}
use sandbox_vfs.RootVfs.Listing

pub record MaterializedDir : Type 0 where
  pub path : FilePath
  pub entries : List DirEntry

-- The statics of the file; the table's keys are the addresses of the open directories.
pub record HookState (W H : Type 0) : Type 0 where
  pub vfs : VfsState W H
  pub materialized_dirs : ℕ → Option MaterializedDir
  pub next_materialized_dir : ℕ

pub record Linked (W H : Type 0) : Type 0 where
  pub rmdir : Bytes → Vfs W H ℤ
  pub unlink : Bytes → Vfs W H ℤ

abbrev pub Hooks : Type 0 → Type 0 → Type 0 → Type 0
Hooks W H A = Action (HookState W H) A

-- A number below 10 ^ 20 in decimal digits, in front of `rest`.
unfoldable pub decimal_from : ℕ → ℕ → Bytes → Bytes
decimal_from zero n rest = rest
decimal_from (suc digits) n rest =
    let more = decimal_from digits (n / 10) ((48 + n % 10) ∷ rest) in
    if ltb n 10 then (48 + n) ∷ rest else more

unfoldable pub decimal : ℕ → Bytes
unfolding decimal_from
decimal n = decimal_from 20 n []

-- format!("/tmp/sandbox-vfs-opendir-{}-{}", pid, number)
unfoldable pub materialized_path : ℕ → ℕ → FilePath
unfolding decimal parse
materialized_path pid number =
    parse (codes "/tmp/sandbox-vfs-opendir-" ++ (decimal pid ++ (codes "-" ++ decimal number)))

abbrev pub is_dot : DirEntry → Bool
is_dot e = bytes_eq e.name (codes ".") || bytes_eq e.name (codes "..")

module _ {W H : Type 0} where
  abbrev pub lift_outcome :
      {A : Type 0} → HookState W H → Outcome (VfsState W H) A → Outcome (HookState W H) A
  lift_outcome s (returned a v) = returned a (record s { vfs = v })
  lift_outcome s (panicked v) = panicked (record s { vfs = v })

  abbrev pub lift_vfs : {A : Type 0} → Vfs W H A → Hooks W H A
  lift_vfs m s = lift_outcome s (m s.vfs)

  abbrev put_dir : ℕ → Option MaterializedDir → HookState W H → HookState W H
  put_dir dirp entry s = record s {
    materialized_dirs = λ d. if dirp == d then entry else s.materialized_dirs d;
  }

  -- MATERIALIZED_DIRS.write().unwrap().insert(..)
  unfoldable pub insert_dir : ℕ → MaterializedDir → Hooks W H (Unit {0})
  insert_dir dirp materialized s = returned tt (put_dir dirp (some materialized) s)

  -- MATERIALIZED_DIRS.write().unwrap().remove(..)
  unfoldable pub remove_dir : ℕ → Hooks W H (Option MaterializedDir)
  remove_dir dirp s = returned (s.materialized_dirs dirp) (put_dir dirp none s)

  -- fetch_add(1)
  unfoldable pub next_number : Hooks W H ℕ
  next_number s =
      returned s.next_materialized_dir
        (record s { next_materialized_dir = (s.next_materialized_dir + 1) % 2 ^ 64 })

  module _ (linked : Linked W H) where
    unfoldable pub remove_entry : Bytes → EntryKind → Vfs W H ℤ
    remove_entry c_entry_path dir = linked.rmdir c_entry_path
    remove_entry c_entry_path file = linked.unlink c_entry_path

    -- The loop of `cleanup_materialized_dir`; what the calls return is dropped.
    unfoldable pub remove_entries : FilePath → List DirEntry → Hooks W H (Unit {0})
    unfolding remove_entry
    remove_entries path [] = pure tt
    remove_entries path (e ∷ es) = do
      c_entry_path ← path_to_cstring (join path (parse e.name))
      lift_vfs (remove_entry c_entry_path e.kind)
      remove_entries path es

    unfoldable pub cleanup_materialized_dir : MaterializedDir → Hooks W H (Unit {0})
    unfolding remove_entries
    cleanup_materialized_dir materialized = do
      remove_entries materialized.path (reverse materialized.entries)
      c_path ← path_to_cstring materialized.path
      lift_vfs (linked.rmdir c_path)
      pure tt

    unfoldable pub cleanup_removed : Option MaterializedDir → Hooks W H (Unit {0})
    unfolding cleanup_materialized_dir
    cleanup_removed none = pure tt
    cleanup_removed (some materialized) = cleanup_materialized_dir materialized

    module _ (orig : Originals W) where
      unfoldable pub create_entry : Bytes → EntryKind → Action W ℤ
      create_entry c_entry_path dir = orig.mkdir c_entry_path 0o700
      create_entry c_entry_path file = do
        fd ← orig.open_path c_entry_path (bit_or (bit_or o_creat o_wronly) o_trunc) 0o600
        if is_negative fd then pure minus_one else orig.close fd

      -- What follows the attempt to create an entry.
      unfoldable pub keep_created :
          FilePath
          → List DirEntry
          → Hooks W H (Option MaterializedDir)
          → ℤ
          → Hooks W H (Option MaterializedDir)
      unfolding cleanup_materialized_dir
      keep_created path created next result =
          if int_eq result (pos 0)
          then next
          else (do cleanup_materialized_dir (record { path = path; entries = created }); pure none)

      -- The loop of `materialize_dir`.
      unfoldable pub create_entries :
          FilePath → List DirEntry → List DirEntry → Hooks W H (Option MaterializedDir)
      unfolding create_entry keep_created
      create_entries path [] created = pure (some (record { path = path; entries = created }))
      create_entries path (e ∷ es) created =
          let skip = create_entries path es created in
          let next = create_entries path es (created ++ e ∷ []) in
          if is_dot e then skip else (do
            c_entry_path ← path_to_cstring (join path (parse e.name))
            result ← lift_vfs (lift (create_entry c_entry_path e.kind))
            keep_created path created next result)

      unfoldable pub fill_created :
          FilePath → List DirEntry → ℤ → Hooks W H (Option MaterializedDir)
      unfolding create_entries
      fill_created path entries status =
          if int_eq status (pos 0) then create_entries path entries [] else pure none

      unfoldable pub materialize_at : FilePath → List DirEntry → Hooks W H (Option MaterializedDir)
      unfolding fill_created
      materialize_at path entries = do
        c_path ← path_to_cstring path
        status ← lift_vfs (lift (orig.mkdir c_path 0o700))
        fill_created path entries status

      unfoldable pub materialize_dir : ℕ → List DirEntry → Hooks W H (Option MaterializedDir)
      unfolding next_number materialize_at
      materialize_dir pid entries = do
        number ← next_number
        materialize_at (materialized_path pid number) entries

      -- A null pointer means that the copy could not be opened.
      unfoldable pub keep_opened : Bytes → MaterializedDir → ℕ → Hooks W H ℕ
      unfolding cleanup_materialized_dir insert_dir
      keep_opened name materialized dirp =
          if dirp == 0
          then (do cleanup_materialized_dir materialized; lift_vfs (lift (orig.opendir name)))
          else (do insert_dir dirp materialized; pure dirp)

      -- What is opened in place of a listing, if it could be copied.
      unfoldable pub open_materialized : Bytes → Option MaterializedDir → Hooks W H ℕ
      unfolding keep_opened
      open_materialized name none = lift_vfs (lift (orig.opendir name))
      open_materialized name (some materialized) = do
        c_path ← path_to_cstring materialized.path
        dirp ← lift_vfs (lift (orig.opendir c_path))
        keep_opened name materialized dirp

      unfoldable pub open_listed : ℕ → Bytes → Option (List DirEntry) → Hooks W H ℕ
      unfolding materialize_dir open_materialized
      open_listed pid name none = lift_vfs (lift (orig.opendir name))
      open_listed pid name (some entries) = do
        materialized ← materialize_dir pid entries
        open_materialized name materialized

      unfoldable pub opendir : ℕ → RootVfs W H → Bytes → Hooks W H ℕ
      unfolding catch_unwind open_listed
      opendir pid vfs name =
          catch_unwind
            (do
              listed ← lift_vfs (Listing.read_dir vfs (from_cstr name))
              open_listed pid name listed)
            (lift_vfs (lift (orig.opendir name)))

      unfoldable pub closedir : ℕ → Hooks W H ℤ
      unfolding catch_unwind remove_dir cleanup_removed
      closedir dirp =
          catch_unwind
            (do
              materialized ← remove_dir dirp
              result ← lift_vfs (lift (orig.closedir dirp))
              cleanup_removed materialized
              pure result)
            (lift_vfs (lift (orig.closedir dirp)))
