-- ===== src/LibcHooks/Calls/Copies.antt =====
-- `opendir` and `closedir` of src/libc_hooks.rs, whose copies on the host leave the table of
-- descriptors alone, as far as the functions behind `rmdir` and `unlink` do.
use sandbox_vfs.Base.{
  ℕ, ◌==◌, Option, none, some, List, [], ◌∷◌, ◌++◌, reverse, ℤ, pos, Bytes, int_eq, Bool-cases, inl,
  inr, Action, Outcome, returned, panicked, after, pure, ◌>>=◌, ◌>>◌, Preserves, Preserves-bind,
  Preserves-if,
}
use sandbox_vfs.CStr.{from_cstr, has_nul, path_to_cstring}
use sandbox_vfs.FilePath.{FilePath, join}
use sandbox_vfs.FilePath.Text.{parse, print}
use sandbox_vfs.Filesystem.{EntryKind, file, dir, DirEntry}
use sandbox_vfs.RootVfs.{RootVfs, Vfs, lift}
use sandbox_vfs.RootVfs.Listing
use sandbox_vfs.LibcHooks.{Originals}
use sandbox_vfs.LibcHooks.Directories
use sandbox_vfs.LibcHooks.Directories.{
  MaterializedDir, HookState, Linked, Hooks, is_dot, lift_outcome, lift_vfs, insert_dir, remove_dir,
  next_number, remove_entry, remove_entries, cleanup_materialized_dir, cleanup_removed,
  create_entry, keep_created, create_entries, fill_created, materialize_at, materialize_dir,
  keep_opened, open_materialized, open_listed, materialized_path,
}
use sandbox_vfs.LibcHooks.Calls.Keeps.{IsSound, Keeps, lift-Keeps, catch_unwind-Preserves}
use sandbox_vfs.LibcHooks.Calls.Listings

module _ {W H : Type 0} where
  abbrev pub IsSoundProcess : HookState W H → Type 0
  IsSoundProcess s = IsSound s.vfs

  abbrev pub KeepsProcess : {A : Type 0} → Hooks W H A → Type 0
  KeepsProcess m = Preserves IsSoundProcess m

  lifted-IsSoundProcess :
      {A : Type 0} (s : HookState W H) (o : Outcome _ A)
      → IsSound (after o)
      → IsSoundProcess (after (lift_outcome s o))
  lifted-IsSoundProcess s (returned a v) sound = sound
  lifted-IsSoundProcess s (panicked v) sound = sound

  pub lift_vfs-Keeps : {A : Type 0} (m : Vfs W H A) → Keeps m → KeepsProcess (lift_vfs m)
  lift_vfs-Keeps m keeps s sound = lifted-IsSoundProcess s (m s.vfs) (keeps s.vfs sound)

  called-Keeps : {A : Type 0} (call : Action W A) → KeepsProcess (lift_vfs (lift call))
  called-Keeps call = lift_vfs-Keeps (lift call) (lift-Keeps call)

  path_to_cstring-Keeps : (path : FilePath) → KeepsProcess (path_to_cstring path)
  unfolding path_to_cstring
  path_to_cstring-Keeps path s sound = elim (Bool-cases (has_nul (print path))) [
    | inl e ↦ rw (after, e) sound
    | inr e ↦ rw (after, e) sound
  ]

  insert_dir-Keeps :
      (dirp : ℕ) (materialized : MaterializedDir) → KeepsProcess (insert_dir dirp materialized)
  unfolding insert_dir
  insert_dir-Keeps dirp materialized s sound = sound

  remove_dir-Keeps : (dirp : ℕ) → KeepsProcess (remove_dir dirp)
  unfolding remove_dir
  remove_dir-Keeps dirp s sound = sound

  next_number-Keeps : KeepsProcess next_number
  unfolding next_number
  next_number-Keeps s sound = sound

  then_Keeps :
      {A B : Type 0} (m : Hooks W H A) (f : A → Hooks W H B)
      → KeepsProcess m
      → ((a : A) → KeepsProcess (f a))
      → KeepsProcess (m >>= f)
  then_Keeps = Preserves-bind IsSoundProcess

  -- A name becomes a C string, or the process panics.
  named_Keeps :
      {B : Type 0} (path : FilePath) (f : Bytes → Hooks W H B)
      → ((c : Bytes) → KeepsProcess (f c))
      → KeepsProcess (path_to_cstring path >>= f)
  named_Keeps path f = then_Keeps (path_to_cstring path) f (path_to_cstring-Keeps path)

module _ {W H : Type 0} (linked : Linked W H) (rmdir-Keeps : (c : Bytes) → Keeps (linked.rmdir c))
    (unlink-Keeps : (c : Bytes) → Keeps (linked.unlink c)) where
  remove_entry-Keeps : (c : Bytes) (kind : EntryKind) → Keeps (remove_entry linked c kind)
  unfolding remove_entry
  remove_entry-Keeps c file = unlink-Keeps c
  remove_entry-Keeps c dir = rmdir-Keeps c

  remove_entries-Keeps :
      (path : FilePath) (es : List DirEntry) → KeepsProcess (remove_entries linked path es)
  unfolding remove_entries
  remove_entries-Keeps path [] = λ s i. i
  remove_entries-Keeps path (e ∷ es) = named_Keeps (join path (parse e.name)) _ (λ c.
      then_Keeps (lift_vfs (remove_entry linked c e.kind)) _
        (lift_vfs-Keeps (remove_entry linked c e.kind) (remove_entry-Keeps c e.kind))
        (λ _. remove_entries-Keeps path es))

  cleanup-Keeps :
      (materialized : MaterializedDir) → KeepsProcess (cleanup_materialized_dir linked materialized)
  unfolding cleanup_materialized_dir
  cleanup-Keeps materialized =
      then_Keeps (remove_entries linked materialized.path (reverse materialized.entries)) _
        (remove_entries-Keeps materialized.path (reverse materialized.entries))
        (λ _. named_Keeps materialized.path _ (λ c.
          then_Keeps (lift_vfs (linked.rmdir c)) _ (lift_vfs-Keeps (linked.rmdir c) (rmdir-Keeps c))
            (λ _ s i. i)))

  cleanup_removed-Keeps :
      (removed : Option MaterializedDir) → KeepsProcess (cleanup_removed linked removed)
  unfolding cleanup_removed
  cleanup_removed-Keeps none = λ s i. i
  cleanup_removed-Keeps (some materialized) = cleanup-Keeps materialized

  module _ (orig : Originals W) where
    keep_created-Keeps :
        (path : FilePath) (created : List DirEntry) (next : Hooks W H (Option MaterializedDir))
        (result : ℤ)
        → KeepsProcess next
        → KeepsProcess (keep_created linked orig path created next result)
    unfolding keep_created
    keep_created-Keeps path created next result keeps =
        Preserves-if IsSoundProcess (int_eq result (pos 0)) next _ keeps (
          then_Keeps (cleanup_materialized_dir linked (record { path = path; entries = created })) _
            (cleanup-Keeps (record { path = path; entries = created })) (λ _ s i. i))

    create_entries-Keeps :
        (path : FilePath) (es created : List DirEntry)
        → KeepsProcess (create_entries linked orig path es created)
    unfolding create_entries
    create_entries-Keeps path [] created = λ s i. i
    create_entries-Keeps path (e ∷ es) created =
        Preserves-if IsSoundProcess (is_dot e) (create_entries linked orig path es created) _
          (create_entries-Keeps path es created)
          (named_Keeps (join path (parse e.name)) _ (λ c.
            then_Keeps (lift_vfs (lift (create_entry linked orig c e.kind))) _
              (called-Keeps (create_entry linked orig c e.kind))
              (λ result.
                keep_created-Keeps path created
                  (create_entries linked orig path es (created ++ e ∷ [])) result
                  (create_entries-Keeps path es (created ++ e ∷ [])))))

    materialize_at-Keeps :
        (path : FilePath) (entries : List DirEntry)
        → KeepsProcess (materialize_at linked orig path entries)
    unfolding materialize_at fill_created
    materialize_at-Keeps path entries = named_Keeps path _ (λ c.
        then_Keeps (lift_vfs (lift (orig.mkdir c 0o700))) (fill_created linked orig path entries)
          (called-Keeps (orig.mkdir c 0o700))
          (λ status.
            Preserves-if IsSoundProcess (int_eq status (pos 0))
              (create_entries linked orig path entries []) (pure none)
              (create_entries-Keeps path entries []) (λ s i. i)))

    materialize_dir-Keeps :
        (pid : ℕ) (entries : List DirEntry) → KeepsProcess (materialize_dir linked orig pid entries)
    unfolding materialize_dir
    materialize_dir-Keeps pid entries =
        then_Keeps next_number
          (λ number. materialize_at linked orig (materialized_path pid number) entries)
          next_number-Keeps (λ number. materialize_at-Keeps (materialized_path pid number) entries)

    keep_opened-Keeps :
        (name : Bytes) (materialized : MaterializedDir) (dirp : ℕ)
        → KeepsProcess (keep_opened linked orig name materialized dirp)
    unfolding keep_opened
    keep_opened-Keeps name materialized dirp =
        Preserves-if IsSoundProcess (dirp == 0)
          (do cleanup_materialized_dir linked materialized; lift_vfs (lift (orig.opendir name)))
          (do insert_dir dirp materialized; pure dirp)
          (then_Keeps (cleanup_materialized_dir linked materialized)
            (λ _. lift_vfs (lift (orig.opendir name))) (cleanup-Keeps materialized)
            (λ _. called-Keeps (orig.opendir name)))
          (then_Keeps (insert_dir dirp materialized) (λ _. pure dirp)
            (insert_dir-Keeps dirp materialized) (λ _ s i. i))

    open_materialized-Keeps :
        (name : Bytes) (materialized : Option MaterializedDir)
        → KeepsProcess (open_materialized linked orig name materialized)
    unfolding open_materialized
    open_materialized-Keeps name none = called-Keeps (orig.opendir name)
    open_materialized-Keeps name (some materialized) = named_Keeps materialized.path _ (λ c.
        then_Keeps (lift_vfs (lift (orig.opendir c))) (keep_opened linked orig name materialized)
          (called-Keeps (orig.opendir c)) (keep_opened-Keeps name materialized))

    open_listed-Keeps :
        (pid : ℕ) (name : Bytes) (listed : Option (List DirEntry))
        → KeepsProcess (open_listed linked orig pid name listed)
    unfolding open_listed
    open_listed-Keeps pid name none = called-Keeps (orig.opendir name)
    open_listed-Keeps pid name (some entries) =
        then_Keeps (materialize_dir linked orig pid entries) (open_materialized linked orig name)
          (materialize_dir-Keeps pid entries) (open_materialized-Keeps name)

    pub opendir-Keeps :
        (pid : ℕ) (vfs : RootVfs W H) (name : Bytes)
        → KeepsProcess (Directories.opendir linked orig pid vfs name)
    unfolding Directories.opendir
    opendir-Keeps pid vfs name =
        let listing = lift_vfs (Listing.read_dir vfs (from_cstr name)) in
        let original = lift_vfs (lift (orig.opendir name)) in
        catch_unwind-Preserves IsSoundProcess (listing >>= open_listed linked orig pid name)
          original
          (then_Keeps listing (open_listed linked orig pid name)
            (lift_vfs-Keeps (Listing.read_dir vfs (from_cstr name))
              (Listings.read_dir-Keeps vfs (from_cstr name)))
            (open_listed-Keeps pid name))
          (called-Keeps (orig.opendir name))

    pub closedir-Keeps : (dirp : ℕ) → KeepsProcess (Directories.closedir linked orig dirp)
    unfolding Directories.closedir
    closedir-Keeps dirp =
        let original = lift_vfs (lift (orig.closedir dirp)) in
        let close_removed : Option MaterializedDir → Hooks W H ℤ =
          (λ removed. do result ← original; cleanup_removed linked removed; pure result) in
        catch_unwind-Preserves IsSoundProcess (remove_dir dirp >>= close_removed) original
          (then_Keeps (remove_dir dirp) close_removed (remove_dir-Keeps dirp) (λ removed.
            then_Keeps original (λ result. cleanup_removed linked removed >> pure result)
              (called-Keeps (orig.closedir dirp))
              (λ result.
                then_Keeps (cleanup_removed linked removed) (λ _. pure result)
                  (cleanup_removed-Keeps removed) (λ _ s i. i))))
          (called-Keeps (orig.closedir dirp))
