-- ===== src/RootVfs/Listing/Pages.antt =====
-- `getdents64` of src/root_vfs.rs, call after call.
pub mod Called
pub mod Whole
pub mod ReadBack
use sandbox_vfs.Base.{
  ℕ, zero, suc, ◌+◌, ◌≤◌, ◌<◌, ◌≡◌, refl, sym, ap, ◌∙◌, false, Option, none, some, List, [], ◌∷◌,
  ◌++◌, Bytes, arith, ℤ, pos, minus_one, length, length-drop, take, drop, ltb, inl, inr, ◌⊎◌,
  Outcome, returned, panicked,
}
use sandbox_vfs.FilePath.{FilePath}
use sandbox_vfs.Filesystem.{DirEntry}
use sandbox_vfs.Dirents.{WriteDirentsResult, dot_entries, write_dirents64}
use sandbox_vfs.Dirents.Records.{
  NamesFit, first_length, records, records-append, write_dirents64-Written,
}
use sandbox_vfs.RootVfs.{VfsState, FdInfo, set_fd}
use sandbox_vfs.RootVfs.Listing.{advance, fill}

take-nil : (n : ℕ) → take {A = DirEntry} n [] ≡ []
take-nil zero = refl
take-nil (suc n) = refl

first_length-drop : (n : ℕ) (es : List DirEntry) → 0 < first_length (drop n es) → n < length es
first_length-drop zero [] h = h
first_length-drop zero (e ∷ es) h = omega arith
first_length-drop (suc n) [] h = absurd (omega arith)
first_length-drop (suc n) (e ∷ es) h = omega (arith, first_length-drop n es h)

take_more : (n k : ℕ) (es : List DirEntry) → take (n + k) es ≡ take n es ++ take k (drop n es)
take_more zero k es = ap (λ m. take m es) (omega arith)
take_more (suc n) k [] = take-nil (suc n + k) ∙ sym (take-nil k)
take_more (suc n) k (e ∷ es) =
    ap (λ m. take m (e ∷ es)) {y = suc (n + k)} (omega arith) ∙ ap (◌∷◌ e) (take_more n k es)

length-take : (n : ℕ) (es : List DirEntry) → n ≤ length es → length (take n es) ≡ n
length-take zero es h = refl
length-take (suc n) [] h = absurd (omega arith)
length-take (suc n) (e ∷ es) h = ap suc (length-take n es (omega arith))

NamesFit-drop : (n : ℕ) (es : List DirEntry) → NamesFit es → NamesFit (drop n es)
NamesFit-drop zero es fit = fit
NamesFit-drop (suc n) [] fit = tt
NamesFit-drop (suc n) (e ∷ es) (fits, fit) = NamesFit-drop n es fit

module _ {W H : Type 0} (inode_for_path : FilePath → ℕ) (info : FdInfo H) (listed : List DirEntry)
    (fd : ℤ) (count : ℕ) (s : VfsState W H) where
  abbrev pub entries : List DirEntry
  entries = dot_entries ++ listed

  abbrev pub listing : ℕ → Bytes
  listing n = records inode_for_path info.path 0 (take n entries)

  -- The outcome of a call: status -1 and nothing changed, since the next record is too long, or the
  -- records that come after those of the entries before, with the offset moved over them.
  abbrev pub Page : Outcome (VfsState W H) (Option (ℤ × Bytes)) → Type 0
  Page (panicked s') = ⊥
  Page (returned none s') = ⊥
  Page (returned (some (status, bytes)) s') =
      ((status ≡ minus_one)
        × (s' ≡ s)
        × (info.dir_offset < length entries)
        × (count < first_length (drop info.dir_offset entries)))
      ⊎ ((o : ℕ) × (status ≡ pos (length bytes))
          × (length bytes ≤ count)
          × (s' ≡ set_fd fd (some (record info { dir_offset = o })) s)
          × (o ≤ length entries)
          × (listing info.dir_offset ++ bytes ≡ listing o)
          × (info.dir_offset < length entries → info.dir_offset < o))

  module _ (open_fd : s.fds fd ≡ some info) (fit : NamesFit entries) (usable : 0 < count)
      (in_range : info.dir_offset ≤ length entries) where
    abbrev rest : List DirEntry
    rest = drop info.dir_offset entries

    abbrev written : WriteDirentsResult × Bytes
    written = write_dirents64 inode_for_path info.path rest info.dir_offset false (pos count)

    to_written :
        fill inode_for_path info listed fd false (pos count) s
        ≡ returned (some (written.0.bytes_written, written.1)) (advance fd written.0 s)
    unfolding fill
    to_written =
        let inside : ltb (length entries) info.dir_offset ≡ false = ground arith in rw inside refl

    advance_failed : written.0.bytes_written ≡ minus_one → advance fd written.0 s ≡ s
    unfolding advance
    advance_failed e = rw e refl

    advance_filled :
        (n : ℕ)
        → written.0.bytes_written ≡ pos n
        → advance fd written.0 s
          ≡ set_fd fd
              (some (record info { dir_offset = info.dir_offset + written.0.entries_consumed }))
              s
    unfolding advance
    advance_filled n e = rw (e, open_fd) refl

    continues :
        (k : ℕ) (bytes : Bytes)
        → bytes ≡ records inode_for_path info.path info.dir_offset (take k rest)
        → listing info.dir_offset ++ bytes ≡ listing (info.dir_offset + k)
    continues k bytes e =
        let o = info.dir_offset in
        ap (λ x. listing o ++ x) e
        ∙ ap (λ n. listing o ++ records inode_for_path info.path n (take k rest))
            (omega (arith, length-take o entries in_range))
        ∙ sym (records-append inode_for_path info.path 0 (take o entries) (take k rest))
        ∙ ap (records inode_for_path info.path 0) (sym (take_more o k entries))

    -- What is filled in for a listing of an open directory, into a usable buffer, is the next page.
    pub fill-Page : Page (fill inode_for_path info listed fd false (pos count) s)
    fill-Page =
        rw to_written
          (elim (write_dirents64-Written inode_for_path info.path info.dir_offset count rest
            (NamesFit-drop info.dir_offset entries fit) usable) [
              | inl (status, consumed, bytes, too_long) ↦ inl (
                status,
                advance_failed status,
                first_length-drop info.dir_offset entries (omega arith),
                too_long,
              )
              | inr (status, room, le, bytes, next, progress) ↦ inr (
                info.dir_offset + written.0.entries_consumed,
                status,
                room,
                advance_filled (length written.1) status,
                omega (arith, length-drop info.dir_offset entries),
                continues written.0.entries_consumed written.1 bytes,
                λ more. omega (
                  arith,
                  length-drop info.dir_offset entries,
                  progress (omega (arith, length-drop info.dir_offset entries)),
                ),
              )
            ])
