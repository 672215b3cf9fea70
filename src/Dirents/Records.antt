-- ===== src/Dirents/Records.antt =====
-- `write_dirents64` of src/linux_dirents.rs against the whole listing as records.
use sandbox_vfs.Base.{
  ℕ, suc, ◌+◌, ◌^◌, ◌≤◌, ◌<◌, ◌≡◌, refl, sym, ap, ◌∙◌, subst, false, List, [], ◌∷◌, ◌++◌, Bytes,
  arith, pos, minus_one, length, length-append, append_assoc, take, drop, ltb, ◌==◌, Bool-cases,
  inl, inr, ◌⊎◌,
}
use sandbox_vfs.FilePath.{FilePath}
use sandbox_vfs.Filesystem.{DirEntry}
use sandbox_vfs.Dirents.{
  WriteDirentsResult, record_length, record_bytes, entry_ino, write_entries, write_dirents64,
}
use sandbox_vfs.Dirents.Lengths.{length-record_bytes}

-- No length computation wraps around.
abbrev pub NamesFit : List DirEntry → Type 0
NamesFit [] = Unit {0}
NamesFit (e ∷ es) = (length e.name + 28 ≤ 2 ^ 64) × NamesFit es

abbrev pub first_length : List DirEntry → ℕ
first_length [] = 0
first_length (e ∷ es) = record_length e.name

module _ (inode_for_path : FilePath → ℕ) (path : FilePath) where
  -- The records of a listing whose first entry stands at `offset`.
  abbrev pub records : ℕ → List DirEntry → Bytes
  records offset [] = []
  records offset (e ∷ es) =
      record_bytes (entry_ino inode_for_path path e) (offset + 1) (record_length e.name) e
      ++ records (offset + 1) es

  abbrev record_at : ℕ → ℕ → DirEntry → Bytes
  record_at start c e =
      record_bytes (entry_ino inode_for_path path e) (start + c + 1) (record_length e.name) e

  -- The result of the loop after `w` bytes and `c` entries: as many whole records as fit.
  Fills : (start count : ℕ) → List DirEntry → (w c : ℕ) → Bytes × ℕ × ℕ → Type 0
  Fills start count es w c (bytes, written, consumed) =
      (k : ℕ) × (consumed ≡ c + k)
      × (k ≤ length es)
      × (bytes ≡ records (start + c) (take k es))
      × (written ≡ w + length bytes)
      × (written ≤ count)
      × (k < length es → count < written + first_length (drop k es))

  write_entries-Fills :
      (start count : ℕ) (es : List DirEntry) (w c : ℕ)
      → NamesFit es
      → w ≤ count
      → Fills start count es w c (write_entries inode_for_path path start count es w c)
  unfolding write_entries Fills
  write_entries-Fills start count [] w c fit le =
      (0, omega arith, omega arith, refl, omega arith, le, λ h. absurd (omega arith))
  write_entries-Fills start count (e ∷ es) w c (fits, fit) le =
      elim (Bool-cases (ltb count (w + record_length e.name))) [
        | inl over ↦
            rw over (0, omega arith, omega arith, refl, omega arith, le, λ h. ground (arith, over))
        | inr room ↦
            let (k, consumed, le_k, bytes, written, le_count, full) =
              write_entries-Fills start count es (w + record_length e.name) (c + 1) fit
                (ground (arith, room)) in
            rw room (
              suc k,
              omega arith,
              omega arith,
              ap (λ x. record_at start c e ++ x)
                  (bytes ∙ ap (λ o. records o (take k es)) (omega arith)),
              omega (
                arith,
                length-append (record_at start c e)
                    (write_entries inode_for_path path start count es (w + record_length e.name)
                      (c + 1)).0,
                length-record_bytes (entry_ino inode_for_path path e) (start + c + 1) e fits,
              ),
              le_count,
              λ h. full (omega arith),
            )
      ]

  -- What a call for the entries from `start` on leaves in a buffer of `count` bytes: nothing, and
  -- status -1, if the first record is too long, and else the records of some first entries, at least
  -- of one if there is any, where the next record would not fit.
  abbrev pub Written : ℕ → ℕ → List DirEntry → WriteDirentsResult × Bytes → Type 0
  Written start count es (result, bytes) =
      ((result.bytes_written ≡ minus_one)
        × (result.entries_consumed ≡ 0)
        × (bytes ≡ [])
        × (count < first_length es))
      ⊎ ((result.bytes_written ≡ pos (length bytes))
          × (length bytes ≤ count)
          × (result.entries_consumed ≤ length es)
          × (bytes ≡ records start (take result.entries_consumed es))
          × (result.entries_consumed < length es
              → count < length bytes + first_length (drop result.entries_consumed es))
          × (0 < length es → 0 < result.entries_consumed))

  module _ (start count : ℕ) (e : DirEntry) (es : List DirEntry) (usable : 0 < count) where
    abbrev filled : Bytes × ℕ × ℕ
    filled = write_entries inode_for_path path start count (e ∷ es) 0 0

    abbrev call : WriteDirentsResult × Bytes
    call = write_dirents64 inode_for_path path (e ∷ es) start false (pos count)

    call_failed :
        filled.2 ≡ 0 → call ≡ (record { bytes_written = minus_one; entries_consumed = 0 }, filled.0)
    unfolding write_dirents64
    call_failed none_fits = ground (arith, none_fits)

    call_filled :
        0 < filled.2
        → call ≡ (record { bytes_written = pos filled.1; entries_consumed = filled.2 }, filled.0)
    unfolding write_dirents64
    call_filled some_fit = ground (arith, some_fit)

    call-Written : NamesFit (e ∷ es) → Written start count (e ∷ es) call
    unfolding Fills
    call-Written fit =
        let (k, consumed, le_k, bytes, written, le_count, full) =
          write_entries-Fills start count (e ∷ es) 0 0 fit (omega arith) in
        let same : k ≡ filled.2 = omega arith in
        let content : filled.0 ≡ records start (take filled.2 (e ∷ es)) =
          bytes
          ∙ ap (λ o. records o (take k (e ∷ es))) (omega arith)
          ∙ ap (λ n. records start (take n (e ∷ es))) same in
        let next : filled.2 < length (e ∷ es)
            → count < filled.1 + first_length (drop filled.2 (e ∷ es)) =
          subst (λ n. n < length (e ∷ es) → count < filled.1 + first_length (drop n (e ∷ es))) same
            full in
        elim (Bool-cases (filled.2 == 0)) [
          | inl z ↦
              let none_fits : filled.2 ≡ 0 = ground (arith, z) in
              let empty : filled.0 ≡ [] =
                content ∙ ap (λ n. records start (take n (e ∷ es))) none_fits in
              rw (call_failed none_fits) (
                inl (
                  refl,
                  refl,
                  empty,
                  omega (
                    arith,
                    subst
                        (λ n.
                          n < length (e ∷ es) → count < filled.1 + first_length (drop n (e ∷ es)))
                        none_fits next (omega arith),
                    ap length empty,
                  ),
                ))
          | inr p ↦
              let some_fit : 0 < filled.2 = ground (arith, p) in
              rw (call_filled some_fit) (
                inr (
                  ap pos (omega arith),
                  omega arith,
                  omega arith,
                  content,
                  λ h. omega (arith, next h),
                  λ _. some_fit,
                ))
        ]

  call_empty :
      (start count : ℕ)
      → 0 < count
      → write_dirents64 inode_for_path path [] start false (pos count)
        ≡ (record { bytes_written = pos 0; entries_consumed = 0 }, [])
  unfolding write_dirents64 write_entries
  call_empty start count usable = ground arith

  -- Writing entries whose names are not longer than a size can count fills a usable buffer so.
  pub write_dirents64-Written :
      (start count : ℕ) (es : List DirEntry)
      → NamesFit es
      → 0 < count
      → Written start count es (write_dirents64 inode_for_path path es start false (pos count))
  write_dirents64-Written start count [] fit usable = rw (call_empty start count usable) (
      inr (
        refl,
        omega arith,
        omega arith,
        refl,
        λ h. absurd (omega arith),
        λ h. absurd (omega arith),
      ))
  write_dirents64-Written start count (e ∷ es) fit usable = call-Written start count e es usable fit

  pub records-append :
      (offset : ℕ) (es es' : List DirEntry)
      → records offset (es ++ es') ≡ records offset es ++ records (offset + length es) es'
  records-append offset [] es' = ap (λ o. records o es') (omega arith)
  records-append offset (e ∷ es) es' =
      let first =
        record_bytes (entry_ino inode_for_path path e) (offset + 1) (record_length e.name) e in
      ap (λ x. first ++ x)
        (records-append (offset + 1) es es'
          ∙ ap (λ o. records (offset + 1) es ++ records o es') (omega arith))
      ∙ sym (append_assoc first (records (offset + 1) es) (records (offset + length (e ∷ es)) es'))
