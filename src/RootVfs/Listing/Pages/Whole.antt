-- ===== src/RootVfs/Listing/Pages/Whole.antt =====
-- A caller that calls `getdents64` of src/root_vfs.rs until there is nothing left.
use sandbox_vfs.Base.{
  ℕ, zero, suc, ◌+◌, ◌^◌, ◌≤◌, ◌<◌, ◌≡◌, refl, sym, ap, ◌∙◌, subst, Bool, true, false, Option, none,
  some, List, [], ◌∷◌, ◌++◌, append-nil, append_assoc, Bytes, arith, ℤ, pos, is_negative, int_eq,
  int_eq_iff, length, length-append, ltb, take, drop, inl, inr, if◌then◌else◌, Outcome, returned,
  panicked, ◌==◌, Bool-cases,
}
use sandbox_vfs.FilePath.{FilePath}
use sandbox_vfs.Filesystem.{DirEntry}
use sandbox_vfs.Dirents.{dot_entries, record_length, record_bytes, entry_ino}
use sandbox_vfs.Dirents.Lengths.{align_to_eight, length-record_bytes}
use sandbox_vfs.Dirents.Records.{NamesFit, first_length, records}
use sandbox_vfs.RootVfs.{VfsState, FdInfo, RootVfs, set_fd}
use sandbox_vfs.RootVfs.Listing.{list_fd, fill, getdents64}
use sandbox_vfs.RootVfs.Listing.World.{list_fd-again}
use sandbox_vfs.RootVfs.Listing.Pages.{Page, fill-Page}
use sandbox_vfs.RootVfs.Listing.Pages.Called.{to_fill}

take-length : (es : List DirEntry) → take (length es) es ≡ es
take-length [] = refl
take-length (e ∷ es) = ap (λ r. e ∷ r) (take-length es)

-- The buffer has room for each of the records.
abbrev pub RoomForEach : ℕ → List DirEntry → Type 0
RoomForEach count [] = Unit {0}
RoomForEach count (e ∷ es) = (record_length e.name ≤ count) × RoomForEach count es

first_length-RoomForEach :
    (count o : ℕ) (es : List DirEntry) → RoomForEach count es → first_length (drop o es) ≤ count
first_length-RoomForEach count zero [] room = omega arith
first_length-RoomForEach count zero (e ∷ es) (le, room) = le
first_length-RoomForEach count (suc o) [] room = omega arith
first_length-RoomForEach count (suc o) (e ∷ es) (le, room) =
    first_length-RoomForEach count o es room

record_length_positive : (name : Bytes) → length name + 28 ≤ 2 ^ 64 → 0 < record_length name
unfolding record_length
record_length_positive name fits =
    omega (arith, align_to_eight (19 + length name + 1) (omega arith))

module _ (inode_for_path : FilePath → ℕ) (path : FilePath) where
  abbrev first_record : ℕ → DirEntry → Bytes
  first_record off e =
      record_bytes (entry_ino inode_for_path path e) (off + 1) (record_length e.name) e

  -- More entries have more bytes.
  records_grow :
      (off n m : ℕ) (es : List DirEntry)
      → NamesFit es
      → n < m
      → m ≤ length es
      → length (records inode_for_path path off (take n es))
        < length (records inode_for_path path off (take m es))
  records_grow off n m [] fit lt le = absurd (omega arith)
  records_grow off n zero (e ∷ es) fit lt le = absurd (omega arith)
  records_grow off zero (suc m) (e ∷ es) (fits, fit) lt le = omega (
    arith,
    length-append (first_record off e) (records inode_for_path path (off + 1) (take m es)),
    length-record_bytes (entry_ino inode_for_path path e) (off + 1) e fits,
    record_length_positive e.name fits,
  )
  records_grow off (suc n) (suc m) (e ∷ es) (fits, fit) lt le = omega (
    arith,
    length-append (first_record off e) (records inode_for_path path (off + 1) (take m es)),
    length-append (first_record off e) (records inode_for_path path (off + 1) (take n es)),
    records_grow (off + 1) n m es fit (omega arith) (omega arith),
  )

module _ {W H : Type 0} (inode_for_path : FilePath → ℕ) (vfs : RootVfs W H) (fd : ℤ)
    (count : ℕ) where
  -- What the caller has, and whether it has come to the end.
  abbrev collect :
      (VfsState W H → Bytes × Bool) → Outcome (VfsState W H) (Option (ℤ × Bytes)) → Bytes × Bool
  collect rest (panicked s) = ([], false)
  collect rest (returned none s) = ([], false)
  collect rest (returned (some (status, bytes)) s) =
      if int_eq status (pos 0)
      then ([], true)
      else if is_negative status
      then ([], false)
      else let (more, done) = rest s in (bytes ++ more, done)

  -- So many calls at most.
  abbrev pub read_through : ℕ → VfsState W H → Bytes × Bool
  read_through zero s = ([], false)
  read_through (suc n) s =
      collect (read_through n) (getdents64 inode_for_path vfs fd false (pos count) s)

  module _ (info : FdInfo H) (listed : List DirEntry) (fit : NamesFit (dot_entries ++ listed))
      (room : RoomForEach count (dot_entries ++ listed)) (usable : 0 < count) where
    abbrev at : ℕ → FdInfo H
    at o = record info { dir_offset = o }

    abbrev entries : List DirEntry
    entries = dot_entries ++ listed

    abbrev listing : ℕ → Bytes
    listing n = records inode_for_path info.path 0 (take n entries)

    abbrev Whole : ℕ → Bytes × Bool → Type 0
    Whole o (bytes, done) = (listing o ++ bytes ≡ listing (length entries)) × (done ≡ true)

    grows : (n m : ℕ) → n < m → m ≤ length entries → length (listing n) < length (listing m)
    grows n m lt le = records_grow inode_for_path info.path 0 n m entries fit lt le

    -- A page without bytes is at the end, and a page with bytes moves on.
    at_end :
        (o o' : ℕ) (bytes : Bytes)
        → o ≤ length entries
        → o' ≤ length entries
        → listing o ++ bytes ≡ listing o'
        → (o < length entries → o < o')
        → length bytes ≡ 0
        → o ≡ length entries
    at_end o o' bytes le le' joined on none_left = elim (Bool-cases (ltb o (length entries))) [
      | inl more ↦
          let lt = on (ground (arith, more)) in
          absurd (
            omega (
              arith,
              grows o o' lt le',
              length-append (listing o) bytes,
              ap length joined,
              none_left,
            ))
      | inr over ↦ ground (arith, over)
    ]

    moves_on :
        (o o' : ℕ) (bytes : Bytes)
        → o ≤ length entries
        → o' ≤ length entries
        → listing o ++ bytes ≡ listing o'
        → (o < length entries → o < o')
        → 0 < length bytes
        → o < o'
    moves_on o o' bytes le le' joined on some_left = elim (Bool-cases (ltb o o')) [
      | inl lt ↦ ground (arith, lt)
      | inr not_lt ↦ elim (Bool-cases (ltb o' o)) [
        | inl back ↦ absurd (
            omega (
              arith,
              grows o' o (ground (arith, back)) le,
              length-append (listing o) bytes,
              ap length joined,
            ))
        | inr not_back ↦
            let same : o ≡ o' = ground (arith, not_lt, not_back) in
            absurd (
              omega (
                arith,
                length-append (listing o) bytes,
                ap length joined,
                ap (λ k. length (listing k)) same,
              ))
      ]
    ]

    tracked_at :
        (s s' : VfsState W H) (o : ℕ) → s' ≡ set_fd fd (some (at o)) s → s'.fds fd ≡ some (at o)
    tracked_at s s' o is = ap (λ u. u.fds fd) is ∙ rw ((int_eq_iff fd fd).1 refl) refl

    turn :
        (n : ℕ) (s : VfsState W H) (o : ℕ) (x : Outcome (VfsState W H) (Option (ℤ × Bytes)))
        → o ≤ length entries
        → Page inode_for_path (at o) listed fd count s x
        → ((s' : VfsState W H) (o' : ℕ)
            → s'.fds fd ≡ some (at o')
            → o' ≤ length entries
            → o < o'
            → s'.world ≡ s.world
            → Whole o' (read_through n s'))
        → Whole o (collect (read_through n) x)
    turn n s o (panicked s') le page next = absurd page
    turn n s o (returned none s') le page next = absurd page
    turn n s o (returned (some (status, bytes)) s') le (inl (st, same, lt, too_long)) next =
        absurd (omega (arith, first_length-RoomForEach count o entries room))
    turn n s o (returned (some (status, bytes)) s') le (inr (o', st, fits, is, le', joined, on))
          next =
        elim (Bool-cases (length bytes == 0)) [
          | inl z ↦
              let none_left : length bytes ≡ 0 = ground (arith, z) in
              let ended : int_eq status (pos 0) ≡ true =
                (int_eq_iff status (pos 0)).1 (st ∙ ap pos none_left) in
              rw ended (
                append-nil (listing o) ∙ ap listing (at_end o o' bytes le le' joined on none_left),
                refl,
              )
          | inr p ↦
              let some_left : 0 < length bytes = ground (arith, p) in
              let (rest, done) =
                next s' o' (tracked_at s s' o' is) le'
                  (moves_on o o' bytes le le' joined on some_left) (ap (λ t. t.world) is) in
              let some_more : int_eq status (pos 0) ≡ false = ap (λ z. int_eq z (pos 0)) st ∙ p in
              let not_failed : is_negative status ≡ false = ap is_negative st in
              rw (some_more, not_failed)
                (
                  sym (append_assoc (listing o) bytes (read_through n s').0)
                      ∙ ap (λ x. x ++ (read_through n s').0) joined
                      ∙ rest,
                  done,
                )
        ]

    module _ (s0 : VfsState W H) (steady : list_fd vfs (at 0) s0 ≡ returned (some listed) s0) where
      still_listed :
          (s : VfsState W H) (o : ℕ)
          → s.world ≡ s0.world
          → list_fd vfs (at o) s ≡ returned (some listed) s
      unfolding list_fd
      still_listed s o same = list_fd-again vfs (at 0) s0 s (some listed) steady same

      read_through-Whole :
          (n : ℕ) (s : VfsState W H) (o : ℕ)
          → s.world ≡ s0.world
          → s.fds fd ≡ some (at o)
          → o ≤ length entries
          → length entries < n + o
          → Whole o (read_through n s)
      read_through-Whole zero s o same open_fd le enough = absurd (omega arith)
      read_through-Whole (suc n) s o same open_fd le enough =
          subst (λ x. Whole o (collect (read_through n) x))
            (sym (
              to_fill inode_for_path vfs fd count (at o) s s listed open_fd
                (still_listed s o same)))
            (turn n s o (fill inode_for_path (at o) listed fd false (pos count) s) le
              (fill-Page inode_for_path (at o) listed fd count s open_fd fit usable le)
              (λ s' o' open_fd' le' lt same'.
                read_through-Whole n s' o' (same' ∙ same) open_fd' le' (omega arith)))

    -- If the directory is listed, and listing it now changes nothing: a caller that calls with a buffer
    -- that has room for each single record, with names whose record length can be counted, on a
    -- descriptor at the start of its listing, comes to the end within one call more than there are
    -- entries, and then has the records of all entries, each once and in their order.
    pub read_through_complete :
        (s : VfsState W H)
        → s.fds fd ≡ some (at 0)
        → list_fd vfs (at 0) s ≡ returned (some listed) s
        → read_through (length entries + 1) s ≡ (records inode_for_path info.path 0 entries, true)
    read_through_complete s open_fd steady =
        let (whole, done) =
          read_through-Whole s steady (length entries + 1) s 0 refl open_fd (omega arith)
            (omega arith) in
        ap (λ b. (b, (read_through (length entries + 1) s).1))
          (whole ∙ ap (records inode_for_path info.path 0) (take-length entries))
        ∙ ap (λ d. (records inode_for_path info.path 0 entries, d)) done
