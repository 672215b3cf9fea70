-- ===== src/Memory/Listed.antt =====
-- `read_dir` of src/impls/memory.rs: the listing of a directory against look-up and `stat`.
use mathlib.Core.Option.{some-injective}
use sandbox_vfs.Base.{
  ℤ, ℕ, ◌≡◌, ◌⊎◌, refl, sym, ap, ◌∙◌, subst, true, false, Option, none, some, List, [], ◌∷◌, ◌++◌,
  arith, Bytes, bytes_eq, bytes_eq_iff, bytes_lt, pos, returned, Outcome, Option-cases, Bool-cases,
  inl, inr,
}
use sandbox_vfs.FilePath.{FilePath, normal, is_absolute}
use sandbox_vfs.FilePath.Below.{is_absolute-append}
use sandbox_vfs.FilePath.Normal.{trail, trail-append_normal}
use sandbox_vfs.Filesystem.{DirEntry, Stat}
use sandbox_vfs.Entries.{Entries, lookup}
use sandbox_vfs.Entries.Order.{AllAfter, IsSorted, Each, Each-map, IsSorted-found}
use sandbox_vfs.Memory.{
  Kernel, Heap, MemoryFs, entry_of, directory, entry_kind, is_directory, node_from_map, resolve,
}
use sandbox_vfs.Memory.Backend.{read_dir, stat}
use sandbox_vfs.Memory.Create.Cases.{NodeKind-cases, entry_of_directory}
use sandbox_vfs.Memory.Inspect.{list_entries, read_node_dir, read_kind, stat_node}
use sandbox_vfs.Memory.Paths.{resolve-locate}
use sandbox_vfs.Memory.Sorted.{AllSorted, KindSorted}
use sandbox_vfs.Memory.Tree.{IsValid}
use sandbox_vfs.Memory.Tree.Locate.{locate, locate-live, locate-cons, locate_inversion}

-- The names grow from entry to entry, so that no name is listed twice.
abbrev pub AfterName : Bytes → List DirEntry → Type 0
AfterName n [] = Unit {0}
AfterName n (e ∷ es) = (bytes_lt n e.name ≡ true) × AfterName n es

abbrev pub NamesGrow : List DirEntry → Type 0
NamesGrow [] = Unit {0}
NamesGrow (e ∷ es) = AfterName e.name es × NamesGrow es

abbrev pub HasName : Bytes → List DirEntry → Type 0
HasName n [] = ⊥
HasName n (e ∷ es) = (e.name ≡ n) ⊎ HasName n es

abbrev pub AllEntries : (DirEntry → Type 0) → List DirEntry → Type 0
AllEntries P [] = Unit {0}
AllEntries P (e ∷ es) = P e × AllEntries P es

module _ {K : Type 0} (h : Heap K) where
  abbrev described : Bytes → ℕ → DirEntry
  described n i = record { name = n; kind = entry_kind (h.objects i).kind; ino = some i }

  abbrev all_described : Entries → List DirEntry
  all_described [] = []
  all_described ((n, i) ∷ m) = described n i ∷ all_described m

  list_entries-live :
      (nodes : ℕ) (m : Entries)
      → Each (λ n i. h.maps nodes i ≡ true) m
      → list_entries h nodes m ≡ some (all_described m)
  unfolding list_entries node_from_map
  list_entries-live nodes [] live = refl
  list_entries-live nodes ((n, i) ∷ m) (l, live) = ground (arith, list_entries-live nodes m live)

  described-AfterName : (n : Bytes) (m : Entries) → AllAfter n m → AfterName n (all_described m)
  described-AfterName n [] all = tt
  described-AfterName n ((j, i) ∷ m) (lt, all) = (lt, described-AfterName n m all)

  described-NamesGrow : (m : Entries) → IsSorted m → NamesGrow (all_described m)
  described-NamesGrow [] s = tt
  described-NamesGrow ((n, i) ∷ m) (all, s) = (described-AfterName n m all, described-NamesGrow m s)

  described-HasName :
      (n : Bytes) (i : ℕ) (m : Entries) → lookup n m ≡ some i → HasName n (all_described m)
  unfolding lookup
  described-HasName n i [] e = cc
  described-HasName n i ((j, k) ∷ m) e = elim (Bool-cases (bytes_eq j n)) [
    | inl same ↦ inl ((bytes_eq_iff j n).0 same)
    | inr other ↦ inr (described-HasName n i m (ground (arith, other)))
  ]

  described-AllEntries :
      (P : DirEntry → Type 0) (m : Entries)
      → Each (λ n i. P (described n i)) m
      → AllEntries P (all_described m)
  described-AllEntries P [] each = tt
  described-AllEntries P ((n, i) ∷ m) (p, each) = (p, described-AllEntries P m each)

-- A directory at `path`, of a valid file system with its entries in order.
module _ {K : Type 0} (os : Kernel K) (fs : MemoryFs) (h : Heap K) (path : FilePath)
    (statbuf : Stat) (valid : IsValid fs h) (sorted : AllSorted h)
    (absolute : is_absolute path ≡ true) where
  -- The path of the entry leads to a node, of the kind and with the number that the entry and `stat`
  -- tell.
  abbrev pub IsEntry : DirEntry → Type 0
  IsEntry e =
      (i : ℕ) × (resolve fs h (path ++ normal e.name ∷ []) ≡ some i)
      × (e.kind ≡ entry_kind (h.objects i).kind)
      × ((st : Stat) × (stat os fs (path ++ normal e.name ∷ []) statbuf h ≡ returned (pos 0, st) h)
          × (e.ino ≡ some st.st_ino))

  abbrev pub Listing : Outcome (Heap K) (Option (List DirEntry)) → Type 0
  Listing r =
      ((es : List DirEntry) × (d : ℕ) × (r ≡ returned (some es) h)
        × (resolve fs h path ≡ some d)
        × (is_directory (h.objects d).kind ≡ true)
        × NamesGrow es
        × AllEntries IsEntry es
        × ((n : Bytes) (i : ℕ) → resolve fs h (path ++ normal n ∷ []) ≡ some i → HasName n es))
      ⊎ ((r ≡ returned none h)
          × ((i : ℕ) → resolve fs h path ≡ some i → is_directory (h.objects i).kind ≡ false))

  missing_listing : resolve fs h path ≡ none → read_dir os fs path h ≡ returned none h
  unfolding read_dir
  missing_listing e = ground (arith, e)

  found_listing :
      (d : ℕ)
      → resolve fs h path ≡ some d
      → read_dir os fs path h ≡ returned (read_node_dir d fs.nodes h) h
  unfolding read_dir
  found_listing d e = ground (arith, e)

  stat_found :
      (q : FilePath) (i : ℕ)
      → is_absolute q ≡ true
      → resolve fs h q ≡ some i
      → stat os fs q statbuf h ≡ returned (pos 0, stat_node os i fs.nodes h) h
  unfolding stat
  stat_found q i a e = ground (arith, e)

  number_of : (i : ℕ) → (stat_node os i fs.nodes h).st_ino ≡ i
  unfolding stat_node
  number_of i = refl

  module _ (d : ℕ) (found : resolve fs h path ≡ some d) where
    at_path : locate h.objects (h.maps fs.nodes) fs.root (trail path) ≡ some d
    at_path = sym (resolve-locate fs h path valid.root_live) ∙ found

    below :
        (n : Bytes)
        → resolve fs h (path ++ normal n ∷ [])
          ≡ locate h.objects (h.maps fs.nodes) fs.root (n ∷ trail path)
    below n =
        resolve-locate fs h (path ++ normal n ∷ []) valid.root_live
        ∙ ap (locate h.objects (h.maps fs.nodes) fs.root) (trail-append_normal path n)

    module _ (m : Entries) (fd : ℤ) (is_dir : (h.objects d).kind ≡ directory m fd) where
      in_order : IsSorted m
      in_order = subst KindSorted is_dir (sorted d)

      listed_live : Each (λ n i. h.maps fs.nodes i ≡ true) m
      listed_live =
          Each-map (λ n i. lookup n m ≡ some i) (λ n i. h.maps fs.nodes i ≡ true) m
            (λ n i e.
              valid.child_live d n i (locate-live valid (trail path) d at_path)
                (entry_of_directory (h.objects d).kind n m fd is_dir ∙ e))
            (IsSorted-found m in_order)

      found-IsEntry : (n : Bytes) (i : ℕ) → lookup n m ≡ some i → IsEntry (described h n i)
      found-IsEntry n i e =
          let leads =
            below n
            ∙ locate-cons valid n (trail path) d i at_path
                (entry_of_directory (h.objects d).kind n m fd is_dir ∙ e) in
          (
            i,
            leads,
            refl,
            (
              stat_node os i fs.nodes h,
              stat_found (path ++ normal n ∷ []) i
                  (is_absolute-append path (normal n ∷ []) absolute) leads,
              ap some (sym (number_of i)),
            ),
          )

      all_named :
          (n : Bytes) (i : ℕ)
          → resolve fs h (path ++ normal n ∷ []) ≡ some i
          → HasName n (all_described h m)
      all_named n i e =
          let (up, at_up, _, lists, _) =
            locate_inversion valid n (trail path) i (sym (below n) ∙ e) in
          let same : up ≡ d = some-injective up d (sym at_up ∙ at_path) in
          described-HasName h n i m (
            sym (entry_of_directory (h.objects d).kind n m fd is_dir)
            ∙ subst (λ k. entry_of (h.objects k).kind n ≡ some i) same lists)

      directory-Listing : Listing (read_dir os fs path h)
      directory-Listing = inl (
        all_described h m,
        d,
        found_listing d found
            ∙ ap (λ r. returned r h) (to_entries ∙ list_entries-live h fs.nodes m listed_live),
        found,
        ap is_directory is_dir ∙ unfold is_directory in refl,
        described-NamesGrow h m in_order,
        described-AllEntries h IsEntry m (
            Each-map (λ n i. lookup n m ≡ some i) (λ n i. IsEntry (described h n i)) m found-IsEntry
              (IsSorted-found m in_order)),
        all_named,
      )
        where
          to_entries : read_node_dir d fs.nodes h ≡ list_entries h fs.nodes m
          to_entries = unfold read_node_dir read_kind in rw is_dir refl

  -- In a well-formed file system with the entries of each directory in order: the listing at an
  -- absolute path has names that grow, so none twice; the path of each entry leads to a node of its
  -- kind, and a stat of that path tells its inode number; every name that leads somewhere from the
  -- directory is listed. There is no listing if the path does not lead to a directory, and only then.
  pub read_dir-Listing : Listing (read_dir os fs path h)
  read_dir-Listing = elim (Option-cases (resolve fs h path)) [
    | inl e ↦ inr (missing_listing e, λ i f. absurd (cc (e, f)))
    | inr (d, e) ↦ elim (NodeKind-cases (h.objects d).kind) [
      | inr (m, fd, is_dir) ↦ directory-Listing d e m fd is_dir
      | inl (fd, is_file) ↦ inr (
        found_listing d e
            ∙ ap (λ r. returned r h) (unfold read_node_dir read_kind in rw is_file refl),
        λ i f.
            ap (λ k. is_directory (h.objects k).kind) (some-injective i d (sym f ∙ e))
            ∙ unfold is_directory in rw is_file refl,
      )
    ]
  ]
