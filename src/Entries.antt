-- ===== src/Entries.antt =====
-- `BTreeMap<OsString, NodeId>`, the entries of a directory: an association list in the order of
-- the names. Clients go by the laws at the end.
pub mod Order
use sandbox_vfs.Base.{
  ℕ, ◌≡◌, refl, Bool, true, false, Option, none, some, List, [], ◌∷◌, arith, Bytes, bytes_eq,
  bytes_eq_iff, bytes_lt, if◌then◌else◌,
}

abbrev pub Entries : Type 0
Entries = List (Bytes × ℕ)

unfoldable pub lookup : Bytes → Entries → Option ℕ
lookup k [] = none
lookup k ((j, v) ∷ m) = if bytes_eq j k then some v else lookup k m

unfoldable pub insert : Bytes → ℕ → Entries → Entries
insert k v [] = (k, v) ∷ []
insert k v ((j, w) ∷ m) =
    if bytes_eq j k
    then (k, v) ∷ m
    else if bytes_lt k j
    then (k, v) ∷ (j, w) ∷ m
    else (j, w) ∷ insert k v m

-- `BTreeMap::remove`; a map holds a name at most once.
unfoldable pub remove : Bytes → Entries → Entries
remove k [] = []
remove k ((j, v) ∷ m) = let rest = remove k m in if bytes_eq j k then rest else (j, v) ∷ rest

unfoldable pub is_empty : Entries → Bool
is_empty [] = true
is_empty (e ∷ m) = false

pub lookup-nil : (k : Bytes) → lookup k [] ≡ none
unfolding lookup
lookup-nil k = refl

pub lookup-insert :
    (k j : Bytes) (v : ℕ) (m : Entries)
    → lookup j (insert k v m) ≡ (if bytes_eq k j then some v else lookup j m)
unfolding lookup insert
lookup-insert k j v [] = refl
lookup-insert k j v ((i, w) ∷ m) =
    ground (arith, bytes_eq_iff k j, bytes_eq_iff i k, bytes_eq_iff i j, lookup-insert k j v m)

pub lookup-remove :
    (k j : Bytes) (m : Entries)
    → lookup j (remove k m) ≡ (if bytes_eq k j then none else lookup j m)
unfolding lookup remove
lookup-remove k j [] = ground arith
lookup-remove k j ((i, w) ∷ m) =
    ground (arith, bytes_eq_iff k j, bytes_eq_iff i k, bytes_eq_iff i j, lookup-remove k j m)

pub lookup-is_empty : (k : Bytes) (m : Entries) → is_empty m ≡ true → lookup k m ≡ none
unfolding lookup is_empty
lookup-is_empty k [] h = refl
lookup-is_empty k (e ∷ m) h = cc
