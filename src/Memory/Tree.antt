-- ===== src/Memory/Tree.antt =====
-- The invariant of one `MemoryFS`: its nodes form a tree under its root. It reads the objects of
-- the heap, the membership in the file system's map and the next number.
pub mod Insert
pub mod Remove
pub mod Move
pub mod Locate
pub mod Paths
pub mod PathsMove
use sandbox_vfs.Base.{
  ℕ, suc, ◌+◌, ◌≤◌, ◌<◌, ◌≡◌, ◌≢◌, refl, ap, ◌∙◌, sym, Bool, true, false, Option, none, some, arith,
  Bytes, bytes_eq, bytes_eq_iff, ◌==◌, ==_iff, ℤ, if◌then◌else◌,
}
use sandbox_vfs.Entries.{Entries, lookup, insert, remove, lookup-insert, lookup-remove}
use sandbox_vfs.Memory.{NodeKind, regular, directory, Node, Heap, entry_of, is_directory, MemoryFs}

-- `d` lists `c` under the name `n`.
abbrev pub Lists : (ℕ → Node) → ℕ → Bytes → ℕ → Type 0
Lists objects d n c = entry_of (objects d).kind n ≡ some c

pub record IsTree (objects : ℕ → Node) (live : ℕ → Bool) (next root : ℕ) : Type 0 where
  pub root_live : live root ≡ true
  pub root_is_directory : is_directory (objects root).kind ≡ true
  pub fresh : (i : ℕ) → live i ≡ true → i < next
  pub linked : (i : ℕ) → live i ≡ true → (objects i).links ≡ 1
  pub child_live : (d : ℕ) (n : Bytes) (c : ℕ) → live d ≡ true → Lists objects d n c → live c ≡ true
  pub child_parent :
      (d : ℕ) (n : Bytes) (c : ℕ)
      → live d ≡ true
      → Lists objects d n c
      → (objects c).parent_id ≡ some d
  pub child-ne-root : (d : ℕ) (n : Bytes) (c : ℕ) → live d ≡ true → Lists objects d n c → c ≢ root
  pub one_name :
      (d : ℕ) (n o : Bytes) (c : ℕ)
      → live d ≡ true
      → Lists objects d n c
      → Lists objects d o c
      → n ≡ o

-- A heap in which the file system `fs` is a tree.
abbrev pub IsValid : {K : Type 0} → MemoryFs → Heap K → Type 0
IsValid fs h = IsTree h.objects (h.maps fs.nodes) h.next_node_id fs.root

-- The number of the next node may grow.
pub IsTree-next :
    {objects : ℕ → Node} {live : ℕ → Bool} {next next' root : ℕ}
    → IsTree objects live next root
    → next ≤ next'
    → IsTree objects live next' root
IsTree-next t le = record {
  root_live = t.root_live;
  root_is_directory = t.root_is_directory;
  fresh = λ i l. ground (arith, t.fresh i l);
  linked = t.linked;
  child_live = t.child_live;
  child_parent = t.child_parent;
  child-ne-root = t.child-ne-root;
  one_name = t.one_name;
}
