-- ===== src/Memory/Sorted/Branches.antt =====
-- Heaps of src/impls/memory.rs in which the entries of every directory are in the order of their
-- names, and code that branches between such heaps.
use sandbox_vfs.Base.{
  ℕ, Bool, true, false, Option, none, some, ℤ, ◌==◌, Bool-cases, inl, inr, if◌then◌else◌,
}
use sandbox_vfs.Entries.{Entries}
use sandbox_vfs.Entries.Order.{IsSorted}
use sandbox_vfs.Memory.{NodeKind, regular, directory, Node, Heap, put_node, set_entries}
use sandbox_vfs.Memory.Remove.{detach}

abbrev pub KindSorted : NodeKind → Type 0
KindSorted (regular fd) = Unit {0}
KindSorted (directory entries fd) = IsSorted entries

abbrev pub AllSorted : {K : Type 0} → Heap K → Type 0
AllSorted h = (i : ℕ) → KindSorted (h.objects i).kind

-- A result that leaves all entries in order, by the branches of the code.
pub record Keeps {K A : Type 0} (r : A × Heap K) : Type 0 where
  pub all : AllSorted r.1

module _ {K A : Type 0} where
  pub keep : {r : A × Heap K} → AllSorted r.1 → Keeps r
  keep s = record { all = s }

  pub on_if : (b : Bool) {x y : A × Heap K} → Keeps x → Keeps y → Keeps (if b then x else y)
  on_if true p q = p
  on_if false p q = q

  pub on_option :
      {B : Type 0} (o : Option B) {x : A × Heap K} {f : B → A × Heap K}
      → Keeps x
      → ((b : B) → Keeps (f b))
      → Keeps {K = K} {A = A} (elim o [ none ↦ x | some b ↦ f b ])
  on_option none p q = p
  on_option (some b) p q = q b

  pub on_kind :
      (k : NodeKind) {f : ℤ → A × Heap K} {g : Entries → ℤ → A × Heap K}
      → KindSorted k
      → ((fd : ℤ) → Keeps (f fd))
      → ((es : Entries) (fd : ℤ) → IsSorted es → Keeps (g es fd))
      → Keeps {K = K} {A = A} (elim k [ regular fd ↦ f fd | directory es fd ↦ g es fd ])
  on_kind (regular fd) s p q = p fd
  on_kind (directory es fd) s p q = q es fd s

module _ {K : Type 0} where
  pub put_node-AllSorted :
      (i : ℕ) (node : Node) (h : Heap K)
      → AllSorted h
      → KindSorted node.kind
      → AllSorted (put_node i node h)
  put_node-AllSorted i node h all s j = elim (Bool-cases (i == j)) [
    | inl e ↦ rw e s
    | inr e ↦ rw e (all j)
  ]

  pub set_entries-AllSorted :
      (i : ℕ) (es : Entries) (fd : ℤ) (h : Heap K)
      → AllSorted h
      → IsSorted es
      → AllSorted (set_entries i es fd h)
  set_entries-AllSorted i es fd h all s =
      put_node-AllSorted i (record (h.objects i) { kind = directory es fd }) h all s

  pub detach-AllSorted : (i : ℕ) (h : Heap K) → AllSorted h → AllSorted (detach i h)
  unfolding detach
  detach-AllSorted i h all =
      put_node-AllSorted i (record (h.objects i) { parent_id = none; links = 0 }) h all (all i)
