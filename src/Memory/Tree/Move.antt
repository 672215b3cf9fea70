-- ===== src/Memory/Tree/Move.antt =====
-- A node gets another name, and the node that had this name goes: the tree that is left.
use sandbox_vfs.Base.{
  ℕ, ◌≡◌, Bool, true, false, ◌&&◌, none, some, arith, Bytes, bytes_eq, bytes_eq_iff, ◌==◌,
  if◌then◌else◌,
}
use sandbox_vfs.Memory.{Node, entry_of, is_directory}
use sandbox_vfs.Memory.Tree.{IsTree, Lists}

-- `c`, which `old_up` lists as `old_name`, becomes what `new_up` lists as `new_name`; the node that
-- had this name, if any, is `gone`.
pub record Moves (objects objects' : ℕ → Node) (live live' : ℕ → Bool) (root c old_up new_up : ℕ)
    (old_name new_name : Bytes) (gone : ℕ → Bool) : Type 0 where
  pub named : Lists objects old_up old_name c
  pub gone_named : (j : ℕ) → gone j ≡ true → Lists objects new_up new_name j
  pub named_gone : (j : ℕ) → Lists objects new_up new_name j → gone j ≡ true
  pub gone_empty : (j : ℕ) (n : Bytes) → gone j ≡ true → entry_of (objects j).kind n ≡ none
  pub kept : gone c ≡ false
  pub same_entries :
      (d : ℕ) (n : Bytes)
      → entry_of (objects' d).kind n ≡ (
          if new_up == d && bytes_eq new_name n
          then some c
          else if old_up == d && bytes_eq old_name n
          then none
          else entry_of (objects d).kind n)
  pub same_parents :
      (j : ℕ)
      → (objects' j).parent_id
        ≡ (if c == j then some new_up else if gone j then none else (objects j).parent_id)
  pub same_links : (j : ℕ) → (objects' j).links ≡ (if gone j then 0 else (objects j).links)
  pub same_root : is_directory (objects' root).kind ≡ is_directory (objects root).kind
  pub shrunk : (j : ℕ) → live' j ≡ (if gone j then false else live j)

module _ {objects objects' : ℕ → Node} {live live' : ℕ → Bool} {next root : ℕ}
    (t : IsTree objects live next root) {c old_up new_up : ℕ} {old_name new_name : Bytes}
    {gone : ℕ → Bool}
    (m : Moves objects objects' live live' root c old_up new_up old_name new_name gone)
    (old_live : live old_up ≡ true) (new_live : live new_up ≡ true) where
  pub IsTree-move : IsTree objects' live' next root
  IsTree-move = record {
    root_live = ground (
      arith,
      m.shrunk root,
      t.root_live,
      m.gone_named root,
      t.child-ne-root new_up new_name root,
    );
    root_is_directory = ground (arith, m.same_root, t.root_is_directory);
    fresh = λ i l. ground (arith, m.shrunk i, t.fresh i);
    linked = λ i l. ground (arith, m.shrunk i, m.same_links i, t.linked i);
    child_live = λ d n x l e. ground (
      arith,
      m.shrunk d,
      m.shrunk x,
      m.same_entries d n,
      t.child_live d n x,
      m.gone_named x,
      t.child_live old_up old_name c old_live m.named,
      t.child_parent d n x,
      t.child_parent new_up new_name x,
      t.one_name d n new_name x,
      bytes_eq_iff new_name n,
      m.kept,
    );
    child_parent = λ d n x l e. ground (
      arith,
      m.shrunk d,
      m.same_entries d n,
      m.same_parents x,
      t.child_parent d n x,
      m.gone_named x,
      t.child_parent new_up new_name x,
      t.one_name d n new_name x,
      t.child_parent old_up old_name c old_live m.named,
      t.one_name d n old_name c,
      bytes_eq_iff new_name n,
      bytes_eq_iff old_name n,
    );
    child-ne-root = λ d n x l e r. ground (
      arith,
      m.shrunk d,
      m.same_entries d n,
      t.child-ne-root d n x,
      t.child-ne-root old_up old_name c old_live m.named,
    );
    one_name = λ d n o x l e f. ground (
      arith,
      m.shrunk d,
      m.same_entries d n,
      m.same_entries d o,
      t.one_name d n o x,
      t.child_parent d n x,
      t.child_parent d o x,
      t.child_parent old_up old_name c old_live m.named,
      t.one_name d n old_name c,
      t.one_name d o old_name c,
      bytes_eq_iff new_name n,
      bytes_eq_iff new_name o,
      bytes_eq_iff old_name n,
      bytes_eq_iff old_name o,
    );
  }
