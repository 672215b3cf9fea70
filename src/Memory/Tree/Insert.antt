-- ===== src/Memory/Tree/Insert.antt =====
-- A new node under a free name of a directory keeps the tree.
use sandbox_vfs.Base.{
  ℕ, ◌<◌, ◌≡◌, Bool, true, none, some, arith, Bytes, bytes_eq, bytes_eq_iff, ◌==◌, ℤ, if◌then◌else◌,
}
use sandbox_vfs.Entries.{Entries, lookup, insert, lookup-insert}
use sandbox_vfs.Memory.{directory, Node, entry_of, is_directory}
use sandbox_vfs.Memory.Tree.{IsTree}

module _ {objects objects' : ℕ → Node} {live live' : ℕ → Bool} {next root : ℕ}
    (t : IsTree objects live next root) (up next' : ℕ) (name : Bytes) (entries : Entries) (fd : ℤ)
    (node : Node) (up_old : up < next) (next_grows : next < next')
    (up_kind : (objects up).kind ≡ directory entries fd) (free : lookup name entries ≡ none)
    (node_parent : node.parent_id ≡ some up) (node_links : node.links ≡ 1)
    (node_empty : (n : Bytes) → entry_of node.kind n ≡ none)
    (same : (j : ℕ)
      → objects' j ≡ (
          if up == j
          then record (objects up) { kind = directory (insert name next entries) fd }
          else if next == j
          then node
          else objects j))
    (grown : (j : ℕ) → live' j ≡ (if next == j then true else live j)) where
  pub entry_insert :
      (d : ℕ) (n : Bytes)
      → entry_of (objects' d).kind n ≡ (
          if up == d
          then if bytes_eq name n then some next else entry_of (objects d).kind n
          else if next == d
          then none
          else entry_of (objects d).kind n)
  unfolding entry_of
  entry_insert d n = ground (arith, same d, lookup-insert name n next entries, node_empty n)

  pub IsTree-insert : IsTree objects' live' next' root
  unfolding is_directory
  IsTree-insert = record {
    root_live = ground (arith, grown root, t.root_live);
    root_is_directory = ground (arith, same root, t.root_live, t.fresh root, t.root_is_directory);
    fresh = λ i l. ground (arith, grown i, t.fresh i);
    linked = λ i l. ground (arith, grown i, same i, t.linked i);
    child_live =
        λ d n c l e. ground (arith, grown d, grown c, entry_insert d n, t.child_live d n c);
    child_parent = λ d n c l e. ground (
      arith,
      grown d,
      entry_insert d n,
      same c,
      t.child_parent d n c,
      t.child_live d n c,
      t.fresh c,
    );
    child-ne-root = λ d n c l e r.
        ground (arith, grown d, entry_insert d n, t.child-ne-root d n c, t.fresh root t.root_live);
    one_name = λ d n o c l e f. ground (
      arith,
      grown d,
      entry_insert d n,
      entry_insert d o,
      t.one_name d n o c,
      t.child_live d n c,
      t.child_live d o c,
      t.fresh c,
      bytes_eq_iff name n,
      bytes_eq_iff name o,
    );
  }
