-- ===== src/Memory/Tree/Remove.antt =====
-- A node without entries loses its name: the tree that is left.
use sandbox_vfs.Base.{
  ℕ, ◌≡◌, Bool, true, false, ◌&&◌, none, some, arith, Bytes, bytes_eq, bytes_eq_iff, ◌==◌, ℤ,
  if◌then◌else◌,
}
use sandbox_vfs.Entries.{Entries, lookup, remove, lookup-remove}
use sandbox_vfs.Memory.{directory, Node, entry_of, is_directory}
use sandbox_vfs.Memory.Tree.{IsTree}

module _ {objects objects' : ℕ → Node} {live live' : ℕ → Bool} {next root : ℕ}
    (t : IsTree objects live next root) (up gone : ℕ) (name : Bytes) (entries : Entries) (fd : ℤ)
    (up_live : live up ≡ true) (up_kind : (objects up).kind ≡ directory entries fd)
    (named : lookup name entries ≡ some gone)
    (gone_empty : (n : Bytes) → entry_of (objects gone).kind n ≡ none)
    (same : (j : ℕ)
      → objects' j ≡ (
          if gone == j
          then record (objects gone) { parent_id = none; links = 0 }
          else if up == j
          then record (objects up) { kind = directory (remove name entries) fd }
          else objects j))
    (shrunk : (j : ℕ) → live' j ≡ (if gone == j then false else live j)) where
  entry_up : (n : Bytes) → entry_of (objects up).kind n ≡ lookup n entries
  unfolding entry_of
  entry_up n = ground arith

  pub entry_remove :
      (d : ℕ) (n : Bytes)
      → entry_of (objects' d).kind n
        ≡ (if up == d && bytes_eq name n then none else entry_of (objects d).kind n)
  unfolding entry_of
  entry_remove d n = ground (arith, same d, lookup-remove name n entries, gone_empty n, entry_up n)

  pub IsTree-remove : IsTree objects' live' next root
  unfolding is_directory
  IsTree-remove = record {
    root_live =
        ground (arith, shrunk root, t.root_live, t.child-ne-root up name gone, entry_up name);
    root_is_directory =
        ground (arith, same root, t.root_is_directory, t.child-ne-root up name gone, entry_up name);
    fresh = λ i l. ground (arith, shrunk i, t.fresh i);
    linked = λ i l. ground (arith, shrunk i, same i, t.linked i);
    child_live = λ d n c l e. ground (
      arith,
      shrunk d,
      shrunk c,
      entry_remove d n,
      t.child_live d n c,
      t.child_parent d n c,
      t.child_parent up name c,
      entry_up name,
      t.one_name up n name c,
      bytes_eq_iff name n,
    );
    child_parent = λ d n c l e. ground (
      arith,
      shrunk d,
      entry_remove d n,
      same c,
      t.child_parent d n c,
      t.child_parent up name c,
      entry_up name,
      t.one_name up n name c,
      bytes_eq_iff name n,
    );
    child-ne-root =
        λ d n c l e r. ground (arith, shrunk d, entry_remove d n, t.child-ne-root d n c);
    one_name = λ d n o c l e f.
        ground (arith, shrunk d, entry_remove d n, entry_remove d o, t.one_name d n o c);
  }
