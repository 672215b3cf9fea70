-- ===== src/Memory/Create/New.antt =====
-- A new file system is a tree: its root alone, an empty directory.
use sandbox_vfs.Base.{ℕ, ◌+◌, ◌^◌, ◌<◌, ◌≡◌, true, none, arith, Bytes}
use sandbox_vfs.Entries.{lookup-nil}
use sandbox_vfs.Memory.{Kernel, Heap, MemoryFs, entry_of, is_directory}
use sandbox_vfs.Memory.Create.{new}
use sandbox_vfs.Memory.Tree.{IsValid}

module _ {K : Type 0} (os : Kernel K) (id : Bytes) (h : Heap K)
    (room : h.next_node_id + 1 < 2 ^ 64) where
  abbrev fs : MemoryFs
  fs = (new os id h).0

  root_empty :
      (d : ℕ) (n : Bytes)
      → (new os id h).1.maps fs.nodes d ≡ true
      → entry_of ((new os id h).1.objects d).kind n ≡ none
  unfolding new entry_of
  root_empty d n l = ground (arith, lookup-nil n)

  -- `MemoryFS::new`, with a node number to spare, makes a tree.
  pub new-IsValid : IsValid (new os id h).0 (new os id h).1
  unfolding new is_directory
  new-IsValid = record {
    root_live = ground arith;
    root_is_directory = ground arith;
    fresh = λ i l. ground arith;
    linked = λ i l. ground arith;
    child_live = λ d n c l e. absurd (ground (arith, root_empty d n l));
    child_parent = λ d n c l e. absurd (ground (arith, root_empty d n l));
    child-ne-root = λ d n c l e. absurd (ground (arith, root_empty d n l));
    one_name = λ d n o c l e f. absurd (ground (arith, root_empty d n l));
  }

  pub next-new : (new os id h).1.next_node_id ≡ h.next_node_id + 1
  unfolding new
  next-new = ground arith
