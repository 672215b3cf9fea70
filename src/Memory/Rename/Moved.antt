-- ===== src/Memory/Rename/Moved.antt =====
-- The heaps that a rename leaves, as moves in the tree.
use sandbox_vfs.Base.{ℕ, ◌≡◌, ◌≢◌, refl, Bool, true, false, none, some, arith, Bytes, ℤ, ◌==◌}
use sandbox_vfs.Entries.{Entries, lookup, remove, lookup-insert, lookup-remove, lookup-is_empty}
use sandbox_vfs.Memory.{
  NodeKind, regular, directory, Heap, MemoryFs, backing_fd, entry_of, is_directory, set_member,
}
use sandbox_vfs.Memory.Remove.{detach}
use sandbox_vfs.Memory.Rename.{can_replace_node, move_entry, move_between}
use sandbox_vfs.Memory.Tree.{IsValid}
use sandbox_vfs.Memory.Tree.Move.{Moves}

pub can_replace-empty :
    (j k : NodeKind) (n : Bytes) → can_replace_node j k ≡ true → entry_of k n ≡ none
unfolding can_replace_node entry_of
can_replace-empty (regular a) (regular b) n h = refl
can_replace-empty (directory es a) (regular b) n h = cc
can_replace-empty (regular a) (directory fs b) n h = cc
can_replace-empty (directory es a) (directory fs b) n h = lookup-is_empty n fs h

abbrev pub nothing : ℕ → Bool
nothing j = false

abbrev pub only : ℕ → ℕ → Bool
only i j = i == j

-- The kernel is not called, and every node stands on the file it stood on.
abbrev pub SameBacking : {K : Type 0} → Heap K → Heap K → Type 0
SameBacking h h' =
    (h'.kernel ≡ h.kernel)
    × ((j : ℕ) → backing_fd (h'.objects j).kind ≡ backing_fd (h.objects j).kind)

module _ {K : Type 0} (fs : MemoryFs) (h : Heap K) (valid : IsValid fs h) where
  abbrev pub MovesTo : Heap K → ℕ → ℕ → ℕ → Bytes → Bytes → (ℕ → Bool) → Type 0
  MovesTo h' c old_up new_up old_name new_name gone =
      Moves h.objects h'.objects (h.maps fs.nodes) (h'.maps fs.nodes) fs.root c old_up new_up
        old_name new_name gone

  module _ (up c : ℕ) (es : Entries) (fd : ℤ) (old_name new_name : Bytes)
      (up_live : h.maps fs.nodes up ≡ true) (is_dir : (h.objects up).kind ≡ directory es fd)
      (named : lookup old_name es ≡ some c) where
    entry_up : (n : Bytes) → entry_of (h.objects up).kind n ≡ lookup n es
    unfolding entry_of
    entry_up n = ground (arith, is_dir)

    -- To a free name in the same directory.
    pub moved_in_dir :
        lookup new_name es ≡ none
        → MovesTo (move_entry up c es fd old_name new_name h) c up up old_name new_name nothing
    unfolding move_entry entry_of is_directory
    moved_in_dir free = record {
      named = ground (arith, entry_up old_name);
      gone_named = λ j e. cc;
      named_gone = λ j e. ground (arith, entry_up new_name);
      gone_empty = λ j n e. cc;
      kept = refl;
      same_entries = λ d n. ground (
        arith,
        is_dir,
        lookup-insert new_name n c (remove old_name es),
        lookup-remove old_name n es,
      );
      same_parents =
          λ j. ground (arith, valid.child_parent up old_name c up_live, entry_up old_name);
      same_links = λ j. ground arith;
      same_root = ground (arith, is_dir);
      shrunk = λ j. refl;
    }

    -- To a name in the same directory that another node gives up.
    pub moved_over :
        (i : ℕ)
        → lookup new_name es ≡ some i
        → i ≢ c
        → can_replace_node (h.objects c).kind (h.objects i).kind ≡ true
        → MovesTo
            (move_entry up c es fd old_name new_name (set_member fs.nodes i false (detach i h)))
            c
            up
            up
            old_name
            new_name
            (only i)
    unfolding move_entry entry_of is_directory detach
    moved_over i taken ne ok = record {
      named = ground (arith, entry_up old_name);
      gone_named = λ j e. ground (arith, entry_up new_name);
      named_gone = λ j e. ground (arith, entry_up new_name);
      gone_empty =
          λ j n e. ground (arith, can_replace-empty (h.objects c).kind (h.objects i).kind n ok);
      kept = ground arith;
      same_entries = λ d n. ground (
        arith,
        is_dir,
        lookup-insert new_name n c (remove old_name es),
        lookup-remove old_name n es,
        can_replace-empty (h.objects c).kind (h.objects i).kind old_name ok,
        entry_up old_name,
      );
      same_parents = λ j. ground (
        arith,
        valid.child_parent up old_name c up_live,
        entry_up old_name,
        can_replace-empty (h.objects c).kind (h.objects i).kind old_name ok,
      );
      same_links = λ j. ground (
        arith,
        can_replace-empty (h.objects c).kind (h.objects i).kind old_name ok,
        entry_up old_name,
      );
      same_root = ground (arith, is_dir);
      shrunk = λ j. ground arith;
    }

  module _ (old_up new_up c : ℕ) (old_es new_es : Entries) (old_fd new_fd : ℤ)
      (old_name new_name : Bytes) (old_live : h.maps fs.nodes old_up ≡ true)
      (old_dir : (h.objects old_up).kind ≡ directory old_es old_fd)
      (new_dir : (h.objects new_up).kind ≡ directory new_es new_fd) (differ : old_up ≢ new_up)
      (named : lookup old_name old_es ≡ some c) where
    abbrev across : Heap K
    across = move_between fs.nodes c old_up new_up old_es old_fd old_name new_es new_fd new_name h

    old_entry : (n : Bytes) → entry_of (h.objects old_up).kind n ≡ lookup n old_es
    unfolding entry_of
    old_entry n = ground (arith, old_dir)

    new_entry : (n : Bytes) → entry_of (h.objects new_up).kind n ≡ lookup n new_es
    unfolding entry_of
    new_entry n = ground (arith, new_dir)

    pub moved_across :
        lookup new_name new_es ≡ none → MovesTo across c old_up new_up old_name new_name nothing
    unfolding move_between entry_of is_directory
    moved_across free = record {
      named = ground (arith, old_entry old_name);
      gone_named = λ j e. cc;
      named_gone = λ j e. ground (arith, new_entry new_name);
      gone_empty = λ j n e. cc;
      kept = refl;
      same_entries = λ d n. ground (
        arith,
        free,
        old_dir,
        new_dir,
        lookup-insert new_name n c new_es,
        lookup-remove old_name n old_es,
      );
      same_parents = λ j. ground (arith, free);
      same_links = λ j. ground (arith, free);
      same_root = ground (arith, free, old_dir, new_dir);
      shrunk = λ j. ground (arith, free);
    }

    pub moved_across_over :
        (i : ℕ)
        → lookup new_name new_es ≡ some i
        → h.maps fs.nodes i ≡ true
        → i ≢ c
        → can_replace_node (h.objects c).kind (h.objects i).kind ≡ true
        → MovesTo across c old_up new_up old_name new_name (only i)
    unfolding move_between entry_of is_directory
    moved_across_over i taken i_live ne ok = record {
      named = ground (arith, old_entry old_name);
      gone_named = λ j e. ground (arith, new_entry new_name);
      named_gone = λ j e. ground (arith, new_entry new_name);
      gone_empty =
          λ j n e. ground (arith, can_replace-empty (h.objects c).kind (h.objects i).kind n ok);
      kept = ground arith;
      same_entries = λ d n. ground (
        arith,
        taken,
        i_live,
        old_dir,
        new_dir,
        lookup-insert new_name n c new_es,
        lookup-remove old_name n old_es,
        can_replace-empty (h.objects c).kind (h.objects i).kind n ok,
      );
      same_parents = λ j. ground (arith, taken, i_live);
      same_links = λ j. ground (arith, taken, i_live);
      same_root = ground (arith, taken, i_live, old_dir, new_dir);
      shrunk = λ j. ground (arith, taken, i_live);
    }
