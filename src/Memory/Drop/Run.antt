-- ===== src/Memory/Drop/Run.antt =====
-- One call on a `MemoryFS` of src/impls/memory.rs or on one of its handles: which files it closes.
use sandbox_vfs.Base.{
  ℕ, ℤ, ◌+◌, ◌^◌, ◌<◌, ◌≤◌, ◌≡◌, refl, sym, ap, ◌∙◌, true, false, Option, none, some, List, arith,
  Bool-cases, inl, inr,
}
use sandbox_vfs.FilePath.{FilePath}
use sandbox_vfs.FilePath.Normal.{trail}
use sandbox_vfs.Filesystem.{EntryKind, file, dir}
use sandbox_vfs.Memory.{Kernel, Heap, MemoryFs, resolve, resolve_relative}
use sandbox_vfs.FilePath.{is_absolute}
use sandbox_vfs.Memory.Backend.{chmod_node}
use sandbox_vfs.Memory.Create.{create_node, create_relative_node}
use sandbox_vfs.Memory.Drop.{
  Session, Call, make, remove, rename, chmod, open_path, open_child, mkdir_child, drop_handle,
  is_held, without, is_owned, keep_handle, drop_unowned, drop_opened, open_kept, open_child_kept,
  mkdir_child_kept, remove_and_drop, rename_and_drop, run,
}
use sandbox_vfs.Memory.Drop.Backed.{HasDescriptors}
use sandbox_vfs.Memory.Drop.Cleared.{remove_and_drop-StepsTo, rename_and_drop-StepsTo}
use sandbox_vfs.Memory.Drop.Creates.{
  create_node-Creates, create_relative_node-Creates, resolved_owned,
}
use sandbox_vfs.Memory.Drop.Modes.{chmod_node-Modes}
use sandbox_vfs.Memory.Drop.Opens.{Opened, open_resolved_node-Opened}
use sandbox_vfs.Memory.Drop.Steps.{Backed, Adds-StepsTo, StepsTo, drop_opened-StepsTo}
use sandbox_vfs.Memory.Open.{open_node, open_node_relative, open_resolved_node}
use sandbox_vfs.Memory.Paths.{resolve-locate}
use sandbox_vfs.Memory.Remove.Laws.{remove_node_at-IsValid, next-remove_node_at}
use sandbox_vfs.Memory.Rename.Laws.{rename_node_at-IsValid, next-rename_node_at}
use sandbox_vfs.Memory.Rename.Cases.{ends}
use sandbox_vfs.Memory.Tree.{IsValid}
use sandbox_vfs.Memory.Tree.Locate.{locate-live}

module _ {K : Type 0} {os : Kernel K} {IsOpen : K → ℤ → Type 0} (table : HasDescriptors os IsOpen)
    (fs : MemoryFs) where
  -- A tree, with one number more in use at most.
  abbrev pub Grows : Session K → Heap K → Type 0
  Grows s h' = IsValid fs h' × (h'.next_node_id ≤ s.1.next_node_id + 1)

  drop_unowned-Grows :
      (s : Session K) (handles : List ℕ) (c : Option ℕ) (h' : Heap K)
      → Grows s h'
      → Grows s (drop_unowned os fs handles c h')
  unfolding drop_unowned
  drop_unowned-Grows s handles none h' g = g
  drop_unowned-Grows s handles (some i) h' g = elim (Bool-cases (is_owned os fs handles h' i)) [
    | inl e ↦ rw e g
    | inr e ↦ rw e g
  ]

  module _ (handles : List ℕ) (h : Heap K) (valid : IsValid fs h) (b : Backed table fs (handles, h))
      (room : h.next_node_id + 1 < 2 ^ 64) where
    abbrev pub Runs : Session K → Type 0
    Runs s' = StepsTo table fs (handles, h) s' × Grows (handles, h) s'.1

    unchanged : Runs (handles, h)
    unchanged =
        (Adds-StepsTo table fs (handles, h) (handles, h) (b, λ i o. o), (valid, omega arith))

    removes :
        (path : FilePath) (kind : EntryKind) → Runs (remove_and_drop os fs path kind (handles, h))
    removes path kind = (
      remove_and_drop-StepsTo table fs handles h b valid path kind,
      unfold remove_and_drop in
          drop_unowned-Grows (handles, h) handles (resolve fs h path) _
            (
              remove_node_at-IsValid fs h path kind valid,
              omega (arith, next-remove_node_at fs h path kind valid),
            ),
    )

    renames :
        (old_path new_path : FilePath) → Runs (rename_and_drop os fs old_path new_path (handles, h))
    renames old_path new_path = (
      rename_and_drop-StepsTo table fs handles h b valid old_path new_path,
      unfold rename_and_drop in
          drop_unowned-Grows (handles, h) handles (resolve fs h new_path) _
            (
              rename_node_at-IsValid fs h old_path new_path valid,
              omega (arith, next-rename_node_at fs h old_path new_path valid),
            ),
    )

    drops_handle : (i : ℕ) → Runs (drop_opened os fs i (handles, h))
    drops_handle i = (drop_opened-StepsTo table fs handles h b i, dropped_tree)
      where
        dropped_tree : Grows (handles, h) (drop_opened os fs i (handles, h)).1
        dropped_tree = elim (Bool-cases (is_held handles i)) [
          | inl e ↦
              unfold drop_opened in
              rw e (
                drop_unowned-Grows (handles, h) (without i handles) (some i) h (valid, omega arith))
          | inr e ↦ unfold drop_opened in rw e (valid, omega arith)
        ]

    from_Opened :
        (r : (ℤ × Option ℕ) × Heap K)
        → Opened table fs handles h b valid room r
        → Runs (keep_handle r.0.1 handles, r.1)
    from_Opened ((fd, node), h') (adds, valid', next) =
        (Adds-StepsTo table fs (handles, h) (keep_handle node handles, h') adds, (valid', next))

    opens : (path : FilePath) (flags mode : ℕ) → Runs (open_kept os fs path flags mode (handles, h))
    unfolding open_kept open_node
    opens path flags mode =
        from_Opened
          (open_resolved_node os (resolve fs h path) (create_node os fs path file mode) flags h)
          (open_resolved_node-Opened table fs handles h b valid room (resolve fs h path)
            (create_node os fs path file mode) flags
            (λ i e.
              let l =
                locate-live valid (trail path) i
                  (sym (resolve-locate fs h path valid.root_live) ∙ e) in
              unfold is_owned in ground arith)
            (create_node-Creates table fs handles h b valid room path file mode))

    module _ (start : ℕ) (path : FilePath) (flags mode : ℕ) where
      abbrev child : Session K
      child = open_child_kept os fs start path flags mode (handles, h)

      abbrev opened : (ℤ × Option ℕ) × Heap K
      opened =
          open_resolved_node os (resolve_relative h start fs.nodes path)
            (create_relative_node os start fs.nodes path file mode) flags h

      relative :
          is_absolute path ≡ false
          → open_node_relative os start fs.nodes path flags mode h ≡ (some opened.0, opened.1)
      unfolding open_node_relative
      relative a = rw a refl

      absolute :
          is_absolute path ≡ true
          → open_node_relative os start fs.nodes path flags mode h ≡ (none, h)
      unfolding open_node_relative
      absolute a = rw a refl

      to_opened :
          is_held handles start ≡ true
          → is_absolute path ≡ false
          → child ≡ (keep_handle opened.0.1 handles, opened.1)
      unfolding open_child_kept
      to_opened e a =
          rw (e, relative a) (ap (λ r. (keep_handle opened.0.1 handles, r.1)) (relative a))

      to_absolute : is_held handles start ≡ true → is_absolute path ≡ true → child ≡ (handles, h)
      unfolding open_child_kept
      to_absolute e a = rw (e, absolute a) (ap (λ r. (handles, r.1)) (absolute a))

      to_not_held : is_held handles start ≡ false → child ≡ (handles, h)
      unfolding open_child_kept
      to_not_held e = rw e refl

      opens_child : Runs child
      opens_child = elim (Bool-cases (is_held handles start)) [
        | inr e ↦ ends Runs (handles, h) child unchanged (to_not_held e)
        | inl e ↦ elim (Bool-cases (is_absolute path)) [
          | inl a ↦ ends Runs (handles, h) child unchanged (to_absolute e a)
          | inr a ↦
              ends Runs (keep_handle opened.0.1 handles, opened.1) child
                (from_Opened opened (
                  open_resolved_node-Opened table fs handles h b valid room
                    (resolve_relative h start fs.nodes path)
                    (create_relative_node os start fs.nodes path file mode) flags
                    (λ i f. resolved_owned table fs handles h b valid room start i path e f)
                    (create_relative_node-Creates table fs handles h b valid room start path file
                      mode e)))
                (to_opened e a)
        ]
      ]

    makes_child :
        (start : ℕ) (path : FilePath) (mode : ℕ)
        → Runs (mkdir_child_kept os fs start path mode (handles, h))
    makes_child start path mode = elim (Bool-cases (is_held handles start)) [
      | inr e ↦ unfold mkdir_child_kept in rw e unchanged
      | inl e ↦
          let ((adds, _, next), valid') =
            create_relative_node-Creates table fs handles h b valid room start path dir mode e in
          unfold mkdir_child_kept in
          rw e (Adds-StepsTo table fs (handles, h) (handles, _) adds, (valid', next))
    ]

    pub run-Runs : (c : Call) → Runs (run os fs c (handles, h))
    unfolding run
    run-Runs (make path kind mode) =
        let ((adds, _, next), valid') =
          create_node-Creates table fs handles h b valid room path kind mode in
        (
          Adds-StepsTo table fs (handles, h) (handles, (create_node os fs path kind mode h).1) adds,
          (valid', next),
        )
    run-Runs (remove path kind) = removes path kind
    run-Runs (rename old_path new_path) = renames old_path new_path
    run-Runs (chmod path mode) =
        let (adds, valid', next) = chmod_node-Modes table fs handles h b valid path mode in
        (
          Adds-StepsTo table fs (handles, h) (handles, (chmod_node os fs path mode h).1) adds,
          (valid', omega arith),
        )
    run-Runs (open_path path flags mode) = opens path flags mode
    run-Runs (open_child i path flags mode) = opens_child i path flags mode
    run-Runs (mkdir_child i path mode) = makes_child i path mode
    run-Runs (drop_handle i) = drops_handle i
