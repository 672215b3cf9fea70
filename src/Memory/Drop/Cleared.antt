-- ===== src/Memory/Drop/Cleared.antt =====
-- `unlink`, `rmdir` and `rename` of src/impls/memory.rs: which files they close.
use sandbox_vfs.Base.{ℕ, ℤ, ◌≡◌, refl, ap, ◌∙◌, some, List, arith}
use sandbox_vfs.FilePath.{FilePath}
use sandbox_vfs.Filesystem.{EntryKind}
use sandbox_vfs.Memory.{Kernel, Heap, MemoryFs, backing_fd, resolve}
use sandbox_vfs.Memory.Create.Cases.{entry_of_directory}
use sandbox_vfs.Memory.Drop.{drop_unowned, remove_and_drop, rename_and_drop}
use sandbox_vfs.Memory.Drop.Backed.{HasDescriptors}
use sandbox_vfs.Memory.Drop.Steps.{Backed, StepsTo, cleared-StepsTo}
use sandbox_vfs.Memory.Paths.{resolve-locate}
use sandbox_vfs.Memory.Remove.{detach}
use sandbox_vfs.Memory.Remove.Cases.{removed_heap}
use sandbox_vfs.Memory.Remove.Laws.{removal_cases}
use sandbox_vfs.Memory.Rename.Ends.{renaming_cases}
use sandbox_vfs.Memory.Rename.Moved.{nothing, only}
use sandbox_vfs.Memory.Tree.{IsValid}
use sandbox_vfs.Memory.Tree.Locate.{locate, locate-live, locate-cons}

module _ {K : Type 0} {os : Kernel K} {IsOpen : K → ℤ → Type 0} (table : HasDescriptors os IsOpen)
    (fs : MemoryFs) (handles : List ℕ) (h : Heap K) (b : Backed table fs (handles, h))
    (valid : IsValid fs h) where
  -- The calls that leave the heap as it is.
  nothing_cleared :
      (path : FilePath)
      → StepsTo table fs (handles, h) (handles, drop_unowned os fs handles (resolve fs h path) h)
  nothing_cleared path =
      cleared-StepsTo table fs handles h b valid h (refl, λ j. refl) refl nothing (λ j. refl) path
        (λ j e. absurd (cc))

  pub remove_and_drop-StepsTo :
      (path : FilePath) (kind : EntryKind)
      → StepsTo table fs (handles, h) (remove_and_drop os fs path kind (handles, h))
  unfolding remove_and_drop
  remove_and_drop-StepsTo path kind =
      removal_cases fs h path kind valid
        (λ r.
          StepsTo table fs (handles, h)
            (handles, drop_unowned os fs handles (resolve fs h path) r.1))
        (nothing_cleared path)
        (λ up name q es fd id last named found is_dir lists ok.
          let there : resolve fs h path ≡ some id =
            resolve-locate fs h path valid.root_live
            ∙ ap (locate h.objects (h.maps fs.nodes) fs.root) named
            ∙ locate-cons valid name q up id found
                (entry_of_directory (h.objects up).kind name es fd is_dir ∙ lists) in
          let h' = removed_heap fs h valid up name kind (locate-live valid q up found) es fd id in
          cleared-StepsTo table fs handles h b valid h'
            (unfold detach backing_fd in (refl, λ j. ground (arith, is_dir)))
            (unfold detach in refl) (only id) (unfold detach in λ j. ground arith) path
            (λ j e. ground (arith, there)))

  pub rename_and_drop-StepsTo :
      (old_path new_path : FilePath)
      → StepsTo table fs (handles, h) (rename_and_drop os fs old_path new_path (handles, h))
  unfolding rename_and_drop
  rename_and_drop-StepsTo old_path new_path =
      renaming_cases fs h old_path new_path valid
        (λ r.
          StepsTo table fs (handles, h)
            (handles, drop_unowned os fs handles (resolve fs h new_path) r.1))
        (nothing_cleared new_path) (λ _. nothing_cleared new_path)
        (λ h' r.
          cleared-StepsTo table fs handles h b valid h' r.same_backing r.same_next r.gone
            r.moves.shrunk new_path
            (λ j e.
              resolve-locate fs h new_path valid.root_live
              ∙ ap (locate h.objects (h.maps fs.nodes) fs.root) r.new_trail
              ∙ locate-cons valid r.new_name r.new_q r.new_up j r.new_found
                  (r.moves.gone_named j e)))
