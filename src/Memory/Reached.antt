-- ===== src/Memory/Reached.antt =====
-- Every node in the map of a `MemoryFS` of src/impls/memory.rs is found from the root under one path:
-- no sequence of changes leaves a node behind or moves a directory below itself.
mod Changes
use sandbox_vfs.Base.{
  ℕ, ◌+◌, ◌^◌, ◌<◌, ◌≡◌, refl, sym, ap, ◌∙◌, true, some, List, [], ◌∷◌, length, arith, Bytes,
}
use sandbox_vfs.FilePath.{FilePath, root_dir}
use sandbox_vfs.FilePath.Normal.{
  IsNormal, trail, untrail, untrail-trail, AllNames-untrail, trail-untrail,
}
use sandbox_vfs.Memory.{Kernel, Heap, MemoryFs, resolve}
use sandbox_vfs.Memory.Create.{new}
use sandbox_vfs.Memory.Create.New.{new-IsValid, next-new}
use sandbox_vfs.Memory.Paths.{resolve-locate}
use sandbox_vfs.Memory.Reached.Changes.{
  AllReached, new-AllReached, create_node-AllReached, remove_node_at-AllReached,
  rename_node_at-AllReached,
}
use sandbox_vfs.Memory.Refines.{
  Change, make, remove, rename, IsNormalChange, AllNormalChanges, apply, apply_all, apply-Refines,
}
use sandbox_vfs.Memory.Tree.{IsValid}
use sandbox_vfs.Memory.Tree.Locate.{Trail, locate, locate_unique}

-- One normal path leads to the node, and no other.
abbrev pub HasOnePath : {K : Type 0} → MemoryFs → Heap K → ℕ → Type 0
HasOnePath fs h i =
    (p : FilePath) × IsNormal p
    × (resolve fs h p ≡ some i)
    × ((q : FilePath) → IsNormal q → resolve fs h q ≡ some i → q ≡ p)

normal_of_trail : (p : FilePath) → IsNormal p → p ≡ root_dir ∷ untrail (trail p)
normal_of_trail (root_dir ∷ p) a = ap (◌∷◌ root_dir) (sym (untrail-trail p a))
normal_of_trail p a = absurd (ground arith)

module _ {K : Type 0} (os : Kernel K) (fs : MemoryFs) where
  apply-AllReached :
      (c : Change) (h : Heap K)
      → IsValid fs h
      → AllReached fs h
      → IsNormalChange c
      → h.next_node_id + 1 < 2 ^ 64
      → AllReached fs (apply os fs c h).1
  unfolding apply
  apply-AllReached (make path kind mode) h valid all normal room =
      create_node-AllReached fs h valid all os path kind mode room
  apply-AllReached (remove path kind) h valid all normal room =
      remove_node_at-AllReached fs h valid all path kind
  apply-AllReached (rename old_path new_path) h valid all (old_normal, new_normal) room =
      rename_node_at-AllReached fs h valid all old_path new_path old_normal new_normal

  apply_all-AllReached :
      (cs : List Change) (h : Heap K)
      → IsValid fs h
      → AllReached fs h
      → AllNormalChanges cs
      → h.next_node_id + length cs < 2 ^ 64
      → IsValid fs (apply_all os fs cs h).1 × AllReached fs (apply_all os fs cs h).1
  unfolding apply_all
  apply_all-AllReached [] h valid all normal room = (valid, all)
  apply_all-AllReached (c ∷ cs) h valid all (normal, normals) room =
      let (valid', _, next) = apply-Refines os fs c h valid normal (omega arith) in
      apply_all-AllReached cs (apply os fs c h).1 valid'
        (apply-AllReached c h valid all normal (omega arith)) normals (omega arith)

  AllReached-HasOnePath :
      (h : Heap K)
      → IsValid fs h
      → AllReached fs h
      → (i : ℕ) → h.maps fs.nodes i ≡ true
      → HasOnePath fs h i
  AllReached-HasOnePath h valid all i live =
      let (t, e) = all i live in
      let at = resolve-locate fs h (root_dir ∷ untrail t) valid.root_live in
      (
        root_dir ∷ untrail t,
        AllNames-untrail t,
        at ∙ ap (locate h.objects (h.maps fs.nodes) fs.root) (trail-untrail t) ∙ e,
        λ q normal f.
            normal_of_trail q normal
            ∙ ap (λ u. root_dir ∷ untrail u)
                (locate_unique valid (trail q) t i (sym (resolve-locate fs h q valid.root_live) ∙ f)
                  e),
      )

-- After any sequence of changes (create, unlink or rmdir, rename) to a new file system, with node
-- numbers to spare and the paths of renames normal, exactly one normal path leads to each node in the
-- map of the file system.
pub apply_all-HasOnePath :
    {K : Type 0} (os : Kernel K) (id : Bytes) (h : Heap K) (cs : List Change)
    → h.next_node_id + 1 + length cs < 2 ^ 64
    → AllNormalChanges cs
    → (i : ℕ)
    → (apply_all os (new os id h).0 cs (new os id h).1).1.maps (new os id h).0.nodes i ≡ true
    → HasOnePath (new os id h).0 (apply_all os (new os id h).0 cs (new os id h).1).1 i
apply_all-HasOnePath os id h cs room normal i live =
    let (fs, h') = new os id h in
    let (valid, all) =
      apply_all-AllReached os fs cs h' (new-IsValid os id h (omega arith)) (new-AllReached os id h)
        normal (omega (arith, next-new os id h (omega arith))) in
    AllReached-HasOnePath os fs (apply_all os fs cs h').1 valid all i live
