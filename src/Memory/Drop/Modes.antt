-- ===== src/Memory/Drop/Modes.antt =====
-- `chmod` of src/impls/memory.rs: no file is closed.
use sandbox_vfs.Base.{
  ℕ, ℤ, pos, minus_one, ◌≡◌, refl, sym, ap, ◌∙◌, some, List, arith, Option-cases, inl, inr,
}
use sandbox_vfs.FilePath.{FilePath}
use sandbox_vfs.Memory.{Kernel, Heap, MemoryFs, NodeKind, regular, directory, resolve, backing_fd}
use sandbox_vfs.Memory.Backend.{fchmod_kind, chmod_node}
use sandbox_vfs.Memory.Drop.{is_owned}
use sandbox_vfs.Memory.Drop.Backed.{HasDescriptors, IsBacked-fewer}
use sandbox_vfs.Memory.Chmod.{with_mode, same, still_valid, maps-fchmod, next-fchmod}
use sandbox_vfs.Memory.Drop.Steps.{fds, Backed, Adds}
use sandbox_vfs.Memory.Rename.Cases.{ends}
use sandbox_vfs.Memory.Tree.{IsValid}

-- The mode of the file is set, if the node has one.
fchmod_keeps :
    {K : Type 0} {os : Kernel K} {IsOpen : K → ℤ → Type 0} (table : HasDescriptors os IsOpen)
    (fs : MemoryFs) (kind : NodeKind) (mode : ℕ) (h : Heap K) (fd : ℤ)
    → IsOpen h.kernel fd
    → IsOpen (fchmod_kind os fs kind mode h).kernel fd
unfolding fchmod_kind
fchmod_keeps table fs (regular backing) mode h fd o = table.fchmod_keeps backing mode h.kernel fd o
fchmod_keeps table fs (directory es placeholder) mode h fd o = o

module _ {K : Type 0} {os : Kernel K} {IsOpen : K → ℤ → Type 0} (table : HasDescriptors os IsOpen)
    (fs : MemoryFs) (handles : List ℕ) (h : Heap K) (b : Backed table fs (handles, h))
    (valid : IsValid fs h) (path : FilePath) (mode : ℕ) where
  -- What a chmod leaves.
  abbrev pub Modes : Heap K → Type 0
  Modes g =
      Adds table fs (handles, h) (handles, g) × IsValid fs g × (g.next_node_id ≡ h.next_node_id)

  module _ (i : ℕ) (e : resolve fs h path ≡ some i) where
    abbrev set : Heap K
    set = with_mode os fs h path mode valid i e

    maps_kept : set.maps ≡ h.maps
    maps_kept = maps-fchmod os fs h path mode valid i e (h.objects i).kind _

    next_kept : set.next_node_id ≡ h.next_node_id
    next_kept = next-fchmod os fs h path mode valid i e (h.objects i).kind _

    owned-set : (j : ℕ) → is_owned os fs handles set j ≡ is_owned os fs handles h j
    unfolding is_owned
    owned-set j = ground (arith, maps_kept)

    set-Modes : Modes set
    set-Modes = (
      (
        IsBacked-fewer table b (is_owned os fs handles set) (fds set) set.next_node_id set.kernel
            (λ j o. sym (owned-set j) ∙ o)
            (λ j. ap backing_fd ((same os fs h path mode valid i e).same_kind j))
            (omega (arith, next_kept))
            (λ fd o. fchmod_keeps table fs (h.objects i).kind mode _ fd o),
        λ j o. owned-set j ∙ o,
      ),
      still_valid os fs h path mode valid i e,
      next_kept,
    )

  pub chmod_node-Modes : Modes (chmod_node os fs path mode h).1
  chmod_node-Modes = elim (Option-cases (resolve fs h path)) [
    | inl e ↦
        ends (λ r. Modes r.1) (minus_one, h) (chmod_node os fs path mode h)
          ((b, λ i o. o), valid, refl) (unfold chmod_node in ground (arith, e))
    | inr (i, e) ↦
        ends (λ r. Modes r.1) (pos 0, set i e) (chmod_node os fs path mode h) (set-Modes i e)
          (unfold chmod_node in ground (arith, e))
  ]
