-- ===== src/Memory/Drop/Makes.antt =====
-- The calls on src/impls/memory.rs that make and open nodes: each new node stands on a file of its own.
use sandbox_vfs.Base.{
  ℕ, ℤ, ◌+◌, ◌^◌, ◌<◌, ◌≤◌, ◌≡◌, ◌≢◌, refl, sym, subst, ap, ◌∙◌, true, false, ◌||◌, ◌++◌, Option,
  none, some, List, [], ◌∷◌, Bytes, arith, ◌==◌, is_negative, codes,
}
use mathlib.Core.Option.{some-injective}
use sandbox_vfs.Entries.{Entries}
use sandbox_vfs.Filesystem.{EntryKind, file, dir}
use sandbox_vfs.Memory.{Kernel, Heap, MemoryFs, directory, backing_fd, bump_node_id}
use sandbox_vfs.Memory.Create.{new_kind, create_node_in_dir}
use sandbox_vfs.Memory.Create.Cases.{
  objects-new_kind, maps-new_kind, next-new_kind, backed, created_heap, backed_cases,
}
use sandbox_vfs.Memory.Drop.{is_owned}
use sandbox_vfs.Memory.Drop.Backed.{HasDescriptors, IsBacked, IsBacked-fewer, IsBacked-make}
use sandbox_vfs.Memory.Drop.Steps.{fds, Backed, Adds}

abbrev backing_name : EntryKind → Bytes
backing_name file = codes "sandbox-vfs-file" ++ 0 ∷ []
backing_name dir = codes "sandbox-vfs-dir" ++ 0 ∷ []

module _ {K : Type 0} (os : Kernel K) where
  backing-new_kind :
      (kind : EntryKind) (h : Heap K)
      → (backing_fd (new_kind os kind h).0 ≡ (os.memfd_create (backing_name kind) h.kernel).0)
        × ((new_kind os kind h).1.kernel ≡ (os.memfd_create (backing_name kind) h.kernel).1)
  unfolding new_kind backing_fd
  backing-new_kind file h = (refl, refl)
  backing-new_kind dir h = (refl, refl)

module _ {K : Type 0} {os : Kernel K} {IsOpen : K → ℤ → Type 0} (table : HasDescriptors os IsOpen)
    (fs : MemoryFs) (handles : List ℕ) (h : Heap K) (b : Backed table fs (handles, h))
    (room : h.next_node_id + 1 < 2 ^ 64) where
  -- What a create gives is in the map.
  abbrev pub Makes : Option ℕ × Heap K → Type 0
  Makes (made, h') =
      Adds table fs (handles, h) (handles, h')
      × ((i : ℕ) → made ≡ some i → h'.maps fs.nodes i ≡ true)
      × (h'.next_node_id ≤ h.next_node_id + 1)

  pub nothing_made : Makes (none, h)
  nothing_made = ((b, λ i o. o), λ i e. absurd (cc), omega arith)

  module _ (up : ℕ) (name : Bytes) (kind : EntryKind) (mode : ℕ) where
    abbrev file_name : Bytes
    file_name = backing_name kind

    abbrev without_file : Heap K
    without_file = (backed os up fs.nodes name kind mode h).1

    failed-Makes : Makes (none, without_file)
    failed-Makes =
        let g = bump_node_id h in
        let owned : (i : ℕ) → is_owned os fs handles without_file i ≡ is_owned os fs handles h i =
          λ i. unfold is_owned in ground (arith, maps-new_kind os kind g) in
        (
          (
            IsBacked-fewer table b (is_owned os fs handles without_file) (fds without_file)
                without_file.next_node_id without_file.kernel (λ i o. sym (owned i) ∙ o)
                (λ i. ground (arith, objects-new_kind os kind g))
                (omega (arith, next-new_kind os kind g))
                (λ fd o.
                  subst (λ k. IsOpen k fd) (sym (backing-new_kind os kind g).1)
                    (table.memfd_keeps file_name h.kernel fd o)),
            λ i o. owned i ∙ o,
          ),
          λ i e. absurd (cc),
          omega (arith, next-new_kind os kind g),
        )

    module _ (es : Entries) (fd : ℤ) (is_dir : (h.objects up).kind ≡ directory es fd)
        (good : is_negative (backing_fd (backed os up fs.nodes name kind mode h).0) ≡ false)
        (up_old : up < h.next_node_id) where
      abbrev made : Heap K
      made = created_heap os up fs.nodes name kind mode h es fd

      owned-made :
          (i : ℕ)
          → is_owned os fs handles made i ≡ (h.next_node_id == i) || is_owned os fs handles h i
      unfolding is_owned
      owned-made i = ground (arith, maps-new_kind os kind (bump_node_id h))

      fd_of_new : fds made h.next_node_id ≡ (os.memfd_create file_name h.kernel).0
      fd_of_new =
          let g = bump_node_id h in
          let backing = backing-new_kind os kind g in ground (arith, backing.0)

      fd_of_old : (i : ℕ) → h.next_node_id ≢ i → fds made i ≡ fds h i
      unfolding backing_fd
      fd_of_old i ne = ground (arith, is_dir, objects-new_kind os kind (bump_node_id h))

      created-Makes : Makes (some h.next_node_id, made)
      created-Makes =
          let g = bump_node_id h in
          let backing = backing-new_kind os kind g in
          (
            (
              subst (IsBacked IsOpen (is_owned os fs handles made) (fds made) made.next_node_id)
                  (sym backing.1)
                  (IsBacked-make table b file_name (is_owned os fs handles made) (fds made)
                    made.next_node_id (ap is_negative (sym backing.0) ∙ good)
                    (λ i o. sym (owned-made i) ∙ o) fd_of_new fd_of_old
                    (omega (arith, next-new_kind os kind g))),
              λ i o. ground (arith, owned-made i),
            ),
            λ i e. let here = some-injective h.next_node_id i e in ground (arith, here),
            omega (arith, next-new_kind os kind g),
          )

    pub create_node_in_dir-Makes :
        up < h.next_node_id → Makes (create_node_in_dir os up fs.nodes name kind mode h)
    create_node_in_dir-Makes up_old =
        backed_cases os up fs.nodes name kind mode h Makes nothing_made failed-Makes
          (λ es fd is_dir free good. created-Makes es fd is_dir good up_old)
