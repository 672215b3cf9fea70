-- ===== src/Memory/Drop/Opens.antt =====
-- `open` by path or through a handle of src/impls/memory.rs: the handle that an open gives
-- is on a node that is pointed to, and no file is closed.
use sandbox_vfs.Base.{
  ℕ, ℤ, minus_one, is_negative, has_flag, ◌&&◌, not, ◌+◌, ◌^◌, ◌<◌, ◌≤◌, ◌≡◌, refl, sym, ◌∙◌, true,
  Option, none, some, List, ◌∷◌, arith, Bool-cases, Option-cases, inl, inr,
}
use sandbox_vfs.Memory.{Kernel, Heap, MemoryFs, is_directory, backing_fd}
use sandbox_vfs.Memory.Drop.{is_owned, keep_handle}
use sandbox_vfs.Memory.Drop.Backed.{HasDescriptors, IsBacked-fewer}
use sandbox_vfs.Memory.Drop.Creates.{Creates, nothing_created}
use sandbox_vfs.Memory.Drop.Steps.{fds, Backed, Adds}
use sandbox_vfs.Libc.{o_creat, o_directory}
use sandbox_vfs.Memory.Open.{is_some, open_backing, open_found, open_resolved_node}
use sandbox_vfs.Memory.Open.Laws.{exclusive}
use sandbox_vfs.Memory.Rename.Cases.{ends}
use sandbox_vfs.Memory.Tree.{IsValid}

module _ {K : Type 0} {os : Kernel K} {IsOpen : K → ℤ → Type 0} (table : HasDescriptors os IsOpen)
    (fs : MemoryFs) (handles : List ℕ) (h : Heap K) (b : Backed table fs (handles, h))
    (valid : IsValid fs h) (room : h.next_node_id + 1 < 2 ^ 64) where
  abbrev Created : Option ℕ × Heap K → Type 0
  Created r = Creates table fs handles h b valid room r

  nothing : Created (none, h)
  nothing = nothing_created table fs handles h b valid room

  -- The handle that an open gives is on a node that something pointed to.
  abbrev pub Opened : (ℤ × Option ℕ) × Heap K → Type 0
  Opened ((fd, node), h') =
      Adds table fs (handles, h) (keep_handle node handles, h')
      × IsValid fs h'
      × (h'.next_node_id ≤ h.next_node_id + 1)

  failed-Opened :
      (fd : ℤ) (made : Option ℕ) (h' : Heap K) → Created (made, h') → Opened ((fd, none), h')
  unfolding keep_handle
  failed-Opened fd made h' ((step, _, next), valid') = (step, valid', next)

  module _ (node flags : ℕ) (h' : Heap K) where
    abbrev backing : ℤ × Heap K
    backing = open_backing os (backing_fd (h'.objects node).kind) flags h'

    open_found_cases :
        (P : (ℤ × Option ℕ) × Heap K → Type 0)
        → P ((minus_one, none), h')
        → P ((backing.0, none), backing.1)
        → P ((backing.0, some node), backing.1)
        → P (open_found os node flags h')
    open_found_cases P wrong bad good =
        elim (Bool-cases
          (has_flag flags o_directory && not (is_directory (h'.objects node).kind))) [
            | inl e ↦
                ends P ((minus_one, none), h') (open_found os node flags h') wrong
                  (unfold open_found in rw e refl)
            | inr e ↦ elim (Bool-cases (is_negative backing.0)) [
              | inl f ↦
                  ends P ((backing.0, none), backing.1) (open_found os node flags h') bad
                    (unfold open_found in rw (e, f) refl)
              | inr f ↦
                  ends P ((backing.0, some node), backing.1) (open_found os node flags h') good
                    (unfold open_found in rw (e, f) refl)
            ]
          ]

  module _ (node flags : ℕ) (made : Option ℕ) (h' : Heap K) (c : Created (made, h')) where
    -- The nodes are those that are pointed to without the new handle.
    opened :
        (handles' : List ℕ)
        → ((i : ℕ) → is_owned os fs handles' h' i ≡ is_owned os fs handles h' i)
        → Adds table fs (handles, h) (handles', (backing node flags h').1)
    opened handles' same =
        let ((b', all), _, next) = c.0 in
        let h'' = (backing node flags h').1 in
        let owned : (i : ℕ) → is_owned os fs handles' h'' i ≡ is_owned os fs handles h' i =
          λ i. unfold open_backing is_owned in same i in
        (
          IsBacked-fewer table b' (is_owned os fs handles' h'') (fds h'') h''.next_node_id
              h''.kernel (λ i o. sym (owned i) ∙ o) (λ i. unfold open_backing in refl)
              (unfold open_backing in omega arith)
              (λ fd o. unfold open_backing in table.open_keeps _ _ _ fd o),
          λ i o. owned i ∙ all i o,
        )

    still_tree : IsValid fs (backing node flags h').1
    unfolding open_backing
    still_tree = c.1

    same_next : (backing node flags h').1.next_node_id ≡ h'.next_node_id
    unfolding open_backing
    same_next = refl

    open_found-Opened : is_owned os fs handles h' node ≡ true → Opened (open_found os node flags h')
    open_found-Opened owned =
        let (_, _, next) = c.0 in
        open_found_cases node flags h' Opened (failed-Opened minus_one made h' c)
          (unfold keep_handle in (opened handles (λ i. refl), still_tree, omega (arith, same_next)))
          (unfold keep_handle in
            (
              opened (node ∷ handles) (λ i. unfold is_owned in ground (arith, owned)),
              still_tree,
              omega (arith, same_next),
            ))

  pub open_resolved_node-Opened :
      (existing : Option ℕ) (create : Heap K → Option ℕ × Heap K) (flags : ℕ)
      → ((i : ℕ) → existing ≡ some i → is_owned os fs handles h i ≡ true)
      → Created (create h)
      → Opened (open_resolved_node os existing create flags h)
  open_resolved_node-Opened existing create flags known made =
      elim (Bool-cases (is_some existing && exclusive flags)) [
        | inl e ↦
            ends Opened ((minus_one, none), h) result (failed-Opened minus_one none h nothing)
              (unfold open_resolved_node in ground arith)
        | inr e ↦ elim (Option-cases existing) [
          | inr (node, f) ↦
              ends Opened (open_found os node flags h) result
                (open_found-Opened node flags none h nothing (known node f))
                (unfold open_resolved_node in ground (arith, e, f))
          | inl f ↦ elim (Bool-cases (has_flag flags o_creat)) [
            | inr g ↦
                ends Opened ((minus_one, none), h) result (failed-Opened minus_one none h nothing)
                  (unfold open_resolved_node in ground (arith, f, g))
            | inl g ↦ elim (Option-cases (create h).0) [
              | inl m ↦
                  ends Opened ((minus_one, none), (create h).1) result
                    (failed-Opened minus_one (create h).0 (create h).1 made)
                    (unfold open_resolved_node in ground (arith, f, g, m))
              | inr (node, m) ↦
                  ends Opened (open_found os node flags (create h).1) result
                    (open_found-Opened node flags (create h).0 (create h).1 made
                      (unfold is_owned in ground (arith, made.0.1 node m)))
                    (unfold open_resolved_node in ground (arith, f, g, m))
            ]
          ]
        ]
      ]
    where
      result : (ℤ × Option ℕ) × Heap K
      result = open_resolved_node os existing create flags h
