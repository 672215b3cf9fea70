-- ===== src/Memory/Rename/Cases.antt =====
-- How `rename_entry` ends in a valid file system: refused, with nothing to do, or with a move.
use sandbox_vfs.Base.{
  ℕ, ◌≡◌, ◌≢◌, refl, sym, subst, ap, ◌∙◌, Bool, true, false, ◌&&◌, some, arith, Bytes, ℤ, pos,
  minus_one, ◌==◌, Bool-cases, Option-cases, inl, inr,
}
use sandbox_vfs.Entries.{Entries, lookup}
use sandbox_vfs.Memory.{directory, Heap, MemoryFs, backing_fd, entry_of, is_directory, set_member}
use sandbox_vfs.Memory.Remove.{detach}
use sandbox_vfs.Memory.Rename.{
  can_replace_node, move_entry, move_between, rename_in_dir, rename_across,
}
use sandbox_vfs.Memory.Rename.Moved.{
  MovesTo, SameBacking, nothing, only, moved_in_dir, moved_over, moved_across, moved_across_over,
}
use sandbox_vfs.Memory.Create.Cases.{entry_of_directory}
use sandbox_vfs.Memory.Tree.{IsValid}

pub ends : {A : Type 0} (P : A → Type 0) (x y : A) → P x → y ≡ x → P y
ends P x y p e = subst P (sym e) p

module _ {K : Type 0} (fs : MemoryFs) (h : Heap K) (valid : IsValid fs h)
    (old_name new_name : Bytes) (below : Bool) (P : ℤ × Heap K → Type 0) where
  abbrev pub OnMove : ℕ → ℕ → Type 0
  OnMove old_up new_up =
      (h' : Heap K) (c : ℕ) (gone : ℕ → Bool)
      → MovesTo fs h valid h' c old_up new_up old_name new_name gone
      → is_directory (h.objects c).kind && below ≡ false
      → h'.next_node_id ≡ h.next_node_id
      → SameBacking h h'
      → P (pos 0, h')

  module _ (up : ℕ) (es : Entries) (fd : ℤ) (up_live : h.maps fs.nodes up ≡ true)
      (is_dir : (h.objects up).kind ≡ directory es fd) (refused : P (minus_one, h))
      (kept : old_name ≡ new_name → P (pos 0, h)) (moved : OnMove up up) where
    abbrev in_dir : ℤ × Heap K
    in_dir = rename_in_dir fs.nodes up es fd old_name new_name below h

    entry_up : (n : Bytes) → entry_of (h.objects up).kind n ≡ lookup n es
    entry_up n = entry_of_directory (h.objects up).kind n es fd is_dir

    in_dir_over :
        (c i : ℕ)
        → lookup old_name es ≡ some c
        → is_directory (h.objects c).kind && below ≡ false
        → lookup new_name es ≡ some i
        → i ≢ c
        → P in_dir
    in_dir_over c i e apart f ne =
        let c_live = valid.child_live up old_name c up_live (entry_up old_name ∙ e) in
        let i_live = valid.child_live up new_name i up_live (entry_up new_name ∙ f) in
        elim (Bool-cases (can_replace_node (h.objects c).kind (h.objects i).kind)) [
          | inr b ↦ ends P (minus_one, h) in_dir refused (unfold rename_in_dir in ground arith)
          | inl b ↦
              let h' =
                move_entry up c es fd old_name new_name
                  (set_member fs.nodes i false (detach i h)) in
              ends P (pos 0, h') in_dir
                (moved h' c (only i)
                  (moved_over fs h valid up c es fd old_name new_name up_live is_dir e i f ne b)
                  apart (unfold move_entry detach in refl)
                  (unfold move_entry detach backing_fd in (refl, λ j. ground (arith, is_dir))))
                (unfold rename_in_dir in ground arith)
        ]

    pub in_dir_cases : P in_dir
    in_dir_cases = elim (Option-cases (lookup old_name es)) [
      | inl e ↦ ends P (minus_one, h) in_dir refused (unfold rename_in_dir in ground (arith, e))
      | inr (c, e) ↦
          let c_live = valid.child_live up old_name c up_live (entry_up old_name ∙ e) in
          elim (Bool-cases (is_directory (h.objects c).kind && below)) [
            | inl b ↦ ends P (minus_one, h) in_dir refused (unfold rename_in_dir in ground arith)
            | inr b ↦ elim (Option-cases (lookup new_name es)) [
              | inl f ↦
                  let h' = move_entry up c es fd old_name new_name h in
                  ends P (pos 0, h') in_dir
                    (moved h' c nothing
                      (moved_in_dir fs h valid up c es fd old_name new_name up_live is_dir e f) b
                      (unfold move_entry in refl)
                      (unfold move_entry backing_fd in (refl, λ j. ground (arith, is_dir))))
                    (unfold rename_in_dir in ground arith)
              | inr (i, f) ↦ elim (Bool-cases (i == c)) [
                | inr ne ↦ in_dir_over c i e b f (ground arith)
                | inl eq ↦
                    let same : i ≡ c = ground arith in
                    ends P (pos 0, h) in_dir
                      (kept (
                        valid.one_name up old_name new_name c up_live (entry_up old_name ∙ e)
                          (entry_up new_name ∙ f ∙ ap some same)))
                      (unfold rename_in_dir in ground arith)
              ]
            ]
          ]
    ]

  module _ (old_up new_up : ℕ) (old_es new_es : Entries) (old_fd new_fd : ℤ)
      (old_live : h.maps fs.nodes old_up ≡ true) (new_live : h.maps fs.nodes new_up ≡ true)
      (old_dir : (h.objects old_up).kind ≡ directory old_es old_fd)
      (new_dir : (h.objects new_up).kind ≡ directory new_es new_fd) (differ : old_up ≢ new_up)
      (refused : P (minus_one, h)) (moved : OnMove old_up new_up) where
    abbrev across : ℤ × Heap K
    across =
        rename_across fs.nodes old_up new_up old_es old_fd old_name new_es new_fd new_name below h

    abbrev target : ℕ → Heap K
    target c = move_between fs.nodes c old_up new_up old_es old_fd old_name new_es new_fd new_name h

    old_entry : (n : Bytes) → entry_of (h.objects old_up).kind n ≡ lookup n old_es
    old_entry n = entry_of_directory (h.objects old_up).kind n old_es old_fd old_dir

    new_entry : (n : Bytes) → entry_of (h.objects new_up).kind n ≡ lookup n new_es
    new_entry n = entry_of_directory (h.objects new_up).kind n new_es new_fd new_dir

    next-target : (c : ℕ) → (target c).next_node_id ≡ h.next_node_id
    unfolding move_between
    next-target c = ground arith

    backing-target : (c : ℕ) → SameBacking h (target c)
    unfolding move_between backing_fd
    backing-target c = (ground arith, λ j. ground (arith, old_dir, new_dir))

    across_over :
        (c i : ℕ)
        → lookup old_name old_es ≡ some c
        → is_directory (h.objects c).kind && below ≡ false
        → lookup new_name new_es ≡ some i
        → P across
    across_over c i e apart f =
        let c_live = valid.child_live old_up old_name c old_live (old_entry old_name ∙ e) in
        let i_live = valid.child_live new_up new_name i new_live (new_entry new_name ∙ f) in
        let ne : i ≢ c = λ same. ground (
          arith,
          valid.child_parent old_up old_name c old_live (old_entry old_name ∙ e),
          valid.child_parent new_up new_name i new_live (new_entry new_name ∙ f),
          same,
        ) in
        elim (Bool-cases (can_replace_node (h.objects c).kind (h.objects i).kind)) [
          | inr b ↦ ends P (minus_one, h) across refused (unfold rename_across in ground arith)
          | inl b ↦
              ends P (pos 0, target c) across
                (moved (target c) c (only i)
                  (moved_across_over fs h valid old_up new_up c old_es new_es old_fd new_fd old_name
                    new_name old_live old_dir new_dir differ e i f i_live ne b)
                  apart (next-target c) (backing-target c))
                (unfold rename_across in ground arith)
        ]

    pub across_cases : P across
    across_cases = elim (Option-cases (lookup old_name old_es)) [
      | inl e ↦ ends P (minus_one, h) across refused (unfold rename_across in ground (arith, e))
      | inr (c, e) ↦
          let c_live = valid.child_live old_up old_name c old_live (old_entry old_name ∙ e) in
          elim (Bool-cases (is_directory (h.objects c).kind && below)) [
            | inl b ↦ ends P (minus_one, h) across refused (unfold rename_across in ground arith)
            | inr b ↦ elim (Option-cases (lookup new_name new_es)) [
              | inr (i, f) ↦ across_over c i e b f
              | inl f ↦
                  ends P (pos 0, target c) across
                    (moved (target c) c nothing
                      (moved_across fs h valid old_up new_up c old_es new_es old_fd new_fd old_name
                        new_name old_live old_dir new_dir differ e f)
                      b (next-target c) (backing-target c))
                    (unfold rename_across in ground arith)
            ]
          ]
    ]
