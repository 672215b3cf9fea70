-- ===== src/Memory/Rename/Laws.antt =====
-- `rename` by path: the tree stays a tree, and what was found under the old path, with all that is
-- below it, is found under the new one.
use sandbox_vfs.Base.{
  ℕ, ◌≡◌, ◌≢◌, refl, sym, ap, ◌∙◌, false, Option, none, some, arith, Bytes, ◌∷◌, [], ◌++◌, pos,
  int_eq, if◌then◌else◌, Bool-cases, inl, inr,
}
use sandbox_vfs.FilePath.{FilePath}
use sandbox_vfs.FilePath.Normal.{IsNormal, trail, starts_with-trail}
use sandbox_vfs.Memory.{NodeKind, Heap, MemoryFs, entry_of, is_directory, resolve}
use sandbox_vfs.Memory.Rename.Ends.{Renames, renaming, renaming_cases}
use sandbox_vfs.Memory.Tree.{IsValid}
use sandbox_vfs.Memory.Tree.Move.{IsTree-move}
use sandbox_vfs.Memory.Tree.Locate.{Trail, locate, locate-live, locate-cons, locate_inversion}
use sandbox_vfs.Memory.Tree.PathsMove.{
  is_below, rebase, rebase_self, locate-move_elsewhere, locate-move_new, locate-move_old,
  is_below_append,
}
use sandbox_vfs.Memory.Paths.{resolve-locate}

not_listed : (k : NodeKind) (n : Bytes) (d : ℕ) → is_directory k ≡ false → entry_of k n ≢ some d
unfolding entry_of is_directory
not_listed k n d e l = ground arith

module _ {K : Type 0} (fs : MemoryFs) (h : Heap K) (old_path new_path : FilePath)
    (valid : IsValid fs h) where
  -- A rename, whatever its result, keeps the tree of a well-formed file system.
  pub rename_node_at-IsValid : IsValid fs (renaming fs h old_path new_path valid).1
  rename_node_at-IsValid =
      renaming_cases fs h old_path new_path valid (λ r. IsValid fs r.1) valid (λ _. valid)
        (λ h' r. rw r.same_next (
          IsTree-move valid r.moves (locate-live valid r.old_q r.old_up r.old_found)
            (locate-live valid r.new_q r.new_up r.new_found)))

  -- In a well-formed file system a rename that fails changes nothing at all.
  pub rename_node_at_failed :
      (renaming fs h old_path new_path valid).0 ≢ pos 0
      → (renaming fs h old_path new_path valid).1 ≡ h
  rename_node_at_failed =
      renaming_cases fs h old_path new_path valid (λ r. r.0 ≢ pos 0 → r.1 ≡ h) (λ _. refl)
        (λ _ ne. absurd (ne refl)) (λ h' r ne. absurd (ne refl))

  -- What a path led to, as its names, the last one first.
  abbrev pub before : Trail → Option ℕ
  before = locate h.objects (h.maps fs.nodes) fs.root

  -- Nothing is below a regular file.
  below_regular :
      (p s : Trail) (c d : ℕ)
      → before s ≡ some c
      → is_directory (h.objects c).kind ≡ false
      → before (p ++ s) ≡ some d
      → d ≡ c
  below_regular [] s c d e k f = ground arith
  below_regular (n ∷ p) s c d e k f =
      let (up, e', up_live, lists, _) = locate_inversion valid n (p ++ s) d f in
      let same : up ≡ c = below_regular p s c up e k e' in
      absurd (
        not_listed (h.objects up).kind n d (ap (λ i. is_directory (h.objects i).kind) same ∙ k)
          lists)

  abbrev pub moved_lookup : Trail → Option ℕ
  moved_lookup p =
      if is_below p (trail new_path)
      then before (rebase p (trail new_path) (trail old_path))
      else if is_below p (trail old_path)
      then none
      else before p

  module _ (old_normal : IsNormal old_path) (new_normal : IsNormal new_path) (h' : Heap K)
      (r : Renames fs h valid old_path new_path h') where
    -- The new path is not below the old one.
    not_inside : is_below r.new_q (r.old_name ∷ r.old_q) ≡ false
    not_inside = elim (Bool-cases (is_below r.new_q (r.old_name ∷ r.old_q))) [
      | inr e ↦ e
      | inl e ↦
          let (x, shape) = is_below_append r.new_q (r.old_name ∷ r.old_q) e in
          elim (Bool-cases (is_directory (h.objects r.c).kind)) [
            | inl d ↦
                let starts =
                  starts_with-trail new_path old_path (r.new_name ∷ x) new_normal old_normal (
                    r.new_trail
                    ∙ ap (◌∷◌ r.new_name) shape
                    ∙ ap (λ s. r.new_name ∷ (x ++ s)) (sym r.old_trail)) in
                absurd (ground (arith, r.not_inside, d, starts))
            | inr d ↦
                let here =
                  locate-cons valid r.old_name r.old_q r.old_up r.c r.old_found r.moves.named in
                let at =
                  below_regular x (r.old_name ∷ r.old_q) r.c r.new_up here d
                    (ap before (sym shape) ∙ r.new_found) in
                absurd (ground (arith, r.into_directory, d, at))
          ]
    ]

    pub moved-locate : (p : Trail) → locate h'.objects (h'.maps fs.nodes) fs.root p ≡ moved_lookup p
    moved-locate p =
        rw (r.old_trail, r.new_trail)
          (elim (Bool-cases (is_below p (r.new_name ∷ r.new_q))) [
            | inl e ↦ ground (
              arith,
              e,
              locate-move_new valid r.moves r.old_q r.new_q r.old_found r.new_found not_inside p e,
            )
            | inr e ↦ elim (Bool-cases (is_below p (r.old_name ∷ r.old_q))) [
              | inl f ↦ ground (
                arith,
                e,
                f,
                locate-move_old valid r.moves r.old_q r.new_q r.old_found r.new_found not_inside p f
                    e,
              )
              | inr f ↦ ground (
                arith,
                e,
                f,
                locate-move_elsewhere valid r.moves r.old_q r.new_q r.old_found r.new_found
                    not_inside p f e,
              )
            ]
          ])

  -- A rename to the same path moves nothing.
  moved_same : (t : Trail) → trail old_path ≡ trail new_path → before t ≡ moved_lookup t
  moved_same t same = rw same (elim (Bool-cases (is_below t (trail new_path))) [
    | inl e ↦ rw e (ap before (sym (rebase_self t (trail new_path) e)))
    | inr e ↦ rw e refl
  ])

  pub rename_node_at-locate :
      IsNormal old_path
      → IsNormal new_path
      → (t : Trail)
      → let r = renaming fs h old_path new_path valid in
        locate r.1.objects (r.1.maps fs.nodes) fs.root t
        ≡ (if int_eq r.0 (pos 0) then moved_lookup t else before t)
  rename_node_at-locate old_normal new_normal t =
      renaming_cases fs h old_path new_path valid
        (λ r.
          locate r.1.objects (r.1.maps fs.nodes) fs.root t
          ≡ (if int_eq r.0 (pos 0) then moved_lookup t else before t))
        refl (λ same. moved_same t same) (λ h' r. moved-locate old_normal new_normal h' r t)

  pub next-rename_node_at : (renaming fs h old_path new_path valid).1.next_node_id ≡ h.next_node_id
  next-rename_node_at =
      renaming_cases fs h old_path new_path valid (λ r. r.1.next_node_id ≡ h.next_node_id) refl
        (λ _. refl) (λ h' r. r.same_next)

  -- In a well-formed file system, after a rename of one path to another, both normal, that gave
  -- status 0: a path at or below the new one leads to what the same path below the old one led to,
  -- the old path and all below it lead nowhere, and every other path leads where it led before.
  pub rename_node_at-resolve :
      IsNormal old_path
      → IsNormal new_path
      → trail old_path ≢ trail new_path
      → (renaming fs h old_path new_path valid).0 ≡ pos 0
      → (p : FilePath)
      → resolve fs (renaming fs h old_path new_path valid).1 p ≡ moved_lookup (trail p)
  rename_node_at-resolve old_normal new_normal ne ok p =
      resolve-locate fs (renaming fs h old_path new_path valid).1 p rename_node_at-IsValid.root_live
      ∙ renaming_cases fs h old_path new_path valid
          (λ r.
            r.0 ≡ pos 0
            → locate r.1.objects (r.1.maps fs.nodes) fs.root (trail p) ≡ moved_lookup (trail p))
          (λ e. absurd (cc)) (λ e _. absurd (ne e))
          (λ h' r _. moved-locate old_normal new_normal h' r (trail p)) ok
