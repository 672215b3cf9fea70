-- ===== src/Memory/Rename/Ends.antt =====
-- How `rename_node_at` ends in a valid file system, with the move that it makes if any.
use sandbox_vfs.Base.{
  ℕ, ◌≡◌, sym, subst, ap, ◌∙◌, Bool, true, false, ◌&&◌, ◌||◌, some, arith, Bytes, ◌∷◌, ℤ, pos,
  minus_one, ◌==◌, Bool-cases, Option-cases, inl, inr,
}
use sandbox_vfs.FilePath.{FilePath, root_path, path_eq, starts_with}
use sandbox_vfs.FilePath.Laws.{path_eq_iff}
use sandbox_vfs.FilePath.Normal.{trail}
use sandbox_vfs.Memory.{Heap, MemoryFs, is_directory, resolve_parent_from_root}
use sandbox_vfs.Memory.Rename.{rename_in_dir, rename_across, rename_entry, rename_node_at}
use sandbox_vfs.Memory.Rename.Moved.{MovesTo, SameBacking}
use sandbox_vfs.Memory.Rename.Cases.{OnMove, ends, in_dir_cases, across_cases}
use sandbox_vfs.Memory.Create.Cases.{NodeKind-cases}
use sandbox_vfs.Memory.Tree.{IsValid}
use sandbox_vfs.Memory.Tree.Locate.{Trail, locate, locate-live, locate_unique}
use sandbox_vfs.Memory.Paths.{resolve_parent-locate}

module _ {K : Type 0} (fs : MemoryFs) (h : Heap K) (valid : IsValid fs h)
    (old_name new_name : Bytes) (below : Bool) (P : ℤ × Heap K → Type 0) (old_up new_up : ℕ)
    (old_live : h.maps fs.nodes old_up ≡ true) (new_live : h.maps fs.nodes new_up ≡ true)
    (refused : P (minus_one, h)) (kept : old_up ≡ new_up → old_name ≡ new_name → P (pos 0, h))
    (moved : is_directory (h.objects new_up).kind ≡ true
      → OnMove fs h valid old_name new_name below P old_up new_up) where
  abbrev entry_result : ℤ × Heap K
  entry_result = rename_entry fs.nodes old_up old_name new_up new_name below h

  pub rename_entry_cases : P entry_result
  rename_entry_cases = elim (NodeKind-cases (h.objects old_up).kind) [
    | inl (fd, e) ↦
        ends P (minus_one, h) entry_result refused (unfold rename_entry in ground (arith, e))
    | inr (old_es, old_fd, e) ↦ elim (NodeKind-cases (h.objects new_up).kind) [
      | inl (fd, f) ↦
          ends P (minus_one, h) entry_result refused (unfold rename_entry in ground (arith, e, f))
      | inr (new_es, new_fd, f) ↦
          let is_dir : is_directory (h.objects new_up).kind ≡ true =
            unfold is_directory in ground (arith, f) in
          elim (Bool-cases (old_up == new_up)) [
            | inr ne ↦
                ends P
                  (rename_across fs.nodes old_up new_up old_es old_fd old_name new_es new_fd
                    new_name below h)
                  entry_result
                  (across_cases fs h valid old_name new_name below P old_up new_up old_es new_es
                    old_fd new_fd old_live new_live e f (ground arith) refused (moved is_dir))
                  (unfold rename_entry in ground (arith, e, f))
            | inl eq ↦
                let same : old_up ≡ new_up = ground arith in
                ends P (rename_in_dir fs.nodes old_up old_es old_fd old_name new_name below h)
                  entry_result
                  (in_dir_cases fs h valid old_name new_name below P old_up old_es old_fd old_live e
                    refused (kept same)
                    (subst (OnMove fs h valid old_name new_name below P old_up) (sym same)
                      (moved is_dir)))
                  (unfold rename_entry in ground (arith, e, f))
          ]
    ]
  ]

-- Where the two paths lead, and the move that was made of them.
pub record Renames {K : Type 0} (fs : MemoryFs) (h : Heap K) (valid : IsValid fs h)
    (old_path new_path : FilePath) (h' : Heap K) : Type 0 where
  pub old_up : ℕ
  pub new_up : ℕ
  pub old_name : Bytes
  pub new_name : Bytes
  pub old_q : Trail
  pub new_q : Trail
  pub c : ℕ
  pub gone : ℕ → Bool
  pub old_trail : trail old_path ≡ old_name ∷ old_q
  pub new_trail : trail new_path ≡ new_name ∷ new_q
  pub old_found : locate h.objects (h.maps fs.nodes) fs.root old_q ≡ some old_up
  pub new_found : locate h.objects (h.maps fs.nodes) fs.root new_q ≡ some new_up
  pub moves : MovesTo fs h valid h' c old_up new_up old_name new_name gone
  pub not_inside : is_directory (h.objects c).kind && starts_with new_path old_path ≡ false
  pub into_directory : is_directory (h.objects new_up).kind ≡ true
  pub same_next : h'.next_node_id ≡ h.next_node_id
  pub same_backing : SameBacking h h'

same_trail : {s t p q : Trail} {n m : Bytes} → s ≡ n ∷ p → t ≡ m ∷ q → n ≡ m → p ≡ q → s ≡ t
same_trail a b c d = cc (a, b, c, d)

module _ {K : Type 0} (fs : MemoryFs) (h : Heap K) (old_path new_path : FilePath)
    (valid : IsValid fs h) where
  abbrev pub renaming : ℤ × Heap K
  renaming = rename_node_at old_path new_path fs.nodes fs.root h

  pub renaming_cases :
      (P : ℤ × Heap K → Type 0)
      → P (minus_one, h)
      → (trail old_path ≡ trail new_path → P (pos 0, h))
      → ((h' : Heap K) → Renames fs h valid old_path new_path h' → P (pos 0, h'))
      → P renaming
  renaming_cases P refused kept moved =
      elim (Bool-cases (path_eq old_path root_path || path_eq new_path root_path)) [
        | inl r ↦ ends P (minus_one, h) renaming refused (unfold rename_node_at in ground arith)
        | inr r ↦ elim (Bool-cases (path_eq old_path new_path)) [
          | inl s ↦
              ends P (pos 0, h) renaming (kept (ap trail ((path_eq_iff old_path new_path).0 s)))
                (unfold rename_node_at in ground arith)
          | inr s ↦ elim (Option-cases (resolve_parent_from_root h old_path fs.nodes fs.root)) [
            | inl e ↦ ends P (minus_one, h) renaming refused (unfold rename_node_at in ground arith)
            | inr ((old_up, old_name), e) ↦
                elim (Option-cases (resolve_parent_from_root h new_path fs.nodes fs.root)) [
                  | inl f ↦
                      ends P (minus_one, h) renaming refused (unfold rename_node_at in ground arith)
                  | inr ((new_up, new_name), f) ↦
                      let b = starts_with new_path old_path in
                      let (oq, ot, of) =
                        resolve_parent-locate h fs.nodes fs.root old_up old_name old_path
                          valid.root_live e in
                      let (nq, nt, nf) =
                        resolve_parent-locate h fs.nodes fs.root new_up new_name new_path
                          valid.root_live f in
                      let ol = locate-live valid oq old_up of in
                      let nl = locate-live valid nq new_up nf in
                      ends P (rename_entry fs.nodes old_up old_name new_up new_name b h) renaming
                        (rename_entry_cases fs h valid old_name new_name b P old_up new_up ol nl
                          refused
                          (λ same_up same_name. kept (
                            same_trail ot nt same_name
                              (locate_unique valid oq nq old_up of (nf ∙ ap some (sym same_up)))))
                          (λ dir h' c gone m apart next backing. moved h' (record {
                            old_up = old_up;
                            new_up = new_up;
                            old_name = old_name;
                            new_name = new_name;
                            old_q = oq;
                            new_q = nq;
                            c = c;
                            gone = gone;
                            old_trail = ot;
                            new_trail = nt;
                            old_found = of;
                            new_found = nf;
                            moves = m;
                            not_inside = apart;
                            into_directory = dir;
                            same_next = next;
                            same_backing = backing;
                          })))
                        (unfold rename_node_at in ground arith)
                ]
          ]
        ]
      ]
