-- ===== src/Memory/Refines.antt =====
-- Any sequence of changes to a `MemoryFS` of src/impls/memory.rs against a map from paths to nodes,
-- which the replies of the calls alone determine.
use sandbox_vfs.Base.{
  ℕ, ◌+◌, ◌^◌, ◌<◌, ◌≤◌, ◌≡◌, refl, ap, ◌∙◌, fun_ext, ◌&&◌, Option, none, List, [], ◌∷◌, length,
  arith, ℤ, pos, int_eq, if◌then◌else◌,
}
use sandbox_vfs.FilePath.{FilePath}
use sandbox_vfs.FilePath.Normal.{IsNormal, trail}
use sandbox_vfs.Filesystem.{EntryKind}
use sandbox_vfs.Memory.{Kernel, Heap, MemoryFs, resolve}
use sandbox_vfs.Memory.Create.{create_node}
use sandbox_vfs.Memory.Create.Laws.{
  lookup_created, create_node-IsValid, create_node-locate, next-create_node,
}
use sandbox_vfs.Memory.Paths.{resolve-locate}
use sandbox_vfs.Memory.Remove.{remove_node_at}
use sandbox_vfs.Memory.Remove.Laws.{
  remove_node_at-IsValid, remove_node_at-locate, next-remove_node_at,
}
use sandbox_vfs.Memory.Rename.{rename_node_at}
use sandbox_vfs.Memory.Rename.Laws.{
  rename_node_at-IsValid, rename_node_at-locate, next-rename_node_at,
}
use sandbox_vfs.Memory.Tree.{IsValid}
use sandbox_vfs.Memory.Tree.Locate.{Trail, trail_eq, locate}
use sandbox_vfs.Memory.Tree.PathsMove.{is_below, rebase}

pub data Change : Type 0 where
  make : FilePath → EntryKind → ℕ → Change
  remove : FilePath → EntryKind → Change
  rename : FilePath → FilePath → Change

-- The number of a node that was made, or the status of the call.
pub data Reply : Type 0 where
  created : Option ℕ → Reply
  status : ℤ → Reply

-- The abstract file system: the node that the names of a path lead to.
abbrev pub View : Type 0
View = Trail → Option ℕ

-- What a change does to it.
abbrev pub changed : Change → Reply → View → View
changed (make path kind mode) (created made) v t = lookup_created made (trail path) t (v t)
changed (remove path kind) (status result) v t =
    if int_eq result (pos 0) && trail_eq t (trail path) then none else v t
changed (rename old_path new_path) (status result) v t =
    if int_eq result (pos 0)
    then (if is_below t (trail new_path)
        then v (rebase t (trail new_path) (trail old_path))
        else if is_below t (trail old_path)
        then none
        else v t)
    else v t
changed _ _ v t = v t

abbrev pub all_changed : List Change → List Reply → View → View
all_changed (c ∷ cs) (r ∷ rs) v = all_changed cs rs (changed c r v)
all_changed _ _ v = v

-- The dispatch gives normal paths only.
abbrev pub IsNormalChange : Change → Type 0
IsNormalChange (rename old_path new_path) = IsNormal old_path × IsNormal new_path
IsNormalChange _ = Unit {0}

abbrev pub AllNormalChanges : List Change → Type 0
AllNormalChanges [] = Unit {0}
AllNormalChanges (c ∷ cs) = IsNormalChange c × AllNormalChanges cs

module _ {K : Type 0} (os : Kernel K) (fs : MemoryFs) where
  abbrev replied : {A : Type 0} → (A → Reply) → A × Heap K → Reply × Heap K
  replied f (a, h) = (f a, h)

  unfoldable pub apply : Change → Heap K → Reply × Heap K
  unfolding create_node remove_node_at rename_node_at
  apply (make path kind mode) h = replied created (create_node os fs path kind mode h)
  apply (remove path kind) h = replied status (remove_node_at path fs.nodes fs.root kind h)
  apply (rename old_path new_path) h =
      replied status (rename_node_at old_path new_path fs.nodes fs.root h)

  unfoldable pub apply_all : List Change → Heap K → List Reply × Heap K
  unfolding apply
  apply_all [] h = ([], h)
  apply_all (c ∷ cs) h = let (r, h') = apply c h in let (rs, h'') = apply_all cs h' in (r ∷ rs, h'')

  abbrev pub view : Heap K → View
  view h t = locate h.objects (h.maps fs.nodes) fs.root t

  -- A change of a well-formed file system refines its effect on the map.
  abbrev pub Refines : Change → Heap K → Reply × Heap K → Type 0
  Refines c h (r, h') =
      IsValid fs h'
      × ((t : Trail) → view h' t ≡ changed c r (view h) t)
      × (h'.next_node_id ≤ h.next_node_id + 1)

  pub apply-Refines :
      (c : Change) (h : Heap K)
      → IsValid fs h
      → IsNormalChange c
      → h.next_node_id + 1 < 2 ^ 64
      → Refines c h (apply c h)
  unfolding apply
  apply-Refines (make path kind mode) h valid normal room = (
    create_node-IsValid os fs h path kind mode valid room,
    create_node-locate os fs h path kind mode valid room,
    next-create_node os fs h path kind mode valid room,
  )
  apply-Refines (remove path kind) h valid normal room = (
    remove_node_at-IsValid fs h path kind valid,
    remove_node_at-locate fs h path kind valid,
    omega (arith, next-remove_node_at fs h path kind valid),
  )
  apply-Refines (rename old_path new_path) h valid (old_normal, new_normal) room = (
    rename_node_at-IsValid fs h old_path new_path valid,
    rename_node_at-locate fs h old_path new_path valid old_normal new_normal,
    omega (arith, next-rename_node_at fs h old_path new_path valid),
  )

  apply_all-locate :
      (cs : List Change) (h : Heap K)
      → IsValid fs h
      → AllNormalChanges cs
      → h.next_node_id + length cs < 2 ^ 64
      → let (rs, h') = apply_all cs h in
        IsValid fs h' × ((t : Trail) → view h' t ≡ all_changed cs rs (view h) t)
  unfolding apply_all
  apply_all-locate [] h valid normal room = (valid, λ t. refl)
  apply_all-locate (c ∷ cs) h valid (normal, normals) room =
      let (valid1, same, next) = apply-Refines c h valid normal (omega arith) in
      let (valid2, sames) = apply_all-locate cs (apply c h).1 valid1 normals (omega arith) in
      (
        valid2,
        λ t. sames t ∙ ap (λ v. all_changed cs (apply_all cs (apply c h).1).0 v t) (fun_ext same),
      )

  -- Any sequence of changes to a well-formed file system, with a node number to spare for each and the
  -- paths of renames normal, keeps it well-formed, and every path leads then to what it leads to in the
  -- map from names to nodes that held before, changed as the replies say, one after the other.
  pub apply_all-resolve :
      (cs : List Change) (h : Heap K) (v : View)
      → IsValid fs h
      → AllNormalChanges cs
      → h.next_node_id + length cs < 2 ^ 64
      → ((t : Trail) → locate h.objects (h.maps fs.nodes) fs.root t ≡ v t)
      → let (rs, h') = apply_all cs h in
        IsValid fs h' × ((p : FilePath) → resolve fs h' p ≡ all_changed cs rs v (trail p))
  apply_all-resolve cs h v valid normal room starts =
      let (valid', same) = apply_all-locate cs h valid normal room in
      (
        valid',
        λ p.
            resolve-locate fs (apply_all cs h).1 p valid'.root_live
            ∙ same (trail p)
            ∙ ap (λ u. all_changed cs (apply_all cs h).0 u (trail p)) (fun_ext starts),
      )
