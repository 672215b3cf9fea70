-- ===== src/Memory/Paths.antt =====
-- The look-ups of `MemoryFS` against the map from paths to nodes.
use mathlib.Core.Option
use sandbox_vfs.Base.{
  ℕ, ◌≡◌, ◌≢◌, refl, true, Option, none, some, [], ◌∷◌, arith, Bytes, Option-cases, inl, inr, ◌∙◌,
}
use sandbox_vfs.FilePath.{
  FilePath, Component, root_dir, cur_dir, parent_dir, normal, parent, file_name,
}
use sandbox_vfs.FilePath.Normal.{trail, trail_onto}
use sandbox_vfs.Memory.{
  Heap, MemoryFs, entry_of, child, walk, node_from_map, resolve_from_root, resolve_parent_from_root,
  resolve,
}
use sandbox_vfs.Memory.Tree.{IsTree}
use sandbox_vfs.Memory.Tree.Locate.{Trail, step, locate, locate_inversion}

abbrev push_name : Trail → Component → Trail
push_name q (normal name) = name ∷ q
push_name q _ = q

trail_onto-cons :
    (q : Trail) (c : Component) (p : FilePath) → trail_onto q (c ∷ p) ≡ trail_onto (push_name q c) p
trail_onto-cons q (normal name) p = refl
trail_onto-cons q root_dir p = refl
trail_onto-cons q cur_dir p = refl
trail_onto-cons q parent_dir p = refl

-- `parent` and `file_name` on a path of two components or more
parent-cons_eq :
    (c d : Component) (p : FilePath) → parent (c ∷ d ∷ p) ≡ Option.map (λ q. c ∷ q) (parent (d ∷ p))
unfolding parent
parent-cons_eq (normal name) d p = refl
parent-cons_eq root_dir d p = refl
parent-cons_eq cur_dir d p = refl
parent-cons_eq parent_dir d p = refl

parent-cons :
    (c d : Component) (p up r : FilePath)
    → parent (d ∷ p) ≡ some r
    → parent (c ∷ d ∷ p) ≡ some up
    → up ≡ c ∷ r
parent-cons c d p up r e h = ground (arith, parent-cons_eq c d p)

parent-cons_none :
    (c d : Component) (p up : FilePath) → parent (d ∷ p) ≡ none → parent (c ∷ d ∷ p) ≢ some up
parent-cons_none c d p up e h = ground (arith, parent-cons_eq c d p)

file_name-cons :
    (c d : Component) (p : FilePath) (name : Bytes)
    → file_name (c ∷ d ∷ p) ≡ some name
    → file_name (d ∷ p) ≡ some name
unfolding file_name
file_name-cons (normal n) d p name h = h
file_name-cons root_dir d p name h = h
file_name-cons cur_dir d p name h = h
file_name-cons parent_dir d p name h = h

-- A path that ends in a name has a parent.
file_name-parent : (p : FilePath) (name : Bytes) → file_name p ≡ some name → parent p ≢ none
unfolding file_name parent
file_name-parent [] name h e = cc
file_name-parent (root_dir ∷ []) name h e = cc
file_name-parent (cur_dir ∷ []) name h e = cc
file_name-parent (parent_dir ∷ []) name h e = cc
file_name-parent (normal n ∷ []) name h e = cc
file_name-parent (c ∷ d ∷ p) name h e =
    file_name-parent (d ∷ p) name (file_name-cons c d p name h)
      (ground (arith, parent-cons_eq c d p))

trail_onto-parent :
    (q : Trail) (p up : FilePath) (name : Bytes)
    → parent p ≡ some up
    → file_name p ≡ some name
    → trail_onto q p ≡ name ∷ trail_onto q up
unfolding parent file_name
trail_onto-parent q [] up name hp hf = absurd (ground arith)
trail_onto-parent q (root_dir ∷ []) up name hp hf = absurd (ground arith)
trail_onto-parent q (cur_dir ∷ []) up name hp hf = absurd (ground arith)
trail_onto-parent q (parent_dir ∷ []) up name hp hf = absurd (ground arith)
trail_onto-parent q (normal n ∷ []) up name hp hf =
    let e : up ≡ [] = ground arith in rw e (ground arith)
trail_onto-parent q (c ∷ d ∷ p) up name hp hf = elim (Option-cases (parent (d ∷ p))) [
  | inl e ↦ absurd (parent-cons_none c d p up e hp)
  | inr (r, e) ↦
      rw (parent-cons c d p up r e hp, trail_onto-cons q c (d ∷ p), trail_onto-cons q c r)
        (trail_onto-parent (push_name q c) (d ∷ p) r name e (file_name-cons c d p name hf))
]

module _ {K : Type 0} (h : Heap K) (nodes : ℕ) where
  abbrev at : ℕ → Trail → Option ℕ
  at root = locate h.objects (h.maps nodes) root

  child-step : (i : ℕ) (name : Bytes) → child h nodes i name ≡ step h.objects (h.maps nodes) i name
  unfolding child step
  child-step i name = ground arith

  last_step :
      (root i : ℕ) (q : Trail) (name : Bytes)
      → at root q ≡ some i
      → at root (name ∷ q) ≡ child h nodes i name
  unfolding locate
  last_step root i q name e = ground (arith, child-step i name)

  locate-none :
      (root : ℕ) (q : Trail) (p : FilePath) → at root q ≡ none → at root (trail_onto q p) ≡ none
  unfolding locate
  locate-none root q [] e = e
  locate-none root q (root_dir ∷ p) e = locate-none root q p e
  locate-none root q (cur_dir ∷ p) e = locate-none root q p e
  locate-none root q (parent_dir ∷ p) e = locate-none root q p e
  locate-none root q (normal name ∷ p) e = locate-none root (name ∷ q) p (ground arith)

  walk-locate :
      (root i : ℕ) (q : Trail) (p : FilePath)
      → at root q ≡ some i
      → walk h nodes i p ≡ at root (trail_onto q p)
  unfolding walk
  walk-locate root i q [] e = ground arith
  walk-locate root i q (root_dir ∷ p) e = walk-locate root i q p e
  walk-locate root i q (cur_dir ∷ p) e = walk-locate root i q p e
  walk-locate root i q (parent_dir ∷ p) e = walk-locate root i q p e
  walk-locate root i q (normal name ∷ p) e = elim (Option-cases (child h nodes i name)) [
    | inl f ↦ ground (arith, f, locate-none root (name ∷ q) p (last_step root i q name e ∙ f))
    | inr (next, f) ↦
        ground (arith, f, walk-locate root next (name ∷ q) p (last_step root i q name e ∙ f))
  ]

  pub resolve_from_root-locate :
      (root : ℕ) (p : FilePath)
      → h.maps nodes root ≡ true
      → resolve_from_root h p nodes root ≡ at root (trail p)
  unfolding resolve_from_root locate node_from_map
  resolve_from_root-locate root p l = ground (arith, walk-locate root root [] p refl)

  -- The parent and the name that a path stands for.
  pub resolve_parent-locate :
      (root up : ℕ) (name : Bytes) (p : FilePath)
      → h.maps nodes root ≡ true
      → resolve_parent_from_root h p nodes root ≡ some (up, name)
      → (q : Trail) × (trail p ≡ name ∷ q) × (at root q ≡ some up)
  unfolding resolve_parent_from_root
  resolve_parent-locate root up name p l e = elim (Option-cases (parent p)) [
    | inl f ↦ absurd (ground (arith, f))
    | inr (above, f) ↦ (
      trail above,
      trail_onto-parent [] p above name f (ground (arith, f)),
      ground (arith, f, resolve_from_root-locate root above l),
    )
  ]

  pub resolve_parent-file_name :
      (root up : ℕ) (name : Bytes) (p : FilePath)
      → resolve_parent_from_root h p nodes root ≡ some (up, name)
      → file_name p ≡ some name
  unfolding resolve_parent_from_root
  resolve_parent-file_name root up name p e = ground arith

  -- The other way round, from a path that leads somewhere and ends in a name.
  pub resolve_parent_of_name :
      {next : ℕ} (root id : ℕ) (name : Bytes) (p : FilePath)
      → IsTree h.objects (h.maps nodes) next root
      → file_name p ≡ some name
      → at root (trail p) ≡ some id
      → (up : ℕ) × (resolve_parent_from_root h p nodes root ≡ some (up, name))
        × (h.maps nodes up ≡ true)
        × (entry_of (h.objects up).kind name ≡ some id)
  unfolding resolve_parent_from_root
  resolve_parent_of_name root id name p t last found = elim (Option-cases (parent p)) [
    | inl e ↦ absurd (file_name-parent p name last e)
    | inr (above, e) ↦
        let named = trail_onto-parent [] p above name e last in
        let (up, at_up, up_live, lists, _) =
          locate_inversion t name (trail above) id (rw named at found) in
        (
          up,
          ground (arith, e, last, resolve_from_root-locate root above t.root_live, at_up),
          up_live,
          lists,
        )
  ]

pub resolve-locate :
    {K : Type 0} (fs : MemoryFs) (h : Heap K) (p : FilePath)
    → h.maps fs.nodes fs.root ≡ true
    → resolve fs h p ≡ locate h.objects (h.maps fs.nodes) fs.root (trail p)
unfolding resolve
resolve-locate fs h p l = resolve_from_root-locate h fs.nodes fs.root p l
