-- ===== src/Memory/Open/Relative.antt =====
-- The calls through a handle on a directory of a `MemoryFS`, src/impls/memory.rs, with a path of
-- names: they do what the calls with the joined path do.
use mathlib.Core.Option
use sandbox_vfs.Base.{
  ℕ, ◌≡◌, ◌≢◌, refl, sym, ap, ◌∙◌, false, Option, none, some, [], ◌∷◌, ◌++◌, append_assoc, arith,
  Bytes, Option-cases, inl, inr,
}
use sandbox_vfs.FilePath.{FilePath, root_dir, cur_dir, parent_dir, normal, is_absolute}
use sandbox_vfs.FilePath.Below.{last_name, is_relative}
use sandbox_vfs.FilePath.Laws.{parent-append_normal, file_name-append_normal}
use sandbox_vfs.FilePath.Normal.{AllNames}
use sandbox_vfs.Filesystem.{EntryKind, file}
use sandbox_vfs.Memory.{
  Kernel, Heap, MemoryFs, child, node_from_map, walk, walk_relative, resolve, resolve_from_root,
  resolve_relative, resolve_parent, resolve_parent_from_root,
}
use sandbox_vfs.Memory.Create.{create_node, create_relative_node}
use sandbox_vfs.Memory.Open.{open_resolved_node, open_node, open_node_relative}

module _ {K : Type 0} (h : Heap K) (nodes : ℕ) where
  -- Along names the two walks are one.
  walk_relative-names :
      (i : ℕ) (p : FilePath) → AllNames p → walk_relative h nodes i p ≡ walk h nodes i p
  unfolding walk walk_relative
  walk_relative-names i [] a = refl
  walk_relative-names i (normal n ∷ p) a = elim (Option-cases (child h nodes i n)) [
    | inl e ↦ ground (arith, e)
    | inr (next, e) ↦ ground (arith, e, walk_relative-names next p a)
  ]
  walk_relative-names i (root_dir ∷ p) a = absurd a
  walk_relative-names i (cur_dir ∷ p) a = absurd a
  walk_relative-names i (parent_dir ∷ p) a = absurd a

  walk-append :
      (i d : ℕ) (p q : FilePath)
      → walk h nodes i p ≡ some d
      → walk h nodes i (p ++ q) ≡ walk h nodes d q
  unfolding walk
  walk-append i d [] q e = ground arith
  walk-append i d (root_dir ∷ p) q e = walk-append i d p q e
  walk-append i d (cur_dir ∷ p) q e = walk-append i d p q e
  walk-append i d (parent_dir ∷ p) q e = walk-append i d p q e
  walk-append i d (normal n ∷ p) q e = elim (Option-cases (child h nodes i n)) [
    | inl f ↦ absurd (ground (arith, f))
    | inr (next, f) ↦ ground (arith, f, walk-append next d p q)
  ]

-- A call through a handle on the node `d`, to which the path `base` leads.
module _ {K : Type 0} (os : Kernel K) (fs : MemoryFs) (h : Heap K) (base : FilePath) (d : ℕ)
    (found : resolve fs h base ≡ some d) where
  resolve-below :
      (p : FilePath) → AllNames p → resolve_relative h d fs.nodes p ≡ resolve fs h (base ++ p)
  unfolding resolve resolve_relative resolve_from_root node_from_map
  resolve-below p a = ground (
    arith,
    is_relative p a,
    walk_relative-names h fs.nodes d p a,
    walk-append h fs.nodes fs.root d base p,
  )

  same_resolve : (p : FilePath) → resolve fs h p ≡ resolve_from_root h p fs.nodes fs.root
  unfolding resolve
  same_resolve p = refl

  parent-below :
      (up : FilePath) (n : Bytes)
      → AllNames up
      → resolve_parent fs h ((base ++ up) ++ normal n ∷ [])
        ≡ Option.map (λ i. (i, n)) (resolve_relative h d fs.nodes up)
  unfolding resolve_parent resolve_parent_from_root
  parent-below up n a = ground (
    arith,
    parent-append_normal (base ++ up) n,
    file_name-append_normal (base ++ up) n,
    resolve-below up a,
    same_resolve (base ++ up),
  )

  relative_name :
      (up : FilePath) (n : Bytes) → AllNames up → is_absolute (up ++ normal n ∷ []) ≡ false
  relative_name [] n a = refl
  relative_name (normal m ∷ up) n a = refl
  relative_name (root_dir ∷ up) n a = absurd a
  relative_name (cur_dir ∷ up) n a = absurd a
  relative_name (parent_dir ∷ up) n a = absurd a

  create-named :
      (up : FilePath) (n : Bytes) (kind : EntryKind) (mode : ℕ)
      → AllNames up
      → create_relative_node os d fs.nodes (up ++ normal n ∷ []) kind mode h
        ≡ create_node os fs ((base ++ up) ++ normal n ∷ []) kind mode h
  unfolding create_relative_node create_node
  create-named up n kind mode a = ground (
    arith,
    relative_name up n a,
    parent-append_normal up n,
    file_name-append_normal up n,
    parent-below up n a,
  )

  pub create-below :
      (p : FilePath) (kind : EntryKind) (mode : ℕ)
      → AllNames p
      → p ≢ []
      → create_relative_node os d fs.nodes p kind mode h ≡ create_node os fs (base ++ p) kind mode h
  create-below p kind mode a ne =
      let (up, n, b, e) = last_name p a ne in
      ap (λ q. create_relative_node os d fs.nodes q kind mode h) e
      ∙ create-named up n kind mode b
      ∙ ap (λ q. create_node os fs q kind mode h)
          (append_assoc base up (normal n ∷ []) ∙ ap (λ q. base ++ q) (sym e))

  open-created :
      (existing : Option ℕ) (create create' : Heap K → Option ℕ × Heap K) (flags : ℕ)
      → create h ≡ create' h
      → open_resolved_node os existing create flags h
        ≡ open_resolved_node os existing create' flags h
  unfolding open_resolved_node
  open-created none create create' flags e = ground (arith, e)
  open-created (some i) create create' flags e = refl

  pub open-below :
      (p : FilePath) (flags mode : ℕ)
      → AllNames p
      → p ≢ []
      → open_node_relative os d fs.nodes p flags mode h ≡ (
        some (open_node os fs (base ++ p) flags mode h).0,
        (open_node os fs (base ++ p) flags mode h).1,
      )
  unfolding open_node_relative open_node
  open-below p flags mode a ne = ground (
    arith,
    is_relative p a,
    resolve-below p a,
    open-created (resolve fs h (base ++ p)) (create_relative_node os d fs.nodes p file mode)
        (create_node os fs (base ++ p) file mode) flags,
    create-below p file mode a ne,
  )
