-- ===== src/Memory/Open.antt =====
-- src/impls/memory.rs: opening a node by path or relative to an open directory.
pub mod Laws
pub mod Relative
use sandbox_vfs.Base.{
  ℕ, Bool, true, false, ◌&&◌, not, Option, none, some, ℤ, minus_one, ◌==◌, is_negative, has_flag,
  clear_flags, bit_and, bit_or, if◌then◌else◌,
}
use sandbox_vfs.FilePath.{FilePath, is_absolute}
use sandbox_vfs.Filesystem.{file}
use sandbox_vfs.Libc.{o_creat, o_excl, o_nofollow, o_directory}
use sandbox_vfs.Memory.{Kernel, Heap, MemoryFs, backing_fd, is_directory, resolve, resolve_relative}
use sandbox_vfs.Memory.Create.{create_node, create_relative_node}

abbrev pub is_some {ℓ} : {A : Type ℓ} → Option A → Bool
is_some none = false
is_some (some a) = true

module _ {K : Type 0} (os : Kernel K) where
  -- A fresh open file description, without the flags that the look-up has served.
  unfoldable pub open_backing : ℤ → ℕ → Heap K → ℤ × Heap K
  open_backing fd flags h =
      let lookup_flags = bit_or (bit_or (bit_or o_creat o_excl) o_nofollow) o_directory in
      let (opened, kernel) = os.open_proc_fd fd (clear_flags flags lookup_flags) h.kernel in
      (opened, record h { kernel = kernel })

  unfoldable pub open_found : ℕ → ℕ → Heap K → (ℤ × Option ℕ) × Heap K
  unfolding open_backing
  open_found node flags h =
      if has_flag flags o_directory && not (is_directory (h.objects node).kind)
      then ((minus_one, none), h)
      else let (fd, h') = open_backing (backing_fd (h.objects node).kind) flags h in
        if is_negative fd then ((fd, none), h') else ((fd, some node), h')

  unfoldable pub open_resolved_node :
      Option ℕ → (Heap K → Option ℕ × Heap K) → ℕ → Heap K → (ℤ × Option ℕ) × Heap K
  unfolding open_found
  open_resolved_node existing create flags h =
      let both = bit_or o_creat o_excl in
      if is_some existing && bit_and flags both == both
      then ((minus_one, none), h)
      else (elim existing [
        | some node ↦ open_found node flags h
        | none ↦
            if has_flag flags o_creat
            then (let (created, h') = create h in
                elim created [
                  | none ↦ ((minus_one, none), h')
                  | some node ↦ open_found node flags h'
                ])
            else ((minus_one, none), h)
      ])

  unfoldable pub open_node : MemoryFs → FilePath → ℕ → ℕ → Heap K → (ℤ × Option ℕ) × Heap K
  open_node fs path flags mode h =
      open_resolved_node (resolve fs h path) (create_node os fs path file mode) flags h

  unfoldable pub open_node_relative :
      ℕ → ℕ → FilePath → ℕ → ℕ → Heap K → Option (ℤ × Option ℕ) × Heap K
  open_node_relative start nodes path flags mode h =
      if is_absolute path
      then (none, h)
      else let (result, h') =
          open_resolved_node (resolve_relative h start nodes path)
            (create_relative_node os start nodes path file mode) flags h in
        (some result, h')
