-- ===== src/Tests/Names.antt =====
-- Paths and a kernel for the runs: descriptors are counted up, as on systems other than Linux.
use sandbox_vfs.Base.{ℕ, ◌+◌, false, none, [], ◌∷◌, pos, codes}
use sandbox_vfs.FilePath.{FilePath, root_dir, normal}
use sandbox_vfs.Memory.{Kernel, Heap, Node, regular}

abbrev pub counting : Kernel ℕ
counting = record {
  memfd_create = λ name k. (pos (10000 + k), k + 1);
  open_proc_fd = λ fd flags k. (pos (20000 + k), k + 1);
  fstat = λ fd statbuf k. statbuf;
  fchmod = λ fd mode k. k;
  close = λ fd k. k;
}

abbrev pub unused : Node
unused = record { parent_id = none; mode = 0; links = 0; kind = regular (pos 0) }

abbrev pub blank : Heap ℕ
blank = record { kernel = 0; next_node_id = 1; objects = λ i. unused; maps = λ m i. false }

-- /a, /a/f, /b, /b/f
abbrev pub path_a : FilePath
path_a = root_dir ∷ normal (codes "a") ∷ []

abbrev pub path_af : FilePath
path_af = root_dir ∷ normal (codes "a") ∷ normal (codes "f") ∷ []

abbrev pub path_b : FilePath
path_b = root_dir ∷ normal (codes "b") ∷ []

abbrev pub path_bf : FilePath
path_bf = root_dir ∷ normal (codes "b") ∷ normal (codes "f") ∷ []
