-- ===== src/Memory/Backend.antt =====
-- src/impls/memory.rs: `MemoryFS` as a `LowLevelFS`, and `MemoryOpenedFile` as an `OpenedFile`.
-- The functions that these methods call assert again what is asserted here: a parent of a path is
-- absolute exactly when the path is.
use mathlib.Core.Option
use sandbox_vfs.Base.{
  ℕ, Option, none, some, List, ℤ, pos, minus_one, bit_and, if◌then◌else◌, Action, pure, total,
  assert, ◌>>=◌, ◌>>◌,
}
use sandbox_vfs.FilePath.{FilePath, is_absolute}
use sandbox_vfs.Filesystem.{file, dir, DirEntry, Stat, OpenResult, OpenedFile, LowLevelFs}
use sandbox_vfs.Memory.{
  Kernel, NodeKind, regular, directory, Heap, MemoryFs, MemoryOpenedFile, put_node, resolve,
}
use sandbox_vfs.Memory.Create.{create_node, create_relative_node}
use sandbox_vfs.Memory.Remove.{remove_node_at}
use sandbox_vfs.Memory.Rename.{rename_node_at}
use sandbox_vfs.Memory.Open.{open_node, open_node_relative}
use sandbox_vfs.Memory.Inspect.{stat_node, read_node_dir}

-- `.map_or(-1, |_| 0)`
unfoldable pub status_of : {A : Type 0} → Option A → ℤ
status_of none = minus_one
status_of (some a) = pos 0

module _ {K : Type 0} (os : Kernel K) where
  unfoldable pub open_result : ℕ → ℤ × Option ℕ → OpenResult MemoryOpenedFile
  open_result nodes (fd, node) = record {
    fd = fd;
    opened = Option.map (λ n. record { node = n; nodes = nodes }) node;
  }

  abbrev pub assert_absolute : FilePath → Action (Heap K) (Unit {0})
  assert_absolute path = assert (is_absolute path)

  module _ (fs : MemoryFs) where
    unfoldable pub access : FilePath → ℕ → Action (Heap K) ℤ
    unfolding status_of
    access path mode = do assert_absolute path; λ h. pure (status_of (resolve fs h path)) h

    unfoldable pub open_path : FilePath → ℕ → ℕ → Action (Heap K) ℤ
    open_path path flags mode = do
      assert_absolute path
      (fd, node) ← total (open_node os fs path flags mode)
      pure fd

    unfoldable pub open_with_handle :
        FilePath → ℕ → ℕ → Action (Heap K) (OpenResult MemoryOpenedFile)
    unfolding open_result
    open_with_handle path flags mode = do
      assert_absolute path
      result ← total (open_node os fs path flags mode)
      pure (open_result fs.nodes result)

    unfoldable pub openat : ℤ → FilePath → ℕ → ℕ → Action (Heap K) ℤ
    unfolding open_path
    openat dirfd path flags mode = do assert_absolute path; open_path path flags mode

    unfoldable pub mkdir : FilePath → ℕ → Action (Heap K) ℤ
    unfolding status_of
    mkdir path mode = do
      assert_absolute path
      created ← total (create_node os fs path dir mode)
      pure (status_of created)

    unfoldable pub unlink : FilePath → Action (Heap K) ℤ
    unlink path = do assert_absolute path; total (remove_node_at path fs.nodes fs.root file)

    unfoldable pub rmdir : FilePath → Action (Heap K) ℤ
    rmdir path = do assert_absolute path; total (remove_node_at path fs.nodes fs.root dir)

    unfoldable pub rename : FilePath → FilePath → Action (Heap K) ℤ
    rename old_path new_path = do
      assert_absolute old_path
      assert_absolute new_path
      total (rename_node_at old_path new_path fs.nodes fs.root)

    unfoldable pub fchmod_kind : NodeKind → ℕ → Heap K → Heap K
    fchmod_kind (regular fd) mode h = record h { kernel = os.fchmod fd mode h.kernel }
    fchmod_kind (directory entries fd) mode h = h

    unfoldable pub chmod_node : FilePath → ℕ → Heap K → ℤ × Heap K
    unfolding fchmod_kind
    chmod_node path mode h = elim (resolve fs h path) [
      | none ↦ (minus_one, h)
      | some node ↦
          let n = record (h.objects node) { mode = bit_and mode 0o7777 } in
          (pos 0, fchmod_kind n.kind mode (put_node node n h))
    ]

    unfoldable pub chmod : FilePath → ℕ → Action (Heap K) ℤ
    unfolding chmod_node
    chmod path mode = do assert_absolute path; total (chmod_node path mode)

    unfoldable pub stat : FilePath → Stat → Action (Heap K) (ℤ × Stat)
    stat path statbuf = do
      assert_absolute path
      λ h. elim (resolve fs h path) [
        | none ↦ pure (minus_one, statbuf) h
        | some node ↦ pure (pos 0, stat_node os node fs.nodes h) h
      ]

    unfoldable pub read_dir : FilePath → Action (Heap K) (Option (List DirEntry))
    read_dir path = do
      assert_absolute path
      λ h. elim (resolve fs h path) [
        | none ↦ pure none h
        | some node ↦ pure (read_node_dir node fs.nodes h) h
      ]

    unfoldable pub memory_backend : LowLevelFs (Heap K) MemoryOpenedFile
    unfolding access open_path openat mkdir unlink rmdir rename chmod stat open_with_handle read_dir
    memory_backend = record {
      id = fs.id;
      access = access;
      open_path = open_path;
      openat = openat;
      mkdir = mkdir;
      unlink = unlink;
      rmdir = rmdir;
      rename = rename;
      chmod = chmod;
      stat = stat;
      open_with_handle = open_with_handle;
      read_dir = read_dir;
    }

  unfoldable pub open_child :
      MemoryOpenedFile → FilePath → ℕ → ℕ → Heap K → Option (OpenResult MemoryOpenedFile) × Heap K
  unfolding open_result
  open_child f path flags mode h =
      let (result, h') = open_node_relative os f.node f.nodes path flags mode h in
      (Option.map (open_result f.nodes) result, h')

  unfoldable pub mkdir_child : MemoryOpenedFile → FilePath → ℕ → Heap K → Option ℤ × Heap K
  unfolding status_of
  mkdir_child f path mode h =
      if is_absolute path
      then (none, h)
      else let (created, h') = create_relative_node os f.node f.nodes path dir mode h in
        (some (status_of created), h')

  unfoldable pub memory_opened_file : OpenedFile (Heap K) MemoryOpenedFile
  unfolding open_child mkdir_child
  memory_opened_file = record {
    stat = λ f statbuf h. pure (pos 0, stat_node os f.node f.nodes h) h;
    open_child = λ f path flags mode. total (open_child f path flags mode);
    mkdir_child = λ f path mode. total (mkdir_child f path mode);
    read_dir = λ f h. pure (read_node_dir f.node f.nodes h) h;
  }
