-- ===== src/Lib.antt =====
-- sandbox-vfs: a virtual file system under the libc calls of a process.
--
-- `RootVFS` (src/root_vfs.rs) takes each call. It makes the path absolute and normal, picks the
-- backend that is mounted nearest above it, and keeps a table of the descriptors that are open.
-- The backends implement the trait `LowLevelFS` (src/filesystem.rs): `MemoryFS`
-- (src/impls/memory.rs), a tree of nodes in memory; `BindFS` (src/impls/bindfs.rs), a directory of
-- the host; `OverlayFS` (src/impls/overlay.rs), layers of other backends. `linux_dirents`
-- (src/linux_dirents.rs) lays out the records that `getdents64` returns.
--
-- Files:
--   Base          native numbers, bytes, bit tests, integers, and `Action`: a call that changes a
--                 state and returns or panics
--   FilePath      `std::path::Path` as the list of its components, as `Path::components` gives it
--   Filesystem    src/filesystem.rs: the traits as records of operations, generic in the state `W`
--                 of the backends and the type `H` of opened handles
--   Libc          the constants of libc that the source uses, on Linux
--   Entries       the `BTreeMap` of a directory: a list sorted by name
--   Memory        src/impls/memory.rs. The heap holds all nodes by number, and per file system the
--                 set of numbers its map `nodes` has; a removed node stays in the heap, for the
--                 handles that are open on it. Create, Remove, Rename, Open, Inspect and Backend
--                 follow the functions of the source; Tree, Paths, and the children named Laws,
--                 Cases and Status hold proofs; Refines holds any sequence of changes against a map
--                 from the names of a path to its node, Reached the paths of the live nodes, Sorted
--                 the order of entries, Listed read_dir and Chmod chmod; Drop holds `Drop for Node`,
--                 with the pointers to a node as the map and the list of the handles
--   Dirents       src/linux_dirents.rs, with a reader of its records in Reader
--   Overlay       src/impls/overlay.rs
--   CStr          src/impls/mod.rs: paths from and to the C strings of callers and of the host
--   BindFs        src/impls/bindfs.rs, over the host's calls as a parameter
--   RootVfs       src/root_vfs.rs: Open (descriptors), At (the *at calls), Listing (getdents64) and
--                 Backend (the calls with one path)
--   DlHooks       src/dlhooks.rs: the look-up of an original, which is kept
--   LibcHooks     src/libc_hooks.rs and the fallback of the macro in src/dlhooks.rs, over the original
--                 functions as a parameter: Paths and Descriptors (the hooks by what they take),
--                 Directories (opendir and closedir), Config (the file system that the environment
--                 asks for), Calls (the calls of a process, one after another)
--   Tests         runs on concrete inputs
--
-- A path to a `MemoryFS` node is compared by its trail, the list of its names with the last one
-- first. Every loop of the source goes over a list, so that no loop takes fuel; only `ancestors`, of
-- the standard library, counts its steps, and has one for each component of the path, which each
-- step makes shorter by one. Node numbers are 64 bits wide, and the laws of creation ask that one
-- more is left.
--
-- The hooks (src/libc_hooks.rs) are the libc symbols that the process calls. Each reads the path
-- from a C string, asks `RootVFS`, and calls the original function where the source does, after a
-- panic too. `FilePath.Text` reads a path from its bytes and writes it, as the standard library does.
--
-- Not modelled: dlsym, which is a parameter, and an original that is not there while a hook runs;
-- raw pointers, which are the bytes they point to; the locks, since every call is one step
-- of its state; the contents of files, which are the kernel's; the end of a whole `MemoryFS`, since
-- the file system of the hooks lives as long as the process; a caller that closes a descriptor of the
-- file system by its number, which the kernel allows.
pub mod Base
pub mod FilePath
pub mod Filesystem
pub mod Libc
pub mod Entries
pub mod Memory
pub mod Dirents
pub mod Overlay
pub mod CStr
pub mod BindFs
pub mod RootVfs
pub mod DlHooks
pub mod LibcHooks
pub mod Tests
