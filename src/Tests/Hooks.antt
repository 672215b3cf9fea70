-- ===== src/Tests/Hooks.antt =====
-- The hooks over the dispatcher of the other tests, with originals that always succeed.
use sandbox_vfs.Base.{
  ℕ, ℤ, ◌+◌, Action, ◌≡◌, refl, true, none, some, List, [], ◌∷◌, ◌++◌, pos, Bytes, bytes_eq, codes,
  if◌then◌else◌, returned, pure, has_flag,
}
use sandbox_vfs.BindFs.{BindFs, Host, translated}
use sandbox_vfs.BindFs.HostPath.{translated-dispatched}
use sandbox_vfs.CStr.{from_cstr, has_nul}
use sandbox_vfs.CStr.Laws.{IsWellNamed, from_cstr-IsWellNamed, from_cstr-print}
use sandbox_vfs.DlHooks.{IsKept, orig, orig-IsKept}
use sandbox_vfs.FilePath.{FilePath, root_dir, normal, join, ancestors, strip_prefix}
use sandbox_vfs.FilePath.Normal.{trail, untrail}
use sandbox_vfs.FilePath.Text.{parse, print}
use sandbox_vfs.Filesystem.{file, dir, DirEntry}
use sandbox_vfs.Libc.{at_fdcwd, at_removedir}
use sandbox_vfs.LibcHooks.{Originals}
use sandbox_vfs.LibcHooks.Calls.{
  Call, open_path, dup2, mkdirat, opendir, closedir, close, started, own_symbols, perform_all,
}
use sandbox_vfs.LibcHooks.Calls.Copies.{IsSoundProcess}
use sandbox_vfs.LibcHooks.Calls.Reached.{perform_all-IsSound, perform_all-translated}
use sandbox_vfs.LibcHooks.Config
use sandbox_vfs.LibcHooks.Config.{Env, lower_env, upper_env}
use sandbox_vfs.LibcHooks.Config.Laws.{Configured, vfs-Configured}
use sandbox_vfs.LibcHooks.Directories.{materialize_dir, materialize_at, materialized_path}
use sandbox_vfs.LibcHooks.Directories.Copied.{children, with_world, IsCopy}
use sandbox_vfs.LibcHooks.Directories.Entries.{materialize_dir-IsCopy, materialize_at-copies}
use sandbox_vfs.LibcHooks.Paths
use sandbox_vfs.LibcHooks.Descriptors
use sandbox_vfs.Memory.Backend.{memory_backend}
use sandbox_vfs.Memory.Open.{open_node, open_resolved_node, open_found, open_backing}
use sandbox_vfs.Memory.{Heap}
use sandbox_vfs.RootVfs.{path_to_fs, resolve_openat_path, absolute_path_to_fs}
use sandbox_vfs.RootVfs.At
use sandbox_vfs.RootVfs.At.Plain.{at_plain}
use sandbox_vfs.RootVfs.Backend
use sandbox_vfs.RootVfs.Open
use sandbox_vfs.Tests.Names.{counting, path_a, path_af}
use sandbox_vfs.Tests.Memory.{machine, with_af}
use sandbox_vfs.Tests.Vfs.{vfs, start}

abbrev originals : Originals (Heap ℕ)
originals = record {
  accessat = λ a b c d. pure (pos 0);
  access = λ a b. pure (pos 0);
  chmod = λ a b. pure (pos 0);
  stat = λ a b. pure (pos 0, b);
  lstat = λ a b. pure (pos 0, b);
  fstat = λ a b. pure (pos 0, b);
  fstatat = λ a b c d. pure (pos 0, c);
  newfstatat = λ a b c d. pure (pos 0, c);
  fchownat = λ a b c d e. pure (pos 0);
  lchown = λ a b c. pure (pos 0);
  creat = λ a b. pure (pos 3);
  open_path = λ a b c. pure (pos 3);
  close = λ a. pure (pos 0);
  dup = λ a. pure (pos 3);
  dup2 = λ a b. pure (pos 3);
  dup3 = λ a b c. pure (pos 3);
  fcntl = λ a b c. pure (pos 0);
  mkdir = λ a b. pure (pos 0);
  mkdirat = λ a b c. pure (pos 0);
  unlink = λ a. pure (pos 0);
  rmdir = λ a. pure (pos 0);
  unlinkat = λ a b c. pure (pos 0);
  rename = λ a b. pure (pos 0);
  renameat = λ a b c d. pure (pos 0);
  renameat2 = λ a b c d e. pure (pos 0);
  getdents64 = λ a b c. pure (pos 0, []);
  opendir = λ a. pure 1;
  closedir = λ a. pure (pos 0);
}

abbrev host : Host (Heap ℕ)
host = record {
  access = λ a b. pure (pos 0);
  open_path = λ a b c. pure (pos 3);
  mkdir = λ a b. pure (pos 0);
  unlink = λ a. pure (pos 0);
  rmdir = λ a. pure (pos 0);
  rename = λ a b. pure (pos 0);
  chmod = λ a b. pure (pos 0);
  stat = λ a b. pure (pos 0, b);
}

abbrev inode : FilePath → ℕ
inode p = 7

abbrev below_a : BindFs
below_a = record { id = codes "a"; root = path_a }

-- ../../etc//passwd, with the nul and a byte behind it
abbrev outside : Bytes
outside = codes "../../etc//passwd" ++ 0 ∷ 65 ∷ []

abbrev calls : List Call
calls =
    opendir (codes "/a" ++ 0 ∷ [])
    ∷ open_path (codes "a/./f" ++ 0 ∷ []) 0o101 0o644
    ∷ dup2 (pos 3) (pos 5)
    ∷ mkdirat (pos 5) (codes "../g" ++ 0 ∷ []) 0o755
    ∷ close (pos 3)
    ∷ closedir 1
    ∷ []

path_a-IsWellNamed : IsWellNamed path_a
unfolding bytes_eq
path_a-IsWellNamed = ((((refl, tt), refl, refl, refl), tt), ((refl, tt), tt))

perform_all-IsSound_example :
    IsSoundProcess (perform_all originals vfs inode 42 calls (started with_af))
perform_all-IsSound_example = perform_all-IsSound originals vfs inode 42 calls with_af

-- The directory /a is opened, and the descriptor duplicated.
abbrev dir_calls : List Call
dir_calls = open_path (codes "/a" ++ 0 ∷ []) 0 0 ∷ dup2 (pos 20003) (pos 3) ∷ []

abbrev etc_passwd : FilePath
etc_passwd = root_dir ∷ normal (codes "etc") ∷ normal (codes "passwd") ∷ []

resolved_outside :
    resolve_openat_path
      (perform_all originals vfs inode 42 dir_calls (started with_af)).vfs
      (pos 3)
      (from_cstr outside)
    ≡ some etc_passwd
unfolding machine vfs perform_all started Paths.open_path Descriptors.dup2 Open.open_path
    Open.clone_fd open_node open_resolved_node open_found open_backing from_cstr parse ancestors
    strip_prefix resolve_openat_path with_af memory_backend
resolved_outside = refl

perform_all-translated_example :
    let s = (perform_all originals vfs inode 42 dir_calls (started with_af)).vfs in
    let p = (absolute_path_to_fs vfs etc_passwd).1 in
    (c : Bytes) × (translated host below_a p s.world ≡ returned c s.world)
    × (from_cstr c ≡ path_a ++ untrail (trail p))
perform_all-translated_example =
    perform_all-translated originals vfs inode 42 dir_calls with_af (pos 3) outside etc_passwd host
      below_a (tt, path_a-IsWellNamed) resolved_outside

translated-dispatched_example :
    let p = (path_to_fs vfs start (from_cstr outside)).1 in
    (c : Bytes) × (translated host below_a p with_af ≡ returned c with_af)
    × (from_cstr c ≡ path_a ++ untrail (trail p))
unfolding start
translated-dispatched_example =
    translated-dispatched host below_a with_af vfs start outside tt path_a-IsWellNamed (tt, tt)

from_cstr-IsWellNamed_example : IsWellNamed (from_cstr outside)
from_cstr-IsWellNamed_example = from_cstr-IsWellNamed outside

from_cstr-print_example : from_cstr (print path_a ++ 0 ∷ 65 ∷ []) ≡ path_a
from_cstr-print_example = from_cstr-print path_a tt path_a-IsWellNamed (65 ∷ [])

-- The lower and the upper layer, and no mount.
abbrev env : Env ℕ
env = record {
  var_os = λ name.
      if bytes_eq name lower_env
      then some (codes "/")
      else if bytes_eq name upper_env
      then some (codes "/tmp/upper")
      else none;
  is_unicode = λ value. true;
  current_dir = none;
  is_dir = λ path k. true;
}

vfs-Configured_example : Configured env counting host with_af (Config.vfs env counting host with_af)
vfs-Configured_example = vfs-Configured env counting host with_af (λ cwd e. absurd (cc e))

abbrev listing : List DirEntry
listing =
    record { name = codes "."; kind = dir; ino = none }
    ∷ record { name = codes "f"; kind = file; ino = some 3 }
    ∷ []

-- Originals that count the calls which make something.
abbrev counted : ℤ → Action (Heap ℕ) ℤ
counted status h = returned status (record h { kernel = h.kernel + 1 })

abbrev making : Originals (Heap ℕ)
making = record originals {
  mkdir = λ path mode. counted (pos 0);
  open_path = λ path flags mode. counted (pos 3);
  close = λ fd. counted (pos 0);
}

materialize_dir-IsCopy_example :
    IsCopy making
      (materialized_path 42 0)
      (children listing)
      with_af
      (materialize_dir (own_symbols making vfs inode 42) making 42 listing (started with_af))
unfolding started
materialize_dir-IsCopy_example =
    materialize_dir-IsCopy (own_symbols making vfs inode 42) making 42 listing (started with_af)

after_copy : Heap ℕ
after_copy = record with_af { kernel = with_af.kernel + 1 + 1 + 1 }

materialize_at-copies_example :
    materialize_at (own_symbols making vfs inode 42) making path_a listing (started with_af)
    ≡ returned
        (some (record { path = path_a; entries = children listing }))
        (with_world (started with_af) after_copy)
unfolding has_nul print parse join bytes_eq started after_copy
materialize_at-copies_example =
    materialize_at-copies (own_symbols making vfs inode 42) making path_a listing (started with_af)
      after_copy (refl, (_, refl, (refl, (_, (pos 3, _, refl, refl, refl), refl))))

at_plain_example :
    (At.openat vfs at_fdcwd path_af 0o101 0o644 start
      ≡ Open.open_path vfs path_af 0o101 0o644 start)
    × (At.mkdirat vfs at_fdcwd path_af 0o644 start ≡ Backend.mkdir vfs path_af 0o644 start)
    × (At.unlinkat vfs at_fdcwd path_af 0o101 start ≡ (
        if has_flag 0o101 at_removedir
        then Backend.rmdir vfs path_af start
        else Backend.unlink vfs path_af start))
at_plain_example = at_plain vfs start at_fdcwd path_af refl 0o101 0o644

orig-IsKept_example :
    IsKept (λ symbol. 64) (λ symbol. 0) (codes "open") (orig (λ symbol. 64) (codes "open") none)
orig-IsKept_example = orig-IsKept (λ symbol. 64) (λ symbol. 0) (codes "open")
