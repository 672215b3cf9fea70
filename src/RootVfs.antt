-- ===== src/RootVfs.antt =====
-- src/root_vfs.rs: `RootVFS`, the dispatcher over the mounted file systems, with the current
-- directory and the table of open descriptors. `S` holds what the locks of the source protect and
-- the state `W` of the backends. A `HashMap` is a function from its keys, or, for the mounts, a
-- list of its entries. A backend is named by its key, which stands for its address.
pub mod Open
pub mod At
pub mod Listing
pub mod Backend
pub mod Normalize
pub mod Mounts
pub mod Dispatch
pub mod Names
use sandbox_vfs.Base.{
  ℕ, zero, suc, Bool, true, false, ◌&&◌, ◌||◌, not, Option, none, some, List, [], ◌∷◌, ◌++◌, ℤ, pos,
  negsuc, minus_one, Bytes, int_eq, is_negative, if◌then◌else◌, Action, Outcome, returned, panicked,
  pure, assert, ◌>>=◌, ◌>>◌,
}
use sandbox_vfs.FilePath.{
  FilePath, Component, root_dir, cur_dir, parent_dir, normal, root_path, path_eq, is_absolute, join,
  parent, strip_prefix, ancestors,
}
use sandbox_vfs.Filesystem.{OpenResult, OpenedFile, LowLevelFs}
use sandbox_vfs.Libc.{at_fdcwd}

pub record FdInfo (H : Type 0) : Type 0 where
  pub path : FilePath
  pub dir_offset : ℕ
  pub opened : Option H

-- The parts that do not change once the file system is set up.
pub record RootVfs (W H : Type 0) : Type 0 where
  pub root : LowLevelFs W H
  pub mounts : List (FilePath × LowLevelFs W H)
  pub handles : OpenedFile W H

pub record VfsState (W H : Type 0) : Type 0 where
  pub cwd : FilePath
  pub fds : ℤ → Option (FdInfo H)
  pub world : W

-- The loop of `normalize_absolute`, with the components pushed so far.
unfoldable pub pop : FilePath → FilePath
pop p = elim (parent p) [ none ↦ p | some q ↦ q ]

unfoldable pub normalize_from : FilePath → FilePath → FilePath
unfolding pop
normalize_from normalized [] = normalized
normalize_from normalized (root_dir ∷ p) = normalize_from normalized p
normalize_from normalized (cur_dir ∷ p) = normalize_from normalized p
normalize_from normalized (parent_dir ∷ p) = normalize_from (pop normalized) p
normalize_from normalized (normal part ∷ p) = normalize_from (join normalized (normal part ∷ [])) p

unfoldable pub normalize_absolute : FilePath → FilePath
unfolding normalize_from
normalize_absolute path = normalize_from root_path path

-- self.mounts.get(p)
unfoldable pub find_mount {ℓ} : {A : Type ℓ} → FilePath → List (FilePath × A) → Option A
find_mount p [] = none
find_mount p ((q, fs) ∷ mounts) = if path_eq q p then some fs else find_mount p mounts

-- HashMap::insert
unfoldable pub insert_mount {ℓ} :
    {A : Type ℓ} → FilePath → A → List (FilePath × A) → List (FilePath × A)
insert_mount p fs [] = (p, fs) ∷ []
insert_mount p fs ((q, old) ∷ mounts) =
    if path_eq q p then (p, fs) ∷ mounts else (q, old) ∷ insert_mount p fs mounts

abbrev or_self : Option FilePath → FilePath → FilePath
or_self none p = p
or_self (some q) p = q

-- The loop over the ancestors: the key of the mount, none for the root, and the path below it.
unfoldable pub select_mount {ℓ} :
    {A : Type ℓ} → List (FilePath × A) → FilePath → List FilePath → Option FilePath × FilePath
unfolding find_mount
select_mount mounts in_path [] = (none, in_path)
select_mount mounts in_path (p ∷ ps) =
    let rest = select_mount mounts in_path ps in
    if path_eq p root_path then rest else (elim (find_mount p mounts) [
      | none ↦ rest
      | some fs ↦ (some p, join root_path (or_self (strip_prefix in_path p) in_path))
    ])

-- A write to the descriptor table.
abbrev pub update_fd {ℓ} : {A : Type ℓ} → (ℤ → A) → ℤ → A → ℤ → A
update_fd f fd v j = if int_eq fd j then v else f j

abbrev pub set_fd : {W H : Type 0} → ℤ → Option (FdInfo H) → VfsState W H → VfsState W H
set_fd fd info s = record s { fds = update_fd s.fds fd info }

abbrev pub Vfs : Type 0 → Type 0 → Type 0 → Type 0
Vfs W H A = Action (VfsState W H) A

module _ {W H : Type 0} where
  -- A call of a backend changes the world only.
  abbrev pub lift_outcome : {A : Type 0} → VfsState W H → Outcome W A → Outcome (VfsState W H) A
  lift_outcome s (returned a w) = returned a (record s { world = w })
  lift_outcome s (panicked w) = panicked (record s { world = w })

  abbrev pub lift : {A : Type 0} → Action W A → Vfs W H A
  lift m s = lift_outcome s (m s.world)

  unfoldable pub new : LowLevelFs W H → OpenedFile W H → RootVfs W H
  new root handles = record { root = root; mounts = []; handles = handles }

  unfoldable pub with_mount : RootVfs W H → FilePath → LowLevelFs W H → RootVfs W H
  unfolding insert_mount
  with_mount vfs mount_p fs = record vfs { mounts = insert_mount mount_p fs vfs.mounts }

  unfoldable pub initial : W → VfsState W H
  initial w = record { cwd = root_path; fds = λ fd. none; world = w }

  unfoldable pub set_cwd : FilePath → Vfs W H (Unit {0})
  unfolding normalize_absolute
  set_cwd path = do
    assert (is_absolute path)
    λ s. returned tt (record s { cwd = normalize_absolute path })

  unfoldable pub resolve_path : VfsState W H → FilePath → FilePath
  unfolding normalize_absolute
  resolve_path s path =
      if is_absolute path then normalize_absolute path else normalize_absolute (join s.cwd path)

  unfoldable pub resolve_openat_path : VfsState W H → ℤ → FilePath → Option FilePath
  unfolding normalize_absolute resolve_path
  resolve_openat_path s dirfd path =
      if is_absolute path
      then some (normalize_absolute path)
      else if int_eq dirfd at_fdcwd
      then some (resolve_path s path)
      else (elim (s.fds dirfd) [
        | none ↦ none
        | some base ↦ some (normalize_absolute (join base.path path))
      ])

  unfoldable pub absolute_path_to_fs : RootVfs W H → FilePath → Option FilePath × FilePath
  unfolding select_mount
  absolute_path_to_fs vfs in_path = select_mount vfs.mounts in_path (ancestors in_path)

  unfoldable pub path_to_fs : RootVfs W H → VfsState W H → FilePath → Option FilePath × FilePath
  unfolding absolute_path_to_fs resolve_path
  path_to_fs vfs s in_path = absolute_path_to_fs vfs (resolve_path s in_path)

  -- The backend that a key stands for.
  unfoldable pub backend_at : RootVfs W H → Option FilePath → LowLevelFs W H
  unfolding find_mount
  backend_at vfs none = vfs.root
  backend_at vfs (some p) = elim (find_mount p vfs.mounts) [ none ↦ vfs.root | some fs ↦ fs ]
