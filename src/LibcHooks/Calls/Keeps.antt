-- ===== src/LibcHooks/Calls/Keeps.antt =====
-- What the parts of src/root_vfs.rs and src/libc_hooks.rs keep of the current directory and of the
-- paths in the table of descriptors.
use sandbox_vfs.Base.{
  ◌≡◌, sym, subst, Bool, true, false, Option, none, some, ℤ, Bytes, int_eq, is_negative, Bool-cases,
  inl, inr, if◌then◌else◌, Action, Outcome, returned, panicked, after, ◌>>=◌, Preserves,
  Preserves-bind, Preserves-if,
}
use sandbox_vfs.CStr.{from_cstr}
use sandbox_vfs.CStr.Laws.{IsWellNamed, from_cstr-IsWellNamed}
use sandbox_vfs.FilePath.{FilePath, root_path, join}
use sandbox_vfs.FilePath.Normal.{IsNormal}
use sandbox_vfs.FilePath.Text.Split.{IsName, Without}
use sandbox_vfs.Filesystem.{OpenResult}
use sandbox_vfs.RootVfs.{
  FdInfo, VfsState, Vfs, lift, lift_outcome, update_fd, normalize_absolute, resolve_path,
}
use sandbox_vfs.RootVfs.Names.{normalize_absolute-AllNamed, join-AllNamed, resolve_path-AllNamed}
use sandbox_vfs.RootVfs.Normalize.{normalize_absolute-IsNormal}
use sandbox_vfs.RootVfs.Dispatch.{resolve_path-IsNormal}
use sandbox_vfs.RootVfs.Open.{track_open, forget_fd, clone_fd}
use sandbox_vfs.LibcHooks.{catch_unwind}

-- A normal path with proper names.
abbrev pub IsCanonical : FilePath → Type 0
IsCanonical p = IsNormal p × IsWellNamed p

root_path-IsCanonical : IsCanonical root_path
root_path-IsCanonical = (tt, (tt, tt))

pub normalize_absolute-IsCanonical :
    (p : FilePath) → IsWellNamed p → IsCanonical (normalize_absolute p)
normalize_absolute-IsCanonical p (names, free) = (
  normalize_absolute-IsNormal p,
  (normalize_absolute-AllNamed IsName p names, normalize_absolute-AllNamed (Without 0) p free),
)

pub join-IsWellNamed : (p q : FilePath) → IsWellNamed p → IsWellNamed q → IsWellNamed (join p q)
join-IsWellNamed p q (a, b) (c, d) =
    (join-AllNamed IsName p q a c, join-AllNamed (Without 0) p q b d)

module _ {S A : Type 0} (I : S → Type 0) where
  caught :
      (orig : Action S A) (o : Outcome S A)
      → Preserves I orig
      → I (after o)
      → I (after (elim o [ returned a s' ↦ returned a s' | panicked s' ↦ orig s' ]))
  caught orig (returned a s') keeps i = i
  caught orig (panicked s') keeps i = keeps s' i

  pub catch_unwind-Preserves :
      (hook orig : Action S A)
      → Preserves I hook
      → Preserves I orig
      → Preserves I (catch_unwind hook orig)
  unfolding catch_unwind
  catch_unwind-Preserves hook orig keeps keeps' s i = caught orig (hook s) keeps' (keeps s i)

module _ {H : Type 0} where
  abbrev pub IsCanonicalEntry : Option (FdInfo H) → Type 0
  IsCanonicalEntry none = Unit {0}
  IsCanonicalEntry (some info) = IsCanonical info.path

  -- The paths in a table of descriptors.
  abbrev pub IsSoundTable : (ℤ → Option (FdInfo H)) → Type 0
  IsSoundTable fds = (fd : ℤ) → IsCanonicalEntry (fds fd)

  pub set_fd-IsSoundTable :
      (fds : ℤ → Option (FdInfo H)) (fd : ℤ) (entry : Option (FdInfo H))
      → IsSoundTable fds
      → IsCanonicalEntry entry
      → IsSoundTable (update_fd fds fd entry)
  set_fd-IsSoundTable fds fd entry sound new j = elim (Bool-cases (int_eq fd j)) [
    | inl e ↦ rw e new
    | inr e ↦ rw e (sound j)
  ]

module _ {W H : Type 0} where
  -- The process is at the root, and every tracked path is normal with proper names.
  abbrev pub IsSound : VfsState W H → Type 0
  IsSound s = (s.cwd ≡ root_path) × IsSoundTable s.fds

  abbrev pub Keeps : {A : Type 0} → Vfs W H A → Type 0
  Keeps m = Preserves IsSound m

  pub resolve_path-IsCanonical :
      (s : VfsState W H) (value : Bytes)
      → IsSound s
      → IsCanonical (resolve_path s (from_cstr value))
  resolve_path-IsCanonical s value (cwd, fds) =
      let (names, free) = from_cstr-IsWellNamed value in
      let (root_names, root_free) = subst IsWellNamed (sym cwd) root_path-IsCanonical.1 in
      (
        resolve_path-IsNormal s (from_cstr value),
        (
          resolve_path-AllNamed IsName s (from_cstr value) root_names names,
          resolve_path-AllNamed (Without 0) s (from_cstr value) root_free free,
        ),
      )

module _ {W H A : Type 0} where
  lift_outcome-IsSound :
      (s : VfsState W H) → IsSound s → (o : Outcome W A) → IsSound (after (lift_outcome s o))
  lift_outcome-IsSound s sound (returned a w) = sound
  lift_outcome-IsSound s sound (panicked w) = sound

  pub lift-Keeps : (m : Action W A) → Keeps {W = W} {H = H} (lift m)
  lift-Keeps m s sound = lift_outcome-IsSound s sound (m s.world)

  -- A hook, and after a panic the original, which knows nothing of the table.
  pub hooked-Keeps :
      (hook : Vfs W H A) (original : Action W A)
      → Keeps hook
      → Keeps (catch_unwind hook (lift original))
  hooked-Keeps hook original keeps =
      catch_unwind-Preserves IsSound hook (lift original) keeps (lift-Keeps original)

  pub if_IsSound :
      (b : Bool) (o o' : Outcome (VfsState W H) A)
      → IsSound (after o)
      → IsSound (after o')
      → IsSound (after (if b then o else o'))
  if_IsSound true o o' sound sound' = sound
  if_IsSound false o o' sound sound' = sound'

  pub if-Keeps : (b : Bool) (m k : Vfs W H A) → Keeps m → Keeps k → Keeps (if b then m else k)
  if-Keeps = Preserves-if IsSound

module _ {W H A B : Type 0} where
  pub bind-Keeps :
      (m : Vfs W H A) (f : A → Vfs W H B) → Keeps m → ((a : A) → Keeps (f a)) → Keeps (m >>= f)
  bind-Keeps = Preserves-bind IsSound

module _ {W H : Type 0} where
  pub track_open-Keeps :
      (result : OpenResult H) (p : FilePath)
      → IsCanonical p
      → Keeps {W = W} {H = H} (track_open result p)
  unfolding track_open
  track_open-Keeps result p good s (cwd, fds) = elim (Bool-cases (is_negative result.fd)) [
    | inl e ↦ rw e (cwd, fds)
    | inr e ↦ rw e (cwd, set_fd-IsSoundTable s.fds result.fd _ fds good)
  ]

  pub forget_fd-Keeps : (fd : ℤ) → Keeps {W = W} {H = H} (forget_fd fd)
  unfolding forget_fd
  forget_fd-Keeps fd s (cwd, fds) = (cwd, set_fd-IsSoundTable s.fds fd none fds tt)

  pub clone_fd-Keeps : (oldfd newfd : ℤ) → Keeps {W = W} {H = H} (clone_fd oldfd newfd)
  unfolding clone_fd
  clone_fd-Keeps oldfd newfd s (cwd, fds) =
      (cwd, set_fd-IsSoundTable s.fds newfd (s.fds oldfd) fds (fds oldfd))
