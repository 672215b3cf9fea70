-- ===== src/RootVfs/Open/Tracked.antt =====
-- What `open` of src/root_vfs.rs does to the table of descriptors.
use sandbox_vfs.Base.{
  ℕ, ◌≡◌, refl, true, false, Option, some, arith, ℤ, is_negative, int_eq, int_eq_iff, Bool-cases,
  inl, inr, Outcome, returned, panicked,
}
use sandbox_vfs.FilePath.{FilePath}
use sandbox_vfs.Filesystem.{OpenResult}
use sandbox_vfs.RootVfs.{
  RootVfs, VfsState, lift_outcome, resolve_path, absolute_path_to_fs, backend_at,
}
use sandbox_vfs.RootVfs.Open.{track_open, open_path}

module _ {W H : Type 0} (s : VfsState W H) (path : FilePath) where
  -- A descriptor is entered under the resolved path, at the start of the directory, and nothing else
  -- in the table changes; a failed call changes nothing of it.
  abbrev pub Tracked : Outcome (VfsState W H) ℤ → Type 0
  Tracked (panicked s') = (s'.cwd ≡ s.cwd) × (s'.fds ≡ s.fds)
  Tracked (returned fd s') =
      (s'.cwd ≡ s.cwd)
      × (is_negative fd ≡ true → s'.fds ≡ s.fds)
      × (is_negative fd ≡ false
          → (opened : Option H) × (s'.fds fd
              ≡ some (record { path = resolve_path s path; dir_offset = 0; opened = opened })))
      × ((j : ℤ) → int_eq fd j ≡ false → s'.fds j ≡ s.fds j)

  track_open-Tracked :
      (result : OpenResult H) (w : W)
      → Tracked (track_open result (resolve_path s path) (record s { world = w }))
  unfolding track_open
  track_open-Tracked result w = elim (Bool-cases (is_negative result.fd)) [
    | inl bad ↦ rw bad (refl, λ _. refl, λ e. absurd (ground (arith, e, bad)), λ j e. refl)
    | inr good ↦ rw good (
      refl,
      λ e. absurd (ground (arith, e, good)),
      λ _. (result.opened, rw ((int_eq_iff result.fd result.fd).1 refl) refl),
      λ j e. rw e refl,
    )
  ]

  -- The rest of the call, after the outcome of the backend.
  after_backend-Tracked :
      (o : Outcome W (OpenResult H))
      → Tracked (elim (lift_outcome s o) [
        | returned result s' ↦ track_open result (resolve_path s path) s'
        | panicked s' ↦ panicked s'
      ])
  after_backend-Tracked (returned result w) = track_open-Tracked result w
  after_backend-Tracked (panicked w) = (refl, refl)

  -- Opening a path keeps the current directory. A descriptor that it returns is entered under the
  -- resolved path, at the start of its listing; the entries of all other descriptors, and all entries
  -- after a failure or a panic, are as before.
  pub open_path-Tracked :
      (vfs : RootVfs W H) (oflag mode : ℕ) → Tracked (open_path vfs path oflag mode s)
  unfolding open_path
  open_path-Tracked vfs oflag mode =
      let (key, backend_path) = absolute_path_to_fs vfs (resolve_path s path) in
      after_backend-Tracked ((backend_at vfs key).open_with_handle backend_path oflag mode s.world)
