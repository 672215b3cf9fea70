-- ===== src/RootVfs/Listing/World.antt =====
-- What `getdents64` of src/root_vfs.rs reads to list a directory: the backends and their handles, and
-- nothing of the table of descriptors.
use sandbox_vfs.Base.{
  ◌≡◌, refl, sym, ap, ◌∙◌, Option, none, some, List, Action, Outcome, returned, panicked, pure,
  ◌>>=◌,
}
use sandbox_vfs.Filesystem.{DirEntry}
use sandbox_vfs.RootVfs.{
  RootVfs, VfsState, FdInfo, Vfs, lift, lift_outcome, absolute_path_to_fs, backend_at,
}
use sandbox_vfs.RootVfs.Listing.{opened_read_dir, list_fd}

module _ {W H : Type 0} where
  module _ {A : Type 0} where
    relift :
        (s : VfsState W H) (w : W) (o : Outcome W A)
        → lift_outcome (record s { world = w }) o ≡ lift_outcome s o
    relift s w (returned a w') = refl
    relift s w (panicked w') = refl

    -- What a call on a backend leaves of the process is all but the world.
    lift_inversion :
        (s s' : VfsState W H) (a : A) (o : Outcome W A)
        → lift_outcome s o ≡ returned a s'
        → (w : W) × (o ≡ returned a w) × (s' ≡ record s { world = w })
    lift_inversion s s' a (returned b w) e = (w, cc, cc)
    lift_inversion s s' a (panicked w) e = cc

  bind_lift :
      {A B : Type 0} (m : Action W A) (f : A → Vfs W H B) (g : A → Action W B)
      → ((a : A) (s : VfsState W H) → f a s ≡ lift (g a) s)
      → (s : VfsState W H) → (lift m >>= f) s ≡ lift (m >>= g) s
  bind_lift m f g same s = go (m s.world)
    where
      go :
          (o : Outcome W _)
          → (elim (lift_outcome s o) [ returned a t ↦ f a t | panicked t ↦ panicked t ])
            ≡ lift_outcome s (elim o [ returned a w ↦ g a w | panicked w ↦ panicked w ])
      go (returned a w) = same a (record s { world = w }) ∙ relift s w (g a w)
      go (panicked w) = refl

  module _ (vfs : RootVfs W H) (info : FdInfo H) where
    abbrev backend_list : Action W (Option (List DirEntry))
    backend_list =
        let (key, backend_path) = absolute_path_to_fs vfs info.path in
        (backend_at vfs key).read_dir backend_path

    abbrev handle_list : Option H → Action W (Option (List DirEntry))
    handle_list none = pure none
    handle_list (some opened) = vfs.handles.read_dir opened

    abbrev or_backend : Option (List DirEntry) → Action W (Option (List DirEntry))
    or_backend (some entries) = pure (some entries)
    or_backend none = backend_list

    -- The handle is asked first, then the backend.
    abbrev list_in : Action W (Option (List DirEntry))
    list_in = handle_list info.opened >>= or_backend

    opened_read_dir-lift :
        (opened : Option H) (s : VfsState W H)
        → opened_read_dir vfs opened s ≡ lift (handle_list opened) s
    unfolding opened_read_dir
    opened_read_dir-lift none s = refl
    opened_read_dir-lift (some opened) s = refl

    list_fd-lift : (s : VfsState W H) → list_fd vfs info s ≡ lift list_in s
    unfolding list_fd
    list_fd-lift s =
        ap (λ o. elim o [ returned a t ↦ listed a t | panicked t ↦ panicked t ])
          (opened_read_dir-lift info.opened s)
        ∙ bind_lift (handle_list info.opened) listed or_backend same s
      where
        listed : Option (List DirEntry) → Vfs W H (Option (List DirEntry))
        listed (some entries) = pure (some entries)
        listed none = lift backend_list

        same : (a : Option (List DirEntry)) (t : VfsState W H) → listed a t ≡ lift (or_backend a) t
        same (some entries) t = refl
        same none t = refl

    -- A listing leaves the table of descriptors as it is.
    pub fds-list_fd :
        (s s' : VfsState W H) (listing : Option (List DirEntry))
        → list_fd vfs info s ≡ returned listing s'
        → s'.fds ≡ s.fds
    fds-list_fd s s' listing e =
        let (w, _, is) = lift_inversion s s' listing (list_in s.world) (sym (list_fd-lift s) ∙ e) in
        ap (λ t. t.fds) is

    -- A listing that changes nothing is given as often as it is asked for, whatever the table has.
    pub list_fd-again :
        (s t : VfsState W H) (listing : Option (List DirEntry))
        → list_fd vfs info s ≡ returned listing s
        → t.world ≡ s.world
        → list_fd vfs info t ≡ returned listing t
    list_fd-again s t listing e same =
        let (w, o, is) = lift_inversion s s listing (list_in s.world) (sym (list_fd-lift s) ∙ e) in
        let here : w ≡ t.world = sym (ap (λ u. u.world) is) ∙ sym same in
        list_fd-lift t
        ∙ ap (λ v. lift_outcome t (list_in v)) same
        ∙ ap (lift_outcome t) o
        ∙ ap (λ v. returned listing (record t { world = v })) here
