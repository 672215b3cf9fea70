-- ===== src/LibcHooks/Calls/Tracked.antt =====
-- The hooks of src/libc_hooks.rs that take a descriptor, one by one.
use sandbox_vfs.Base.{
  ℕ, Bool, Option, none, some, ℤ, pos, is_negative, int_eq, Option-cases, inl, inr, Action, after,
  pure, ◌>>=◌, ◌>>◌,
}
use sandbox_vfs.FilePath.{FilePath}
use sandbox_vfs.Filesystem.{Stat}
use sandbox_vfs.RootVfs.{RootVfs, Vfs, lift}
use sandbox_vfs.RootVfs.Open
use sandbox_vfs.RootVfs.Listing
use sandbox_vfs.LibcHooks.{Originals, FcntlArg, no_arg, int_arg, ptr_arg}
use sandbox_vfs.LibcHooks.Descriptors
use sandbox_vfs.LibcHooks.Descriptors.{
  VaArg, one_of, duplicating, without_arg, with_pointer, untrack_closed, follow_dup, or_original,
}
use sandbox_vfs.LibcHooks.Calls.Keeps.{
  Keeps, lift-Keeps, if-Keeps, bind-Keeps, hooked-Keeps, forget_fd-Keeps, clone_fd-Keeps,
}
use sandbox_vfs.LibcHooks.Calls.Listings

module _ {W H : Type 0} where
  untrack_closed-Keeps : (fd result : ℤ) → Keeps {W = W} {H = H} (untrack_closed fd result)
  unfolding untrack_closed
  untrack_closed-Keeps fd result =
      if-Keeps (int_eq result (pos 0)) (do Open.forget_fd fd; pure result) (pure result)
        (bind-Keeps (Open.forget_fd fd) (λ _. pure result) (forget_fd-Keeps fd) (λ _ s i. i))
        (λ s i. i)

  follow_dup-Keeps : (fd result : ℤ) → Keeps {W = W} {H = H} (follow_dup fd result)
  unfolding follow_dup
  follow_dup-Keeps fd result =
      if-Keeps (is_negative result) (pure result) (do Open.clone_fd fd result; pure result)
        (λ s i. i)
        (bind-Keeps (Open.clone_fd fd result) (λ _. pure result) (clone_fd-Keeps fd result)
          (λ _ s i. i))

  or_original-Keeps :
      {A : Type 0} (original : Vfs W H A) (served : Option A)
      → Keeps original
      → Keeps (or_original original served)
  unfolding or_original
  or_original-Keeps original none keeps = keeps
  or_original-Keeps original (some result) keeps = λ s i. i

  -- A call of the original and what follows it.
  called-Keeps :
      {A B : Type 0} (call : Action W A) (f : A → Vfs W H B)
      → ((a : A) → Keeps (f a))
      → Keeps (lift call >>= f)
  called-Keeps call f = bind-Keeps (lift call) f (lift-Keeps call)

  served_fstat-Keeps : (vfs : RootVfs W H) (fd : ℤ) (buf : Stat) → Keeps (Open.fstat vfs fd buf)
  unfolding Open.fstat
  served_fstat-Keeps vfs fd buf s i = elim (Option-cases (s.fds fd)) [
    | inl e ↦ rw (after, e) i
    | inr (info, e) ↦ elim (Option-cases info.opened) [
      | inl f ↦ rw (after, e, f) i
      | inr (opened, f) ↦
          rw (after, e, f)
            (called-Keeps (vfs.handles.stat opened buf) (λ result. pure (some result))
              (λ result s' i'. i') s i)
    ]
  ]

  module _ (orig : Originals W) where
    pub close-Keeps : (fd : ℤ) → Keeps (Descriptors.close {H = H} orig fd)
    unfolding Descriptors.close
    close-Keeps fd =
        hooked-Keeps (lift (orig.close fd) >>= untrack_closed fd) (orig.close fd)
          (called-Keeps (orig.close fd) (untrack_closed fd) (untrack_closed-Keeps fd))

    pub dup-Keeps : (fd : ℤ) → Keeps (Descriptors.dup {H = H} orig fd)
    unfolding Descriptors.dup
    dup-Keeps fd =
        hooked-Keeps (lift (orig.dup fd) >>= follow_dup fd) (orig.dup fd)
          (called-Keeps (orig.dup fd) (follow_dup fd) (follow_dup-Keeps fd))

    pub dup2-Keeps : (oldfd newfd : ℤ) → Keeps (Descriptors.dup2 {H = H} orig oldfd newfd)
    unfolding Descriptors.dup2
    dup2-Keeps oldfd newfd =
        hooked-Keeps (lift (orig.dup2 oldfd newfd) >>= follow_dup oldfd) (orig.dup2 oldfd newfd)
          (called-Keeps (orig.dup2 oldfd newfd) (follow_dup oldfd) (follow_dup-Keeps oldfd))

    pub dup3-Keeps :
        (oldfd newfd : ℤ) (flags : ℕ) → Keeps (Descriptors.dup3 {H = H} orig oldfd newfd flags)
    unfolding Descriptors.dup3
    dup3-Keeps oldfd newfd flags =
        let call = orig.dup3 oldfd newfd flags in
        hooked-Keeps (lift call >>= follow_dup oldfd) call
          (called-Keeps call (follow_dup oldfd) (follow_dup-Keeps oldfd))

    pub fcntl-Keeps : (fd cmd : ℤ) (va : VaArg) → Keeps (Descriptors.fcntl {H = H} orig fd cmd va)
    unfolding Descriptors.fcntl
    fcntl-Keeps fd cmd va =
        let plain : FcntlArg → Vfs W H ℤ = λ arg. lift (orig.fcntl fd cmd arg) in
        let keeps : (arg : FcntlArg) → Keeps (plain arg) =
          λ arg. lift-Keeps (orig.fcntl fd cmd arg) in
        let arg_int = int_arg va.as_int in
        let by_pointer =
          if-Keeps (one_of with_pointer cmd) (plain (ptr_arg va.as_ptr)) (plain arg_int)
            (keeps (ptr_arg va.as_ptr)) (keeps arg_int) in
        let followed : Vfs W H ℤ = plain arg_int >>= follow_dup fd in
        if-Keeps (one_of duplicating cmd) followed _
          (called-Keeps (orig.fcntl fd cmd arg_int) (follow_dup fd) (follow_dup-Keeps fd))
          (if-Keeps (one_of without_arg cmd) (plain no_arg) _ (keeps no_arg) by_pointer)

    pub fstat-Keeps :
        (vfs : RootVfs W H) (fd : ℤ) (buf : Stat) → Keeps (Descriptors.fstat orig vfs fd buf)
    unfolding Descriptors.fstat
    fstat-Keeps vfs fd buf =
        let call = orig.fstat fd buf in
        hooked-Keeps (Open.fstat vfs fd buf >>= or_original (lift call)) call (
          bind-Keeps (Open.fstat vfs fd buf) (or_original (lift call))
            (served_fstat-Keeps vfs fd buf)
            (λ served. or_original-Keeps (lift call) served (lift-Keeps call)))

    pub getdents64-Keeps :
        (inode_for_path : FilePath → ℕ) (vfs : RootVfs W H) (fd : ℤ) (dirp_is_null : Bool)
        (count : ℤ)
        → Keeps (Descriptors.getdents64 orig inode_for_path vfs fd dirp_is_null count)
    unfolding Descriptors.getdents64
    getdents64-Keeps inode_for_path vfs fd dirp_is_null count =
        let call = orig.getdents64 fd dirp_is_null count in
        let served = Listing.getdents64 inode_for_path vfs fd dirp_is_null count in
        hooked-Keeps (served >>= or_original (lift call)) call (
          bind-Keeps served (or_original (lift call))
            (Listings.getdents64-Keeps vfs inode_for_path fd dirp_is_null count)
            (λ r. or_original-Keeps (lift call) r (lift-Keeps call)))
