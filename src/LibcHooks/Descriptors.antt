-- ===== src/LibcHooks/Descriptors.antt =====
-- src/libc_hooks.rs: the hooks that take a descriptor. The table follows what the original did.
use sandbox_vfs.Base.{
  ℕ, Bool, false, ◌||◌, Option, none, some, List, [], ◌∷◌, ℤ, pos, Bytes, is_negative, int_eq,
  if◌then◌else◌, pure, ◌>>=◌, ◌>>◌,
}
use sandbox_vfs.FilePath.{FilePath}
use sandbox_vfs.Filesystem.{Stat}
use sandbox_vfs.Libc.{
  f_dupfd, f_dupfd_cloexec, f_getfd, f_getfl, f_getown, f_getlease, f_getpipe_sz, f_get_seals,
  f_getlk, f_setlk, f_setlkw, f_ofd_getlk, f_ofd_setlk, f_ofd_setlkw,
}
use sandbox_vfs.LibcHooks.{Originals, no_arg, int_arg, ptr_arg, catch_unwind}
use sandbox_vfs.RootVfs.{RootVfs, Vfs, lift}
use sandbox_vfs.RootVfs.Open
use sandbox_vfs.RootVfs.Listing

-- The two readings of the first variadic argument.
pub record VaArg : Type 0 where
  pub as_int : ℤ
  pub as_ptr : ℕ

unfoldable pub one_of : List ℕ → ℤ → Bool
one_of [] cmd = false
one_of (c ∷ cs) cmd = int_eq (pos c) cmd || one_of cs cmd

abbrev pub f_getsig_cmd : ℕ
f_getsig_cmd = 11

abbrev pub f_setown_ex_cmd : ℕ
f_setown_ex_cmd = 15

abbrev pub f_getown_ex_cmd : ℕ
f_getown_ex_cmd = 16

abbrev pub f_getowner_uids_cmd : ℕ
f_getowner_uids_cmd = 17

abbrev pub f_get_rw_hint_cmd : ℕ
f_get_rw_hint_cmd = 1035

abbrev pub f_set_rw_hint_cmd : ℕ
f_set_rw_hint_cmd = 1036

abbrev pub f_get_file_rw_hint_cmd : ℕ
f_get_file_rw_hint_cmd = 1037

abbrev pub f_set_file_rw_hint_cmd : ℕ
f_set_file_rw_hint_cmd = 1038

abbrev pub duplicating : List ℕ
duplicating = f_dupfd ∷ f_dupfd_cloexec ∷ []

abbrev pub without_arg : List ℕ
without_arg =
    f_getfd ∷ f_getfl ∷ f_getown ∷ f_getsig_cmd ∷ f_getlease ∷ f_getpipe_sz ∷ f_get_seals ∷ []

abbrev pub with_pointer : List ℕ
with_pointer =
    f_getlk ∷ f_setlk ∷ f_setlkw ∷ f_ofd_getlk ∷ f_ofd_setlk ∷ f_ofd_setlkw ∷ f_getown_ex_cmd
    ∷ f_setown_ex_cmd ∷ f_getowner_uids_cmd ∷ f_get_rw_hint_cmd ∷ f_set_rw_hint_cmd
    ∷ f_get_file_rw_hint_cmd ∷ f_set_file_rw_hint_cmd ∷ []

module _ {W H : Type 0} where
  unfoldable pub untrack_closed : ℤ → ℤ → Vfs W H ℤ
  untrack_closed fd result =
      if int_eq result (pos 0) then (do Open.forget_fd fd; pure result) else pure result

  -- A duplicate gets the entry of `fd`, or none if `fd` has none.
  unfoldable pub follow_dup : ℤ → ℤ → Vfs W H ℤ
  follow_dup fd result =
      if is_negative result then pure result else (do Open.clone_fd fd result; pure result)

  -- match result { Some(result) => result, None => Self::call_orig(..) }
  unfoldable pub or_original : {A : Type 0} → Vfs W H A → Option A → Vfs W H A
  or_original original none = original
  or_original original (some result) = pure result

module _ {W H : Type 0} (orig : Originals W) where
  unfoldable pub close : ℤ → Vfs W H ℤ
  unfolding catch_unwind untrack_closed
  close fd =
      catch_unwind (do result ← lift (orig.close fd); untrack_closed fd result)
        (lift (orig.close fd))

  unfoldable pub dup : ℤ → Vfs W H ℤ
  unfolding catch_unwind follow_dup
  dup fd = catch_unwind (do result ← lift (orig.dup fd); follow_dup fd result) (lift (orig.dup fd))

  unfoldable pub dup2 : ℤ → ℤ → Vfs W H ℤ
  unfolding catch_unwind follow_dup
  dup2 oldfd newfd =
      catch_unwind (do result ← lift (orig.dup2 oldfd newfd); follow_dup oldfd result)
        (lift (orig.dup2 oldfd newfd))

  unfoldable pub dup3 : ℤ → ℤ → ℕ → Vfs W H ℤ
  unfolding catch_unwind follow_dup
  dup3 oldfd newfd flags =
      catch_unwind (do result ← lift (orig.dup3 oldfd newfd flags); follow_dup oldfd result)
        (lift (orig.dup3 oldfd newfd flags))

  -- The variadic symbol catches no panic.
  unfoldable pub fcntl : ℤ → ℤ → VaArg → Vfs W H ℤ
  unfolding follow_dup one_of
  fcntl fd cmd va =
      if one_of duplicating cmd
      then (do result ← lift (orig.fcntl fd cmd (int_arg va.as_int)); follow_dup fd result)
      else if one_of without_arg cmd
      then lift (orig.fcntl fd cmd no_arg)
      else if one_of with_pointer cmd
      then lift (orig.fcntl fd cmd (ptr_arg va.as_ptr))
      else lift (orig.fcntl fd cmd (int_arg va.as_int))

  unfoldable pub fstat : RootVfs W H → ℤ → Stat → Vfs W H (ℤ × Stat)
  unfolding catch_unwind or_original
  fstat vfs fd statbuf =
      let original = lift (orig.fstat fd statbuf) in
      catch_unwind (do served ← Open.fstat vfs fd statbuf; or_original original served) original

  unfoldable pub getdents64 : (FilePath → ℕ) → RootVfs W H → ℤ → Bool → ℤ → Vfs W H (ℤ × Bytes)
  unfolding catch_unwind or_original
  getdents64 inode_for_path vfs fd dirp_is_null count =
      let original = lift (orig.getdents64 fd dirp_is_null count) in
      catch_unwind
        (do
          served ← Listing.getdents64 inode_for_path vfs fd dirp_is_null count
          or_original original served)
        original
