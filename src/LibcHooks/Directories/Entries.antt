-- ===== src/LibcHooks/Directories/Entries.antt =====
-- What `materialize_dir` of src/libc_hooks.rs copies of a listing.
use sandbox_vfs.Base.{
  ℕ, ◌+◌, ◌%◌, ◌^◌, ◌≡◌, refl, sym, ap, ◌∙◌, subst, false, Option, none, some, List, [], ◌∷◌, ◌++◌,
  append-nil, append_assoc, ℤ, pos, Bytes, int_eq, int_eq_iff, is_negative, Bool-cases, inl, inr,
  if◌then◌else◌, bit_or, bind_returned, bind_inversion, returned, minus_one, pure,
}
use sandbox_vfs.CStr.{has_nul, path_to_cstring}
use sandbox_vfs.FilePath.{FilePath, join}
use sandbox_vfs.FilePath.Text.{parse, print}
use sandbox_vfs.Filesystem.{EntryKind, file, dir, DirEntry}
use sandbox_vfs.Libc.{o_creat, o_wronly, o_trunc}
use sandbox_vfs.RootVfs.{lift}
use sandbox_vfs.LibcHooks.{Originals}
use sandbox_vfs.LibcHooks.Directories.{
  MaterializedDir, HookState, Linked, Hooks, is_dot, lift_vfs, next_number,
  cleanup_materialized_dir, create_entry, keep_created, create_entries, fill_created,
  materialize_at, materialize_dir, materialized_path,
}
use sandbox_vfs.LibcHooks.Directories.Copied.{
  children, c_string, Made, AllMade, CopiedTo, with_world, Gives, IsCopy, Gives-after, Gives-map,
  cstring_then, lifted_then, path_to_cstring_ok, lifted_ok,
}

module _ {W H : Type 0} (linked : Linked W H) (orig : Originals W) where
  abbrev open_flags : ℕ
  open_flags = bit_or (bit_or o_creat o_wronly) o_trunc

  -- What an entry that was made is known by.
  create_entry-Made :
      (c : Bytes) (kind : EntryKind) (w w' : W)
      → create_entry linked orig c kind w ≡ returned (pos 0) w'
      → Made orig c kind w w'
  unfolding create_entry
  create_entry-Made c dir w w' e = e
  create_entry-Made c file w w' e =
      let (fd, opened, is_open, closed) =
        bind_inversion (λ fd. if is_negative fd then pure minus_one else orig.close fd) (pos 0) w'
          (orig.open_path c open_flags 0o600) w e in
      elim (Bool-cases (is_negative fd)) [
        | inl b ↦ absurd (cc (closed, b))
        | inr b ↦ (
          fd,
          opened,
          is_open,
          b,
          subst (λ x. (if x then pure minus_one else orig.close fd) opened ≡ returned (pos 0) w') b
              closed,
        )
      ]

  Made-create_entry :
      (c : Bytes) (kind : EntryKind) (w w' : W)
      → Made orig c kind w w'
      → create_entry linked orig c kind w ≡ returned (pos 0) w'
  unfolding create_entry
  Made-create_entry c dir w w' e = e
  Made-create_entry c file w w' (fd, opened, is_open, b, closed) =
      bind_returned (orig.open_path c open_flags 0o600)
        (λ fd. if is_negative fd then pure minus_one else orig.close fd) w opened fd is_open
      ∙ rw b closed

  keep_created-Gives :
      (P : W → Type 0) (path : FilePath) (created entries : List DirEntry)
      (next : Hooks W H (Option MaterializedDir)) (result : ℤ) (s : HookState W H)
      → (result ≡ pos 0 → Gives P path entries (next s))
      → Gives P path entries (keep_created linked orig path created next result s)
  unfolding keep_created
  keep_created-Gives P path created entries next result s copy =
      elim (Bool-cases (int_eq result (pos 0))) [
        | inl e ↦ rw e (copy ((int_eq_iff result (pos 0)).0 e))
        | inr e ↦ rw e (
            Gives-after P path entries
              (cleanup_materialized_dir linked (record { path = path; entries = created }))
              (λ _. pure none) (λ _ s'. tt) s)
      ]

  create_entries-Gives :
      (path : FilePath) (es created : List DirEntry) (s : HookState W H)
      → Gives
          (AllMade orig path (children es) s.vfs.world)
          path
          (created ++ children es)
          (create_entries linked orig path es created s)
  unfolding create_entries
  create_entries-Gives path [] created s = (refl, sym (append-nil created), refl)
  create_entries-Gives path (e ∷ es) created s = elim (Bool-cases (is_dot e)) [
    | inl d ↦ rw d (create_entries-Gives path es created s)
    | inr d ↦ rw d (
        cstring_then P path entries q _ s (λ free.
          lifted_then P path entries (create_entry linked orig (c_string q) e.kind) _ s
            (λ result w made.
              keep_created-Gives P path created entries next result (with_world s w) (λ ok.
                Gives-map (AllMade orig path (children es) w) P path entries
                  (λ w' rest. (
                    free,
                    (
                      w,
                      create_entry-Made (c_string q) e.kind s.vfs.world w
                          (made ∙ ap (λ r. returned r w) ok),
                      rest,
                    ),
                  ))
                  (next (with_world s w))
                  (subst
                    (λ l. Gives (AllMade orig path (children es) w) path l (next (with_world s w)))
                    (append_assoc created (e ∷ []) (children es))
                    (create_entries-Gives path es (created ++ e ∷ []) (with_world s w)))))))
  ]
    where
      q : FilePath
      q = join path (parse e.name)

      entries : List DirEntry
      entries = created ++ e ∷ children es

      P : W → Type 0
      P w' =
          (has_nul (print q) ≡ false)
          × ((w : W) × Made orig (c_string q) e.kind s.vfs.world w
              × AllMade orig path (children es) w w')

      next : Hooks W H (Option MaterializedDir)
      next = create_entries linked orig path es (created ++ e ∷ [])

  -- If a listing is copied to the host, the copy stands at the path that the process and the counter
  -- name and has the entries of the listing but `.` and `..`, all of them and in their order; and the
  -- calls of the host that were made are those that make it: mkdir of that path, then for each entry
  -- mkdir, or open and close, of its path below, each with success and each in the world that the call
  -- before it left.
  pub materialize_dir-IsCopy :
      (pid : ℕ) (entries : List DirEntry) (s : HookState W H)
      → IsCopy orig
          (materialized_path pid s.next_materialized_dir)
          (children entries)
          s.vfs.world
          (materialize_dir linked orig pid entries s)
  unfolding materialize_dir next_number materialize_at fill_created
  materialize_dir-IsCopy pid entries s =
      let path = materialized_path pid s.next_materialized_dir in
      let s1 : HookState W H = record s {
        next_materialized_dir = (s.next_materialized_dir + 1) % 2 ^ 64;
      } in
      let P = CopiedTo orig path (children entries) s.vfs.world in
      cstring_then P path (children entries) path _ s1 (λ free.
        lifted_then P path (children entries) (orig.mkdir (c_string path) 0o700) _ s1
          (λ status w made. elim (Bool-cases (int_eq status (pos 0))) [
            | inr e ↦ rw e tt
            | inl e ↦ rw e (
                Gives-map (AllMade orig path (children entries) w) P path (children entries)
                  (λ w' rest. (
                    free,
                    (w, made ∙ ap (λ r. returned r w) ((int_eq_iff status (pos 0)).0 e), rest),
                  ))
                  (create_entries linked orig path entries [] (with_world s1 w))
                  (create_entries-Gives path entries [] (with_world s1 w)))
          ]))

  create_entries_ok :
      (path : FilePath) (es created : List DirEntry) (s : HookState W H) (w' : W)
      → AllMade orig path (children es) s.vfs.world w'
      → create_entries linked orig path es created s
        ≡ returned
            (some (record { path = path; entries = created ++ children es }))
            (with_world s w')
  unfolding create_entries keep_created
  create_entries_ok path [] created s w' = λ same.
      ap (λ l. returned (some (record { path = path; entries = l })) s) (sym (append-nil created))
      ∙ ap (λ w. returned (some (record { path = path; entries = created ++ [] })) (with_world s w))
          same
  create_entries_ok path (e ∷ es) created s w' = elim (Bool-cases (is_dot e)) [
    | inl d ↦ rw d (create_entries_ok path es created s w')
    | inr d ↦ rw d (λ (free, (w, made, rest)).
        bind_returned (path_to_cstring (join path (parse e.name))) _ s s
          (c_string (join path (parse e.name)))
          (path_to_cstring_ok (join path (parse e.name)) s free)
        ∙ bind_returned
            (lift_vfs
              (lift (create_entry linked orig (c_string (join path (parse e.name))) e.kind)))
            (keep_created linked orig path created
              (create_entries linked orig path es (created ++ e ∷ [])))
            s (with_world s w) (pos 0)
            (lifted_ok (create_entry linked orig (c_string (join path (parse e.name))) e.kind) s
              (pos 0) w
              (Made-create_entry (c_string (join path (parse e.name))) e.kind s.vfs.world w made))
        ∙ create_entries_ok path es (created ++ e ∷ []) (with_world s w) w' rest
        ∙ ap (λ l. returned (some (record { path = path; entries = l })) (with_world s w'))
            (append_assoc created (e ∷ []) (children es)))
  ]

  -- If, from the world as it is, mkdir of a path and then for each entry of a listing but `.` and `..`,
  -- in their order, mkdir, or open and close, of its path below succeed one after the other, and no path
  -- has a nul byte in it, then the listing is copied to the path, without `.` and `..` and in its order,
  -- and the process is left in the world to which these calls lead.
  pub materialize_at-copies :
      (path : FilePath) (entries : List DirEntry) (s : HookState W H) (w' : W)
      → CopiedTo orig path (children entries) s.vfs.world w'
      → materialize_at linked orig path entries s
        ≡ returned (some (record { path = path; entries = children entries })) (with_world s w')
  unfolding materialize_at fill_created
  materialize_at-copies path entries s w' (free, (w, made, all)) =
      bind_returned (path_to_cstring path) _ s s (c_string path) (path_to_cstring_ok path s free)
      ∙ bind_returned (lift_vfs (lift (orig.mkdir (c_string path) 0o700)))
          (fill_created linked orig path entries) s (with_world s w) (pos 0)
          (lifted_ok (orig.mkdir (c_string path) 0o700) s (pos 0) w made)
      ∙ create_entries_ok path entries [] (with_world s w) w' all
