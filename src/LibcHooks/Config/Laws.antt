-- ===== src/LibcHooks/Config/Laws.antt =====
-- Which file systems src/libc_hooks.rs sets up from the environment.
use sandbox_vfs.Base.{
  ◌≡◌, refl, sym, ap, ◌∙◌, subst, ◌⊎◌, inl, inr, true, false, Option, none, some, [], ◌∷◌, Bytes,
  codes, bytes_eq, bytes_eq_iff, arith, Bool-cases, Option-cases, Outcome, returned, panicked,
  outcome_then, Kept, kept_then,
}
use sandbox_vfs.BindFs.{Host, bind_backend}
use sandbox_vfs.FilePath.{FilePath, root_dir, is_absolute, join}
use sandbox_vfs.FilePath.Text.{parse}
use sandbox_vfs.Filesystem.{LowLevelFs}
use sandbox_vfs.Memory.{Kernel, Heap, MemoryOpenedFile}
use sandbox_vfs.Memory.Backend.{memory_backend}
use sandbox_vfs.Memory.Create
use sandbox_vfs.Overlay
use sandbox_vfs.Overlay.{overlay_backend}
use sandbox_vfs.RootVfs
use sandbox_vfs.RootVfs.{RootVfs, with_mount, insert_mount}
use sandbox_vfs.LibcHooks.Config.{
  Env, BackendKind, memory, overlay, lower_env, upper_env, backend_env, memory_mount_env,
  backend_named, kind_of, backend_kind, from_current_dir, existing_dir, required_dir,
  required_dir_from_env, optional_absolute_path, optional_absolute_path_from_env, new_memory,
  overlay_of, mount_memory, rooted, memory_vfs, overlay_vfs, vfs_of, vfs,
}

join-is_absolute :
    (p q : FilePath) → is_absolute p ≡ true → is_absolute q ≡ false → is_absolute (join p q) ≡ true
unfolding join
join-is_absolute [] q a b = absurd (ground (arith, a))
join-is_absolute (root_dir ∷ p) q a b = rw b refl
join-is_absolute (c ∷ p) q a b = ground (arith, a, b)

module _ {K : Type 0} (env : Env K) (os : Kernel K) (host : Host (Heap K)) (h : Heap K) where
  -- The value itself, or what it is below the current directory.
  abbrev pub Points : Bytes → FilePath → Type 0
  Points value p =
      (p ≡ parse value)
      ⊎ ((cwd : FilePath) × (is_absolute (parse value) ≡ false)
          × (env.current_dir ≡ some cwd)
          × (p ≡ join cwd (parse value)))

  -- The directory that the variable points to, by an absolute path.
  abbrev pub IsDirectory : Bytes → FilePath → Type 0
  IsDirectory name p =
      ((value : Bytes) × (env.var_os name ≡ some value) × Points value p)
      × (is_absolute p ≡ true)
      × (env.is_dir p h.kernel ≡ true)

  -- The upper layer on top of the lower one.
  abbrev pub layered : FilePath → FilePath → LowLevelFs (Heap K) MemoryOpenedFile
  layered upper lower = overlay_backend (record {
    id = codes "overlay";
    top = bind_backend host (record { id = codes "upper"; root = upper });
    middle = none;
    base = bind_backend host (record { id = codes "lower"; root = lower });
  })

  abbrev pub AsksMemory : Type 0
  AsksMemory =
      (env.var_os backend_env ≡ some (codes "memory")) × (env.is_unicode (codes "memory") ≡ true)

  -- The mounts that the variable asks for.
  abbrev pub Mounted : RootVfs (Heap K) MemoryOpenedFile → Type 0
  Mounted r =
      ((env.var_os memory_mount_env ≡ none) × (r.mounts ≡ []))
      ⊎ ((value : Bytes) × (env.var_os memory_mount_env ≡ some value)
          × (is_absolute (parse value) ≡ true)
          × (r.mounts ≡ (parse value, memory_backend os (Create.new os (codes "memory") h).0) ∷ []))

  -- A memory file system alone, or an overlay of two directories with or without the memory mount.
  -- A panic comes before anything is made, and never if the memory file system is asked for.
  abbrev pub Configured : Outcome (Heap K) (RootVfs (Heap K) MemoryOpenedFile) → Type 0
  Configured (panicked h') = (h' ≡ h) × (AsksMemory → ⊥)
  Configured (returned r h') =
      (AsksMemory
        × (r.root ≡ memory_backend os (Create.new os (codes "memory") h).0)
        × (r.mounts ≡ []))
      ⊎ ((AsksMemory → ⊥)
          × ((upper : FilePath) × (lower : FilePath) × IsDirectory upper_env upper
              × IsDirectory lower_env lower
              × (r.root ≡ layered upper lower)
              × Mounted r))

  abbrev Chosen : Outcome (Heap K) BackendKind → Type 0
  Chosen (panicked h') = (h' ≡ h) × (AsksMemory → ⊥)
  Chosen (returned memory h') = (h' ≡ h) × AsksMemory
  Chosen (returned overlay h') = (h' ≡ h) × (AsksMemory → ⊥)

  abbrev FoundDir : Bytes → Outcome (Heap K) FilePath → Type 0
  FoundDir name = Kept h (IsDirectory name)

  abbrev IsAsked : Option FilePath → Type 0
  IsAsked none = env.var_os memory_mount_env ≡ none
  IsAsked (some p) =
      (value : Bytes) × (env.var_os memory_mount_env ≡ some value)
      × (is_absolute p ≡ true)
      × (p ≡ parse value)

  abbrev FoundMount : Outcome (Heap K) (Option FilePath) → Type 0
  FoundMount = Kept h IsAsked

  AsksMemory-is :
      (value : Bytes) → AsksMemory → env.var_os backend_env ≡ some value → value ≡ codes "memory"
  AsksMemory-is value (a, u) e = cc (a, e)

  backend_named-Chosen :
      (value : Bytes)
      → env.var_os backend_env ≡ some value
      → env.is_unicode value ≡ true
      → Chosen (backend_named env value h)
  unfolding backend_named
  backend_named-Chosen value e u = elim (Bool-cases (bytes_eq value (codes "memory"))) [
    | inl m ↦
        let is = (bytes_eq_iff value (codes "memory")).0 m in
        rw m (refl, (e ∙ ap some is, sym (ap env.is_unicode is) ∙ u))
    | inr m ↦ elim (Bool-cases (bytes_eq value (codes "overlay"))) [
      | inl o ↦ rw (m, o) (refl, not_memory m)
      | inr o ↦ rw (m, o) (refl, not_memory m)
    ]
  ]
    where
      not_memory : bytes_eq value (codes "memory") ≡ false → AsksMemory → ⊥
      not_memory m a =
          ground (arith, m, (bytes_eq_iff value (codes "memory")).1 (AsksMemory-is value a e))

  kind_of-Chosen : (o : Option Bytes) → env.var_os backend_env ≡ o → Chosen (kind_of env o h)
  unfolding kind_of
  kind_of-Chosen none e = (refl, λ (a, u). absurd (cc (a, e)))
  kind_of-Chosen (some value) e = elim (Bool-cases (env.is_unicode value)) [
    | inl u ↦ rw u (backend_named-Chosen value e u)
    | inr u ↦ rw u (refl, λ a. absurd (cc (a.1, AsksMemory-is value a e, u)))
  ]

  existing_dir-FoundDir :
      (name value : Bytes) (p : FilePath)
      → env.var_os name ≡ some value
      → Points value p × (is_absolute p ≡ true)
      → FoundDir name (existing_dir env p h)
  unfolding existing_dir
  existing_dir-FoundDir name value p v (points, a) = elim (Bool-cases (env.is_dir p h.kernel)) [
    | inl e ↦ rw e (refl, ((value, v, points), a, e))
    | inr e ↦ rw e refl
  ]

  from_current_dir_joined :
      (p cwd : FilePath)
      → is_absolute p ≡ false
      → env.current_dir ≡ some cwd
      → from_current_dir env p h ≡ returned (join cwd p) h
  unfolding from_current_dir
  from_current_dir_joined p cwd a e = rw (a, e) refl

  module _ (absolute : (cwd : FilePath) → env.current_dir ≡ some cwd → is_absolute cwd ≡ true) where
    from_current_dir-Points :
        (value : Bytes)
        → Kept h
            (λ q. Points value q × (is_absolute q ≡ true))
            (from_current_dir env (parse value) h)
    unfolding from_current_dir
    from_current_dir-Points value = elim (Bool-cases (is_absolute (parse value))) [
      | inl a ↦ rw a (refl, (inl refl, a))
      | inr a ↦ elim (Option-cases env.current_dir) [
        | inl e ↦ rw (a, e) refl
        | inr (cwd, e) ↦
            subst (Kept h (λ q. Points value q × (is_absolute q ≡ true)))
              (sym (from_current_dir_joined (parse value) cwd a e))
              (refl, (inr (cwd, a, e, refl), join-is_absolute cwd (parse value) (absolute cwd e) a))
      ]
    ]

    required_dir-FoundDir :
        (name : Bytes) (o : Option Bytes)
        → env.var_os name ≡ o
        → FoundDir name (required_dir env o h)
    unfolding required_dir
    required_dir-FoundDir name none v = refl
    required_dir-FoundDir name (some value) v =
        kept_then h (λ q. Points value q × (is_absolute q ≡ true)) (FoundDir name)
          (existing_dir env) (from_current_dir env (parse value) h) (from_current_dir-Points value)
          (λ q. existing_dir-FoundDir name value q v) refl

  optional_absolute_path-FoundMount :
      (o : Option Bytes)
      → env.var_os memory_mount_env ≡ o
      → FoundMount (optional_absolute_path env o h)
  unfolding optional_absolute_path
  optional_absolute_path-FoundMount none e = (refl, e)
  optional_absolute_path-FoundMount (some value) e = elim (Bool-cases (is_absolute (parse value))) [
    | inl a ↦ rw a (refl, (value, e, a, refl))
    | inr a ↦ rw a refl
  ]

  mount_memory-Configured :
      (upper lower : FilePath) (mount : Option FilePath)
      → (AsksMemory → ⊥)
      → IsDirectory upper_env upper
      → IsDirectory lower_env lower
      → IsAsked mount
      → Configured (mount_memory os (rooted os (overlay_of host upper lower)) mount h)
  unfolding mount_memory rooted RootVfs.new new_memory with_mount insert_mount overlay_of
      Overlay.new
  mount_memory-Configured upper lower none other u l e =
      inr (other, (upper, lower, u, l, refl, inl (e, refl)))
  mount_memory-Configured upper lower (some p) other u l (value, e, a, is) =
      let fs = memory_backend os (Create.new os (codes "memory") h).0 in
      inr (
        other,
        (
          upper,
          lower,
          u,
          l,
          refl,
          inr (value, e, ap is_absolute (sym is) ∙ a, ap (λ x. (x, fs) ∷ []) is),
        ),
      )

  module _ (absolute : (cwd : FilePath) → env.current_dir ≡ some cwd → is_absolute cwd ≡ true) where
    overlay_vfs-Configured : (AsksMemory → ⊥) → Configured (overlay_vfs env os host h)
    unfolding overlay_vfs required_dir_from_env optional_absolute_path_from_env
    overlay_vfs-Configured other =
        kept_then h (IsDirectory lower_env) Configured _ (required_dir env (env.var_os lower_env) h)
          (required_dir-FoundDir absolute lower_env (env.var_os lower_env) refl)
          (λ lower l.
            kept_then h (IsDirectory upper_env) Configured _
              (required_dir env (env.var_os upper_env) h)
              (required_dir-FoundDir absolute upper_env (env.var_os upper_env) refl)
              (λ upper u.
                kept_then h IsAsked Configured _
                  (optional_absolute_path env (env.var_os memory_mount_env) h)
                  (optional_absolute_path-FoundMount (env.var_os memory_mount_env) refl)
                  (λ mount e. mount_memory-Configured upper lower mount other u l e) (refl, other))
              (refl, other))
          (refl, other)

    memory_vfs-Configured : AsksMemory → Configured (memory_vfs os h)
    unfolding memory_vfs new_memory rooted RootVfs.new
    memory_vfs-Configured asked = inl (asked, refl, refl)

    vfs_of-Configured :
        (kind : BackendKind) (h' : Heap K)
        → Chosen (returned kind h')
        → Configured (vfs_of env os host kind h')
    unfolding vfs_of
    vfs_of-Configured memory h' (same, asked) =
        subst (λ g. Configured (memory_vfs os g)) (sym same) (memory_vfs-Configured asked)
    vfs_of-Configured overlay h' (same, other) =
        subst (λ g. Configured (overlay_vfs env os host g)) (sym same)
          (overlay_vfs-Configured other)

    -- If the current directory is an absolute path: the process runs on a new memory file system alone
    -- when the environment asks for it. Otherwise it runs on the overlay of two directories, the upper on
    -- top of the lower, to which the two variables point and which exist, with a new memory file system
    -- mounted at the absolute path that a third variable has, if it is set, and no other mount; or it
    -- panics before anything is made.
    pub vfs-Configured : Configured (vfs env os host h)
    unfolding vfs backend_kind
    vfs-Configured =
        outcome_then Chosen Configured (vfs_of env os host) (kind_of env (env.var_os backend_env) h)
          (kind_of-Chosen (env.var_os backend_env) refl) vfs_of-Configured (λ h' r. r)
