-- ===== src/Overlay/Writes.antt =====
-- src/impls/overlay.rs: calls that write go to the top layer.
use sandbox_vfs.Base.{
  ℕ, ◌≡◌, refl, ◌∙◌, Bool, true, false, Option, none, some, List, [], ◌∷◌, reverse, pos, int_eq,
  if◌then◌else◌, Option-cases, inl, inr, Outcome, returned, panicked, Action, after, pure, ◌>>=◌,
}
use sandbox_vfs.FilePath.{FilePath, root_path, path_eq, parent, ancestors}
use sandbox_vfs.Filesystem.{LowLevelFs}
use sandbox_vfs.Libc.{f_ok}
use sandbox_vfs.Overlay.{
  OverlayFs, writes, has, has_optional, path_exists_below_top, make_missing, ensure_top_parent_dirs,
  open_with_handle, mkdir,
}

-- The action leaves the part `lower` of the world as it is, also when it panics.
abbrev pub Keeps : {W L A : Type 0} → (W → L) → Action W A → Type 0
Keeps {W = W} lower m = (w : W) → lower (after (m w)) ≡ lower w

module _ {W L : Type 0} (lower : W → L) where
  bound :
      {A B : Type 0} (f : A → Action W B)
      → ((a : A) → Keeps lower (f a))
      → (w : W) (o : Outcome W A) → lower (after o) ≡ lower w
      → lower (after (elim o [ returned a s' ↦ f a s' | panicked s' ↦ panicked s' ])) ≡ lower w
  bound f k w (returned a w') e = k a w' ∙ e
  bound f k w (panicked w') e = e

  Keeps-bind :
      {A B : Type 0} (m : Action W A) (f : A → Action W B)
      → Keeps lower m
      → ((a : A) → Keeps lower (f a))
      → Keeps lower (m >>= f)
  Keeps-bind m f k l = λ w. bound f l w (m w) (k w)

  Keeps-if :
      {A : Type 0} (b : Bool) (m m' : Action W A)
      → Keeps lower m
      → Keeps lower m'
      → Keeps lower (if b then m else m')
  Keeps-if true m m' k l = k
  Keeps-if false m m' k l = l

  module _ {H : Type 0} where
    -- To ask whether a path is there leaves the part as it is.
    abbrev pub Checks : LowLevelFs W H → Type 0
    Checks layer = (path : FilePath) (mode : ℕ) → Keeps lower (layer.access path mode)

    abbrev pub ChecksOptional : Option (LowLevelFs W H) → Type 0
    ChecksOptional none = Unit {0}
    ChecksOptional (some layer) = Checks layer

    -- The part does not belong to the top layer, whose calls leave it as it is.
    abbrev pub Apart : OverlayFs W H → Type 0
    Apart fs =
        Checks fs.top
        × ChecksOptional fs.middle
        × Checks fs.base
        × ((path : FilePath) (mode : ℕ) → Keeps lower (fs.top.mkdir path mode))
        × ((path : FilePath) (flag mode : ℕ) → Keeps lower (fs.top.open_with_handle path flag mode))

    has-Keeps :
        (layer : LowLevelFs W H) (path : FilePath) → Checks layer → Keeps lower (has layer path)
    unfolding has
    has-Keeps layer path c =
        Keeps-bind (layer.access path f_ok) (λ status. pure (int_eq status (pos 0))) (c path f_ok)
          (λ a w. refl)

    has_optional-Keeps :
        (layer : Option (LowLevelFs W H)) (path : FilePath)
        → ChecksOptional layer
        → Keeps lower (has_optional layer path)
    unfolding has_optional
    has_optional-Keeps none path c = λ w. refl
    has_optional-Keeps (some layer) path c = has-Keeps layer path c

    module _ (fs : OverlayFs W H) (apart : Apart fs) where
      make_missing-Keeps : (ps : List FilePath) → Keeps lower (make_missing fs.top ps)
      unfolding make_missing
      make_missing-Keeps [] = λ w. refl
      make_missing-Keeps (p ∷ ps) =
          let rest = make_missing fs.top ps in
          let make : Action W (Unit {0}) = fs.top.mkdir p 0o755 >>= λ _. rest in
          Keeps-if (path_eq p root_path) rest
            (has fs.top p >>= λ found. if found then rest else make) (make_missing-Keeps ps)
            (Keeps-bind (has fs.top p) (λ found. if found then rest else make)
              (has-Keeps fs.top p apart.0)
              (λ found. Keeps-if found rest make (make_missing-Keeps ps) (
                Keeps-bind (fs.top.mkdir p 0o755) (λ _. rest) (apart.3 p 0o755)
                  (λ _. make_missing-Keeps ps))))

      below-Keeps : (path : FilePath) → Keeps lower (path_exists_below_top fs path)
      unfolding path_exists_below_top
      below-Keeps path =
          Keeps-bind (has_optional fs.middle path)
            (λ in_middle. if in_middle then pure true else has fs.base path)
            (has_optional-Keeps fs.middle path apart.1)
            (λ in_middle.
              Keeps-if in_middle (pure true) (has fs.base path) (λ w. refl)
                (has-Keeps fs.base path apart.2))

      parents-Keeps :
          (dir : FilePath)
          → Keeps lower (
              has fs.top dir >>= λ on_top.
              if on_top
              then pure tt
              else (path_exists_below_top fs dir >>= λ below.
                  if below then make_missing fs.top (reverse (ancestors dir)) else pure tt))
      parents-Keeps dir =
          let missing = make_missing fs.top (reverse (ancestors dir)) in
          let copy : Action W (Unit {0}) =
            path_exists_below_top fs dir >>= λ below. if below then missing else pure tt in
          Keeps-bind (has fs.top dir) (λ on_top. if on_top then pure tt else copy)
            (has-Keeps fs.top dir apart.0)
            (λ on_top.
              Keeps-if on_top (pure tt) copy (λ w. refl)
                (Keeps-bind (path_exists_below_top fs dir)
                  (λ below. if below then missing else pure tt) (below-Keeps dir)
                  (λ below.
                    Keeps-if below missing (pure tt) (make_missing-Keeps (reverse (ancestors dir)))
                      (λ w. refl))))

      ensure_top_parent_dirs-Keeps :
          (path : FilePath) → Keeps lower (ensure_top_parent_dirs fs path)
      unfolding ensure_top_parent_dirs
      ensure_top_parent_dirs-Keeps path = elim (Option-cases (parent path)) [
        | inl e ↦ rw (ensure_top_parent_dirs, e) (λ w. refl)
        | inr (dir, e) ↦ rw (ensure_top_parent_dirs, e) (parents-Keeps dir)
      ]

      -- Making a directory, or opening with a flag that writes, through an overlay leaves as it is
      -- every part of the world that a check for a path and the two calls of the top layer leave as
      -- it is: a lower layer is only asked for paths.
      pub writes-Keeps :
          (path : FilePath) (flags mode : ℕ)
          → writes flags ≡ true
          → Keeps lower (mkdir fs path mode) × Keeps lower (open_with_handle fs path flags mode)
      unfolding mkdir open_with_handle
      writes-Keeps path flags mode e = (
        Keeps-bind (ensure_top_parent_dirs fs path) (λ _. fs.top.mkdir path mode)
            (ensure_top_parent_dirs-Keeps path) (λ _. apart.3 path mode),
        rw e (
            Keeps-bind (ensure_top_parent_dirs fs path)
              (λ _. fs.top.open_with_handle path flags mode) (ensure_top_parent_dirs-Keeps path)
              (λ _. apart.4 path flags mode)),
      )
