-- ===== src/Overlay/Reads.antt =====
-- The calls of src/impls/overlay.rs that look a path up: they go to the first layer that has it.
use sandbox_vfs.Base.{
  ℕ, ◌≡◌, ◌≢◌, ◌⊎◌, refl, sym, ap, ◌∙◌, subst, true, false, none, some, List, [], ◌∷◌, ℤ, pos,
  int_eq, int_eq_iff, if◌then◌else◌, Action, returned, bind_returned, Bool-cases, Option-cases, inl,
  inr, ◌==◌, ==_iff, ◌>>=◌,
}
use sandbox_vfs.FilePath.{FilePath}
use sandbox_vfs.Filesystem.{LowLevelFs, Stat}
use sandbox_vfs.Libc.{f_ok}
use sandbox_vfs.Overlay.{
  OverlayFs, writes, has, below_top, visible_layer, layers, access, open_path, open_with_handle,
  unlink, rmdir, chmod, stat,
}

differs : (status : ℤ) → status ≢ pos 0 → int_eq status (pos 0) ≡ false
differs status ne = elim (Bool-cases (int_eq status (pos 0))) [
  | inl e ↦ absurd (ne ((int_eq_iff status (pos 0)).0 e))
  | inr e ↦ e
]

module _ {W H : Type 0} (path : FilePath) (w : W) where
  -- The layer can be asked for the path, and has it or not.
  abbrev pub Has : LowLevelFs W H → Type 0
  Has layer = layer.access path f_ok w ≡ returned (pos 0) w

  abbrev pub Lacks : LowLevelFs W H → Type 0
  Lacks layer = (status : ℤ) × (layer.access path f_ok w ≡ returned status w) × (status ≢ pos 0)

  abbrev pub AllAnswer : List (LowLevelFs W H) → Type 0
  AllAnswer [] = Unit {0}
  AllAnswer (l ∷ ls) = (Has l ⊎ Lacks l) × AllAnswer ls

  -- The first layer that has the path, or the last one.
  abbrev pub IsVisible : LowLevelFs W H → List (LowLevelFs W H) → Type 0
  IsVisible v [] = ⊥
  IsVisible v (l ∷ []) = v ≡ l
  IsVisible v (l ∷ m ∷ ls) = (Has l × (v ≡ l)) ⊎ (Lacks l × IsVisible v (m ∷ ls))

  has-Has : (l : LowLevelFs W H) → Has l → has l path w ≡ returned true w
  unfolding has
  has-Has l e = bind_returned (l.access path f_ok) _ w w (pos 0) e

  has-Lacks : (l : LowLevelFs W H) → Lacks l → has l path w ≡ returned false w
  unfolding has
  has-Lacks l (status, e, ne) =
      bind_returned (l.access path f_ok) _ w w status e ∙ ap (λ b. returned b w) (differs status ne)

  module _ (fs : OverlayFs W H) where
    visible_top : Has fs.top → visible_layer fs path w ≡ returned fs.top w
    unfolding visible_layer
    visible_top e = bind_returned (has fs.top path) _ w w true (has-Has fs.top e)

    visible_below : Lacks fs.top → visible_layer fs path w ≡ below_top fs path w
    unfolding visible_layer
    visible_below e = bind_returned (has fs.top path) _ w w false (has-Lacks fs.top e)

    two_layers : fs.middle ≡ none → layers fs ≡ fs.top ∷ fs.base ∷ []
    unfolding layers
    two_layers e = rw e refl

    base_below : fs.middle ≡ none → below_top fs path w ≡ returned fs.base w
    unfolding below_top
    base_below e = rw e refl

    module _ (middle : LowLevelFs W H) (is_middle : fs.middle ≡ some middle) where
      three_layers : layers fs ≡ fs.top ∷ middle ∷ fs.base ∷ []
      unfolding layers
      three_layers = rw is_middle refl

      below_middle : Has middle → below_top fs path w ≡ returned middle w
      unfolding below_top
      below_middle e = rw is_middle (bind_returned (has middle path) _ w w true (has-Has middle e))

      below_base : Lacks middle → below_top fs path w ≡ returned fs.base w
      unfolding below_top
      below_base e = rw is_middle (bind_returned (has middle path) _ w w false (has-Lacks middle e))

    -- The layer that is seen, and what the look-up of it gives.
    abbrev Sees : List (LowLevelFs W H) → Type 0
    Sees ls =
        AllAnswer ls
        → (v : LowLevelFs W H) × IsVisible v ls × (visible_layer fs path w ≡ returned v w)

    visible_layer-IsVisible : Sees (layers fs)
    visible_layer-IsVisible = elim (Option-cases fs.middle) [
      | inl e ↦ subst Sees (sym (two_layers e)) (λ (top, _). elim top [
        | inl here ↦ (fs.top, inl (here, refl), visible_top here)
        | inr not_here ↦ (fs.base, inr (not_here, refl), visible_below not_here ∙ base_below e)
      ])
      | inr (m, e) ↦ subst Sees (sym (three_layers m e)) (λ (top, (middle, _)). elim top [
        | inl here ↦ (fs.top, inl (here, refl), visible_top here)
        | inr not_here ↦ elim middle [
          | inl there ↦ (
            m,
            inr (not_here, inl (there, refl)),
            visible_below not_here ∙ below_middle m e there,
          )
          | inr not_there ↦ (
            fs.base,
            inr (not_here, inr (not_there, refl)),
            visible_below not_here ∙ below_base m e not_there,
          )
        ]
      ])
    ]

    -- Every look-up is the layer's own.
    abbrev pub GoesTo : LowLevelFs W H → Type 0
    GoesTo v =
        ((mode : ℕ) → access fs path mode w ≡ v.access path mode w)
        × ((flags mode : ℕ)
            → writes flags ≡ false
            → (open_path fs path flags mode w ≡ v.open_path path flags mode w)
              × (open_with_handle fs path flags mode w ≡ v.open_with_handle path flags mode w))
        × ((statbuf : Stat) → stat fs path statbuf w ≡ v.stat path statbuf w)

    -- A change of an entry that the top layer has is a change of the top layer.
    abbrev pub ChangesTop : Type 0
    ChangesTop =
        Has fs.top
        → ((mode : ℕ) → chmod fs path mode w ≡ fs.top.chmod path mode w)
          × (unlink fs path w ≡ fs.top.unlink path w)
          × (rmdir fs path w ≡ fs.top.rmdir path w)

    module _ (v : LowLevelFs W H) (sees : visible_layer fs path w ≡ returned v w) where
      at_visible :
          {A : Type 0} (call : LowLevelFs W H → Action W A)
          → (visible_layer fs path >>= call) w ≡ call v w
      at_visible call = bind_returned (visible_layer fs path) call w w v sees

      access_sent : (mode : ℕ) → access fs path mode w ≡ v.access path mode w
      unfolding access
      access_sent mode =
          at_visible (λ l. if mode == f_ok then l.access path f_ok else l.access path mode)
          ∙ elim (Bool-cases (mode == f_ok)) [
            | inl e ↦ rw e (ap (λ m. v.access path m w) (sym ((==_iff mode f_ok).0 e)))
            | inr e ↦ rw e refl
          ]

      visible-GoesTo : GoesTo v
      unfolding open_path open_with_handle stat
      visible-GoesTo = (
        access_sent,
        λ flags mode reads. (
          rw reads (at_visible (λ l. l.open_path path flags mode)),
          rw reads (at_visible (λ l. l.open_with_handle path flags mode)),
        ),
        λ statbuf. at_visible (λ l. l.stat path statbuf),
      )

    top-ChangesTop : ChangesTop
    unfolding chmod unlink rmdir
    top-ChangesTop here = (
      λ mode.
          bind_returned (visible_layer fs path) (λ l. l.chmod path mode) w w fs.top
            (visible_top here),
      bind_returned (has fs.top path) _ w w true (has-Has fs.top here),
      bind_returned (has fs.top path) _ w w true (has-Has fs.top here),
    )

    -- If every layer can be asked for a path without a change or a panic, then access, an open that
    -- does not write, and stat of that path through an overlay do what they do on one and the same
    -- layer: the first from the top that has the path, or the lowest if none has it. If the top layer
    -- has the path, chmod, unlink and rmdir do what they do on the top layer.
    pub calls-IsVisible :
        AllAnswer (layers fs)
        → ((v : LowLevelFs W H) × IsVisible v (layers fs) × GoesTo v) × ChangesTop
    calls-IsVisible all =
        let (v, first, sees) = visible_layer-IsVisible all in
        ((v, first, visible-GoesTo v sees), top-ChangesTop)
