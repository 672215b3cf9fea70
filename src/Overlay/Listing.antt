-- ===== src/Overlay/Listing.antt =====
-- `OverlayFS::read_dir` of src/impls/overlay.rs: an upper layer hides the names of a lower one.
use sandbox_vfs.Base.{
  ◌≡◌, refl, sym, ap, ◌∙◌, subst, Bool, true, false, ◌||◌, Option, none, some, List, [], ◌∷◌, ◌++◌,
  Bytes, arith, bytes_eq, bytes_eq_iff, if◌then◌else◌, Bool-cases, Option-cases, inl, inr, Outcome,
  returned, panicked,
}
use sandbox_vfs.FilePath.{FilePath}
use sandbox_vfs.Filesystem.{DirEntry, LowLevelFs}
use sandbox_vfs.Overlay.{OverlayFs, lists_name, push_new, merge_layers, layers, read_dir}

-- The first entry of that name.
abbrev pub find_entry : Bytes → List DirEntry → Option DirEntry
find_entry name [] = none
find_entry name (e ∷ es) = if bytes_eq e.name name then some e else find_entry name es

abbrev pub or_else : Option DirEntry → Option DirEntry → Option DirEntry
or_else (some e) o = some e
or_else none o = o

-- No name is listed twice.
abbrev pub NoRepeats : List DirEntry → Type 0
NoRepeats [] = Unit {0}
NoRepeats (e ∷ es) = (lists_name es e.name ≡ false) × NoRepeats es

find_entry-append :
    (name : Bytes) (a b : List DirEntry)
    → find_entry name (a ++ b) ≡ or_else (find_entry name a) (find_entry name b)
find_entry-append name [] b = refl
find_entry-append name (e ∷ a) b = ground (arith, find_entry-append name a b)

lists_name-append :
    (name : Bytes) (a b : List DirEntry)
    → lists_name (a ++ b) name ≡ (lists_name a name || lists_name b name)
unfolding lists_name
lists_name-append name [] b = refl
lists_name-append name (e ∷ a) b = ground (arith, lists_name-append name a b)

listed-found :
    (name : Bytes) (es : List DirEntry)
    → lists_name es name ≡ true
    → (e : DirEntry) × (find_entry name es ≡ some e)
unfolding lists_name
listed-found name [] h = absurd (cc)
listed-found name (e ∷ es) h = elim (Bool-cases (bytes_eq e.name name)) [
  | inl y ↦ (e, ground (arith, y))
  | inr n ↦ let (d, f) = listed-found name es (ground (arith, h, n)) in (d, ground (arith, n, f))
]

NoRepeats-snoc :
    (a : List DirEntry) (e : DirEntry)
    → NoRepeats a
    → lists_name a e.name ≡ false
    → NoRepeats (a ++ e ∷ [])
unfolding lists_name
NoRepeats-snoc [] e u h = (refl, tt)
NoRepeats-snoc (d ∷ a) e (fresh, u) h = (
  ground (
    arith,
    lists_name-append d.name a (e ∷ []),
    fresh,
    h,
    bytes_eq_iff d.name e.name,
    bytes_eq_iff e.name d.name,
  ),
  NoRepeats-snoc a e u (ground (arith, h)),
)

NoRepeats-push_new : (a b : List DirEntry) → NoRepeats a → NoRepeats (push_new a b)
unfolding push_new
NoRepeats-push_new a [] u = u
NoRepeats-push_new a (e ∷ b) u = elim (Bool-cases (lists_name a e.name)) [
  | inl y ↦ rw y (NoRepeats-push_new a b u)
  | inr n ↦ rw n (NoRepeats-push_new (a ++ e ∷ []) b (NoRepeats-snoc a e u n))
]

find_entry-push_new :
    (name : Bytes) (a b : List DirEntry)
    → find_entry name (push_new a b) ≡ or_else (find_entry name a) (find_entry name b)
unfolding push_new
find_entry-push_new name a [] = ground arith
find_entry-push_new name a (e ∷ b) = elim (Bool-cases (lists_name a e.name)) [
  | inl y ↦
      let (d, f) = listed-found e.name a y in
      rw y (
        find_entry-push_new name a b ∙ elim (Bool-cases (bytes_eq e.name name)) [
          | inl z ↦
              let same = (bytes_eq_iff e.name name).0 z in
              let here = subst (λ n. find_entry n a ≡ some d) same f in rw here refl
          | inr z ↦ rw z refl
        ])
  | inr n ↦ rw n (
      find_entry-push_new name (a ++ e ∷ []) b ∙ elim (Option-cases (find_entry name a)) [
        | inl none_here ↦ ground (arith, find_entry-append name a (e ∷ []), none_here)
        | inr (d, here) ↦ ground (arith, find_entry-append name a (e ∷ []), here)
      ])
]

or_else_assoc : (a b c : Option DirEntry) → or_else (or_else a b) c ≡ or_else a (or_else b c)
or_else_assoc none b c = refl
or_else_assoc (some e) b c = refl

-- The layers, from the top, give these listings, and change nothing.
abbrev pub Reads :
    {W H : Type 0} → FilePath → W → List (LowLevelFs W H) → List (Option (List DirEntry)) → Type 0
Reads path w [] [] = Unit {0}
Reads path w (layer ∷ layers) (listed ∷ rest) =
    (layer.read_dir path w ≡ returned listed w) × Reads path w layers rest
Reads path w _ _ = ⊥

-- The entry of the first layer that lists the name.
abbrev pub first_named : Bytes → List (Option (List DirEntry)) → Option DirEntry
first_named name [] = none
first_named name (none ∷ rest) = first_named name rest
first_named name (some es ∷ rest) = or_else (find_entry name es) (first_named name rest)

abbrev pub any_listed : List (Option (List DirEntry)) → Bool
any_listed [] = false
any_listed (none ∷ rest) = any_listed rest
any_listed (some es ∷ rest) = true

module _ {W : Type 0} (w : W) where
  -- The listing so far, with the rest below it.
  abbrev pub Merged :
      List DirEntry
      → Bool
      → List (Option (List DirEntry))
      → Outcome W (Option (List DirEntry))
      → Type 0
  Merged entries saw rest (panicked w') = ⊥
  Merged entries saw rest (returned none w') = (w' ≡ w) × (saw ≡ false) × (any_listed rest ≡ false)
  Merged entries saw rest (returned (some es) w') =
      (w' ≡ w)
      × ((saw || any_listed rest) ≡ true)
      × NoRepeats es
      × ((name : Bytes)
          → find_entry name es ≡ or_else (find_entry name entries) (first_named name rest))

  Merged-layer :
      (entries es : List DirEntry) (saw : Bool) (rest : List (Option (List DirEntry)))
      (out : Outcome W (Option (List DirEntry)))
      → Merged (push_new entries es) true rest out
      → Merged entries saw (some es ∷ rest) out
  Merged-layer entries es saw rest (panicked w') m = m
  Merged-layer entries es saw rest (returned none w') (same, none_seen, m) = absurd (cc)
  Merged-layer entries es saw rest (returned (some all) w') (same, seen, unique, found) = (
    same,
    ground arith,
    unique,
    λ name.
        found name
        ∙ ap (λ o. or_else o (first_named name rest)) (find_entry-push_new name entries es)
        ∙ or_else_assoc (find_entry name entries) (find_entry name es) (first_named name rest),
  )

  Merged-none :
      (entries : List DirEntry) (saw : Bool) (rest : List (Option (List DirEntry)))
      (out : Outcome W (Option (List DirEntry)))
      → Merged entries saw rest out
      → Merged entries saw (none ∷ rest) out
  Merged-none entries saw rest (panicked w') m = m
  Merged-none entries saw rest (returned none w') m = m
  Merged-none entries saw rest (returned (some all) w') m = m

module _ {W H : Type 0} (fs : OverlayFs W H) (path : FilePath) (w : W) where
  layer_skipped :
      (layer : LowLevelFs W H) (below : List (LowLevelFs W H)) (entries : List DirEntry)
      (saw : Bool)
      → layer.read_dir path w ≡ returned none w
      → merge_layers fs path (layer ∷ below) entries saw w
        ≡ merge_layers fs path below entries saw w
  unfolding merge_layers
  layer_skipped layer below entries saw e = ground (arith, e)

  layer_merged :
      (layer : LowLevelFs W H) (below : List (LowLevelFs W H)) (entries es : List DirEntry)
      (saw : Bool)
      → layer.read_dir path w ≡ returned (some es) w
      → merge_layers fs path (layer ∷ below) entries saw w
        ≡ merge_layers fs path below (push_new entries es) true w
  unfolding merge_layers
  layer_merged layer below entries es saw e = ground (arith, e)

  merge_layers-Merged :
      (below : List (LowLevelFs W H)) (rest : List (Option (List DirEntry)))
      (entries : List DirEntry) (saw : Bool)
      → NoRepeats entries
      → Reads path w below rest
      → Merged w entries saw rest (merge_layers fs path below entries saw w)
  unfolding merge_layers
  merge_layers-Merged [] [] entries true u r = (refl, refl, u, λ name. ground arith)
  merge_layers-Merged [] [] entries false u r = (refl, refl, refl)
  merge_layers-Merged [] (_ ∷ rest) entries saw u r = absurd r
  merge_layers-Merged (layer ∷ below) [] entries saw u r = absurd r
  merge_layers-Merged (layer ∷ below) (none ∷ rest) entries saw u (listed, r) =
      subst (Merged w entries saw (none ∷ rest))
        (sym (layer_skipped layer below entries saw listed))
        (Merged-none w entries saw rest (merge_layers fs path below entries saw w)
          (merge_layers-Merged below rest entries saw u r))
  merge_layers-Merged (layer ∷ below) (some es ∷ rest) entries saw u (listed, r) =
      subst (Merged w entries saw (some es ∷ rest))
        (sym (layer_merged layer below entries es saw listed))
        (Merged-layer w entries es saw rest
          (merge_layers fs path below (push_new entries es) true w)
          (merge_layers-Merged below rest (push_new entries es) true
            (NoRepeats-push_new entries es u) r))

  -- If every layer can be read without a change then the listing names no entry twice, each name
  -- leads to the entry of the first layer from the top that lists it, and there is no listing just
  -- when no layer has one.
  pub read_dir-Merged :
      (rest : List (Option (List DirEntry)))
      → Reads path w (layers fs) rest
      → Merged w [] false rest (read_dir fs path w)
  unfolding read_dir
  read_dir-Merged rest r = merge_layers-Merged (layers fs) rest [] false tt r
