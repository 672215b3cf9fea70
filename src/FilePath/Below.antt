-- ===== src/FilePath/Below.antt =====
-- Paths of names, and such a path below another.
use sandbox_vfs.Base.{◌≡◌, ◌≢◌, refl, ap, true, false, [], ◌∷◌, ◌++◌, arith, Bytes}
use sandbox_vfs.FilePath.{FilePath, root_dir, cur_dir, parent_dir, normal, is_absolute, join}
use sandbox_vfs.FilePath.Normal.{AllNames, IsNormal}

-- A path of names that is not empty, as its parent and its last name.
pub last_name :
    (p : FilePath)
    → AllNames p
    → p ≢ []
    → (up : FilePath) × (n : Bytes) × AllNames up × (p ≡ up ++ normal n ∷ [])
last_name [] a ne = absurd (ne refl)
last_name (normal n ∷ []) a ne = ([], n, tt, refl)
last_name (normal m ∷ c ∷ p) a ne =
    let (up, n, b, e) = last_name (c ∷ p) a (λ x. cc) in
    (normal m ∷ up, n, b, ap (◌∷◌ (normal m)) e)
last_name (root_dir ∷ p) a ne = absurd a
last_name (cur_dir ∷ p) a ne = absurd a
last_name (parent_dir ∷ p) a ne = absurd a

pub is_relative : (p : FilePath) → AllNames p → is_absolute p ≡ false
is_relative [] a = refl
is_relative (normal n ∷ p) a = refl
is_relative (root_dir ∷ p) a = absurd a
is_relative (cur_dir ∷ p) a = absurd a
is_relative (parent_dir ∷ p) a = absurd a

pub join-names : (b p : FilePath) → IsNormal b → AllNames p → join b p ≡ b ++ p
unfolding join
join-names (root_dir ∷ b) [] a n = refl
join-names (root_dir ∷ b) (normal m ∷ p) a n = refl
join-names b p a n = ground arith

AllNames-append : (b p : FilePath) → AllNames b → AllNames p → AllNames (b ++ p)
AllNames-append [] p a n = n
AllNames-append (normal m ∷ b) p a n = AllNames-append b p a n
AllNames-append (root_dir ∷ b) p a n = absurd a
AllNames-append (cur_dir ∷ b) p a n = absurd a
AllNames-append (parent_dir ∷ b) p a n = absurd a

pub IsNormal-append : (b p : FilePath) → IsNormal b → AllNames p → IsNormal (b ++ p)
IsNormal-append (root_dir ∷ b) p a n = AllNames-append b p a n
IsNormal-append [] p a n = absurd a
IsNormal-append (normal m ∷ b) p a n = absurd a
IsNormal-append (cur_dir ∷ b) p a n = absurd a
IsNormal-append (parent_dir ∷ b) p a n = absurd a

pub absolute_normal : (p : FilePath) → IsNormal p → is_absolute p ≡ true
absolute_normal (root_dir ∷ p) a = refl
absolute_normal p a = ground arith

pub is_absolute-append : (b p : FilePath) → is_absolute b ≡ true → is_absolute (b ++ p) ≡ true
is_absolute-append (root_dir ∷ b) p a = refl
is_absolute-append b p a = ground arith
