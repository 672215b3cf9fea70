-- ===== src/Dirents/Lengths.antt =====
-- The length of a record of src/linux_dirents.rs: what it holds, rounded up to a multiple of 8.
use Prim.Native.Nat.{
  ℕ, zero, suc, ◌+◌, ◌*◌, ◌-◌, ◌/◌, ◌%◌, ◌^◌, ◌≤◌, min, bit_and, digits, bit_and-bitwise,
}
use sandbox_vfs.Base.{
  ◌≡◌, refl, ap, ◌∙◌, arith, Bytes, length, length-append, length-replicate, replicate, ◌++◌, ◌∷◌,
}
use sandbox_vfs.Filesystem.{DirEntry}
use sandbox_vfs.Dirents.{align_to, record_length, le_bytes, record_bytes, dirent_type}

-- The common digits of `a` and `b`, with as many steps as `fuel` allows.
abbrev common : ℕ → ℕ → ℕ → ℕ
common fuel a b = digits (λ b. zero) min fuel a b

common_enough : (m n a b : ℕ) → a ≤ m → a ≤ n → common m a b ≡ common n a b
common_enough zero zero a b h k = refl
common_enough zero (suc n) zero b h k = refl
common_enough (suc m) zero zero b h k = refl
common_enough (suc m) (suc n) zero b h k = refl
common_enough zero (suc n) (suc a) b h k = absurd (omega arith)
common_enough (suc m) zero (suc a) b h k = absurd (omega arith)
common_enough (suc m) (suc n) (suc a) b h k =
    let next = common_enough m n (suc a / 2) (b / 2) (omega arith) (omega arith) in omega arith

halves : (a b : ℕ) → bit_and a b ≡ bit_and (a / 2) (b / 2) * 2 + min (a % 2) (b % 2)
halves zero b = omega (arith, bit_and-bitwise 0 b, bit_and-bitwise 0 (b / 2))
halves (suc a) b =
    let below = common_enough a (suc a / 2) (suc a / 2) (b / 2) (omega arith) (omega arith) in
    omega (arith, bit_and-bitwise (suc a) b, bit_and-bitwise (suc a / 2) (b / 2))

-- `k` ones
abbrev ones : ℕ → ℕ
ones zero = 0
ones (suc k) = ones k * 2 + 1

half-ones : (n : ℕ) → (n * 2 + 1) / 2 ≡ n
half-ones n = omega arith

bit_and-ones : (k a : ℕ) → a ≤ ones k → bit_and a (ones k) ≡ a
bit_and-ones zero zero h = refl
bit_and-ones zero (suc a) h = absurd (omega arith)
bit_and-ones (suc k) a h =
    halves a (ones k * 2 + 1)
    ∙ rw (half-ones (ones k), bit_and-ones k (a / 2) (omega arith)) (omega arith)

pub align_to_eight : (v : ℕ) → v + 8 ≤ 2 ^ 64 → align_to v 8 ≡ (v + 7) / 8 * 8
unfolding align_to
align_to_eight v h =
    let size = v + 7 in
    ap (λ x. bit_and x 18446744073709551608) (omega arith)
    ∙ halves size 18446744073709551608
    ∙ omega (
      arith,
      halves (size / 2) 9223372036854775804,
      halves (size / 2 / 2) 4611686018427387902,
      bit_and-ones 61 (size / 2 / 2 / 2) (omega arith),
    )

pub length-le_bytes : (n v : ℕ) → length (le_bytes n v) ≡ n
unfolding le_bytes
length-le_bytes zero v = refl
length-le_bytes (suc n) v = ap suc (length-le_bytes n (v / 256))

module _ (ino next : ℕ) (e : DirEntry) (fits : length e.name + 28 ≤ 2 ^ 64) where
  abbrev reclen : ℕ
  reclen = record_length e.name

  abbrev pad : ℕ
  pad = reclen - (19 + length e.name + 1)

  abbrev name_field : Bytes
  name_field = e.name ++ (0 ∷ replicate pad 0)

  pub length-record_bytes : length (record_bytes ino next reclen e) ≡ reclen
  unfolding record_bytes record_length
  length-record_bytes = omega (
    arith,
    length-append (le_bytes 8 ino)
        (le_bytes 8 next ++ (le_bytes 2 reclen ++ (dirent_type e.kind ∷ name_field))),
    length-append (le_bytes 8 next) (le_bytes 2 reclen ++ (dirent_type e.kind ∷ name_field)),
    length-append (le_bytes 2 reclen) (dirent_type e.kind ∷ name_field),
    length-append e.name (0 ∷ replicate pad 0),
    length-le_bytes 8 ino,
    length-le_bytes 8 next,
    length-le_bytes 2 reclen,
    length-replicate {A = ℕ} pad 0,
    align_to_eight (19 + length e.name + 1) (omega arith),
  )
