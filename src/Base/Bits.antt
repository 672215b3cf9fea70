-- ===== src/Base/Bits.antt =====
-- Flag words: tests and masks on the bit patterns of C integers.
use Prim.Native.Nat.{ℕ, ◌-◌, ◌^◌, bit_and}
use mathlib.Core.Bool.{Bool, not}
use sandbox_vfs.Base.Tests.{◌==◌}

-- x & f != 0
abbrev pub has_flag : ℕ → ℕ → Bool
has_flag x f = not (bit_and x f == 0)

-- x & !f, on 32 bits
abbrev pub clear_flags : ℕ → ℕ → ℕ
clear_flags x f = bit_and x (2 ^ 32 - 1 - f)
