-- ===== src/Common/Int.antt =====
-- Integers over the native numbers: `negsuc n` is -(n + 1).
use Prim.Native.Nat.{ℕ, zero, suc, ◌+◌, ◌-◌, ◌*◌, ◌%◌, ◌^◌}
use mathlib.Core.Bool.{Bool, true, false, ◌&&◌}
use pimc_toolkit.Common.Tests.{ltb, leb, if◌then◌else◌}

pub data ℤ : Type 0 where
  pos : ℕ → ℤ
  negsuc : ℕ → ℤ

-- a - b, as an integer.
abbrev pub sub_ℕ : ℕ → ℕ → ℤ
sub_ℕ a b = if leb b a then pos (a - b) else negsuc (b - a - 1)

abbrev pub neg : ℤ → ℤ
neg (pos zero) = pos 0
neg (pos (suc n)) = negsuc n
neg (negsuc n) = pos (suc n)

-- a * 10 + d
abbrev pub shift_in : ℤ → ℕ → ℤ
shift_in (pos n) d = pos (n * 10 + d)
shift_in (negsuc n) d = sub_ℕ d ((n + 1) * 10)

-- Whether the integer is one of `w` bits in two's complement.
abbrev pub is_signed : ℕ → ℤ → Bool
is_signed w (pos n) = ltb n (2 ^ (w - 1))
is_signed w (negsuc n) = ltb n (2 ^ (w - 1))

-- The value of a bit pattern of `w` bits.
abbrev pub of_pattern : ℕ → ℕ → ℤ
of_pattern w r = if ltb r (2 ^ (w - 1)) then pos r else negsuc (2 ^ w - r - 1)

-- Conversion to a signed type of `w` bits: modulo 2 ^ w.
abbrev pub narrow : ℕ → ℤ → ℤ
narrow w (pos n) = of_pattern w (n % 2 ^ w)
narrow w (negsuc n) = of_pattern w (2 ^ w - 1 - n % 2 ^ w)

abbrev pub ltℤ : ℤ → ℕ → Bool
ltℤ (pos n) m = ltb n m
ltℤ (negsuc n) m = true

abbrev pub eqℤ : ℤ → ℕ → Bool
eqℤ (pos n) m = leb n m && leb m n
eqℤ (negsuc n) m = false
