-- ===== src/Prelude/Words.antt =====
-- C's fixed-width unsigned arithmetic, the wrap written out, and the order of signed 64-bit
-- integers on their bit patterns.
use Prim.Native.Nat.{ℕ, ◌+◌, ◌-◌, ◌%◌, ◌^◌, compare, Ordering}
use mathlib.Core.Bool.{Bool, true, false}

abbrev pub u8 : ℕ → ℕ
u8 n = n % 2 ^ 8

abbrev pub u16 : ℕ → ℕ
u16 n = n % 2 ^ 16

abbrev pub u32 : ℕ → ℕ
u32 n = n % 2 ^ 32

abbrev pub u64 : ℕ → ℕ
u64 n = n % 2 ^ 64

-- `a - b` in uint32_t; `-` on ℕ stops at 0, so the modulus is added first.
abbrev pub sub32 : ℕ → ℕ → ℕ
sub32 a b = u32 (a + 2 ^ 32 - b)

-- An int64_t is its bit pattern below 2 ^ 64. Moving it by half the range turns the signed order
-- into the order of numbers.
abbrev pub bias64 : ℕ → ℕ
bias64 w = u64 (w + 2 ^ 63)

-- `a < b` on int64_t.
abbrev pub ltb_i64 : ℕ → ℕ → Bool
ltb_i64 a b = elim (compare (bias64 a) (bias64 b)) [ Ordering.lt ↦ true | _ ↦ false ]
