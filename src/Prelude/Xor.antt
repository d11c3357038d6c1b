-- ===== src/Prelude/Xor.antt =====
-- `bit_xor` at variables: its lowest digit, its group laws, and its bound at every width.
use Prim.Native.Nat.{
  ℕ, zero, suc, ◌+◌, ◌*◌, ◌/◌, ◌%◌, ◌^◌, ◌≤◌, ◌<◌, bit_xor, digits, bit_xor-bitwise, differ,
}
use native.Mathlib.Nat.{two-pow-succ}
use native.Mathlib.Omega.{arith}
use mathlib.Core.Path.{◌≡◌, refl, sym, ap, ◌∙◌}

xor_fuel :
    (n m a b : ℕ) → a ≤ n → a ≤ m → digits (λ y. y) differ n a b ≡ digits (λ y. y) differ m a b
xor_fuel zero zero a b p q = refl
xor_fuel zero (suc m) zero b p q = refl
xor_fuel zero (suc m) (suc a) b p q = absurd (omega arith)
xor_fuel (suc n) zero zero b p q = refl
xor_fuel (suc n) zero (suc a) b p q = absurd (omega arith)
xor_fuel (suc n) (suc m) zero b p q = refl
xor_fuel (suc n) (suc m) (suc a) b p q =
    rw (xor_fuel n m (suc a / 2) (b / 2) (omega arith) (omega arith))

pub zero-xor : (b : ℕ) → bit_xor 0 b ≡ b
zero-xor b = bit_xor-bitwise 0 b

differ_bits : (x y : ℕ) → x < 2 → y < 2 → differ x y ≡ (x + y) % 2
differ_bits zero y p q = omega arith
differ_bits (suc zero) zero p q = refl
differ_bits (suc zero) (suc zero) p q = refl
differ_bits (suc zero) (suc (suc y)) p q = absurd (omega arith)
differ_bits (suc (suc x)) y p q = absurd (omega arith)

-- The lowest digit of the exclusive or, and the rest of it.
pub xor_step : (a b : ℕ) → bit_xor a b ≡ bit_xor (a / 2) (b / 2) * 2 + (a + b) % 2
xor_step zero b = omega (arith, zero-xor b, zero-xor (b / 2))
xor_step (suc a) b = omega (
  arith,
  bit_xor-bitwise (suc a) b,
  bit_xor-bitwise (suc a / 2) (b / 2),
  xor_fuel a (suc a / 2) (suc a / 2) (b / 2) (omega arith) (omega arith),
  differ_bits (suc a % 2) (b % 2) (omega arith) (omega arith),
)

xor_half : (a b : ℕ) → bit_xor a b / 2 ≡ bit_xor (a / 2) (b / 2)
xor_half a b = omega (arith, xor_step a b)

-- The exclusive or of two numbers of `k` digits has at most `k` digits.
pub xor-lt : (k a b : ℕ) → a < 2 ^ k → b < 2 ^ k → bit_xor a b < 2 ^ k
xor-lt zero a b p q = rw (eq_zero a p) (rw zero-xor q)
  where
    eq_zero : (n : ℕ) → n < 2 ^ 0 → n ≡ 0
    eq_zero n h = omega arith
xor-lt (suc k) a b p q = omega (
  arith,
  xor_step a b,
  two-pow-succ k,
  xor-lt k (a / 2) (b / 2) (omega (arith, two-pow-succ k)) (omega (arith, two-pow-succ k)),
)

pub xor_comm : (k a b : ℕ) → a < 2 ^ k → b < 2 ^ k → bit_xor a b ≡ bit_xor b a
xor_comm zero a b p q = cc (eq_zero a p, eq_zero b q)
  where
    eq_zero : (n : ℕ) → n < 2 ^ 0 → n ≡ 0
    eq_zero n h = omega arith
xor_comm (suc k) a b p q = omega (
  arith,
  xor_step a b,
  xor_step b a,
  xor_comm k (a / 2) (b / 2) (omega (arith, two-pow-succ k)) (omega (arith, two-pow-succ k)),
)

-- Applied twice, the same number is taken out again.
pub xor-xor_right : (k a b : ℕ) → a < 2 ^ k → b < 2 ^ k → bit_xor (bit_xor a b) b ≡ a
xor-xor_right zero a b p q = rw (eq_zero a p, eq_zero b q)
  where
    eq_zero : (n : ℕ) → n < 2 ^ 0 → n ≡ 0
    eq_zero n h = omega arith
xor-xor_right (suc k) a b p q = omega (
  arith,
  xor_step a b,
  xor_step (bit_xor a b) b,
  ap (λ (t : ℕ). bit_xor t (b / 2)) (xor_half a b),
  xor-xor_right k (a / 2) (b / 2) (omega (arith, two-pow-succ k)) (omega (arith, two-pow-succ k)),
)

-- So the exclusive or with one number is injective in the other.
pub xor_injective_left :
    (k a a' b : ℕ) → a < 2 ^ k → a' < 2 ^ k → b < 2 ^ k → bit_xor a b ≡ bit_xor a' b → a ≡ a'
xor_injective_left k a a' b p p' q e =
    sym (xor-xor_right k a b p q) ∙ ap (λ (t : ℕ). bit_xor t b) e ∙ xor-xor_right k a' b p' q
