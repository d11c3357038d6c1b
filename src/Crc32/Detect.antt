-- ===== src/Crc32/Detect.antt =====
-- How the state of the CRC depends on its start and on each byte.
use edgesync_espidf.Prelude.{
  ℕ, zero, suc, ◌/◌, ◌^◌, ◌<◌, ◌≡◌, ◌≢◌, ◌∙◌, sym, ap, inl, inr, List, [], ◌∷◌, ◌++◌, arith,
  bit_xor,
}
use edgesync_espidf.Prelude.Xor.{xor-lt, xor_comm, xor-xor_right, xor_injective_left}
use edgesync_espidf.Crc32.{
  polynomial, not32, bit_round, bit_rounds, byte_round, byte_rounds, crc32, IsBytes,
}
use edgesync_espidf.Crc32.Bounds.{bit_round_cases, bit_round-lt, byte_round-lt, byte_rounds-lt}
use edgesync_espidf.Crc32.Chain.{byte_rounds-append}

-- The top bit of the polynomial is set, so a round keeps the bit that it shifts out.
top_bit_set : (a b : ℕ) → a < 2 ^ 31 → b < 2 ^ 31 → bit_xor a polynomial ≢ b
top_bit_set a b ha hb e =
    let back : bit_xor (bit_xor polynomial a) a ≡ polynomial =
      xor-xor_right 32 polynomial a (omega arith) (omega arith) in
    let small : bit_xor b a < 2 ^ 31 = xor-lt 31 b a hb ha in
    let turn : bit_xor polynomial a ≡ b =
      xor_comm 32 polynomial a (omega arith) (omega arith) ∙ e in
    absurd (omega (arith, back, small, ap (λ (t : ℕ). bit_xor t a) turn))

bit_round_injective : (c d : ℕ) → c < 2 ^ 32 → d < 2 ^ 32 → bit_round c ≡ bit_round d → c ≡ d
bit_round_injective c d hc hd e = elim (bit_round_cases c hc) [
  | inl (c_even, ce) ↦ elim (bit_round_cases d hd) [
    | inl (d_even, de) ↦ omega arith
    | inr (d_odd, de) ↦
        absurd (top_bit_set (d / 2) (c / 2) (omega arith) (omega arith) (sym de ∙ sym e ∙ ce))
  ]
  | inr (c_odd, ce) ↦ elim (bit_round_cases d hd) [
    | inl (d_even, de) ↦
        absurd (top_bit_set (c / 2) (d / 2) (omega arith) (omega arith) (sym ce ∙ e ∙ de))
    | inr (d_odd, de) ↦
        let halves : c / 2 ≡ d / 2 =
          xor_injective_left 32 (c / 2) (d / 2) polynomial (omega arith) (omega arith) (omega arith)
            (sym ce ∙ e ∙ de) in
        omega arith
  ]
]

bit_rounds_injective :
    (left c d : ℕ) → c < 2 ^ 32 → d < 2 ^ 32 → bit_rounds left c ≡ bit_rounds left d → c ≡ d
unfolding bit_rounds
bit_rounds_injective zero c d hc hd e = e
bit_rounds_injective (suc left) c d hc hd e = bit_round_injective c d hc hd (
    bit_rounds_injective left (bit_round c) (bit_round d) (bit_round-lt c hc) (bit_round-lt d hd) e)

-- Injective in the state, for one byte, and in the byte, for one state.
byte_round_injective_state :
    (c d byte : ℕ)
    → c < 2 ^ 32
    → d < 2 ^ 32
    → byte < 256
    → byte_round c byte ≡ byte_round d byte
    → c ≡ d
unfolding byte_round
byte_round_injective_state c d byte hc hd hb e =
    xor_injective_left 32 c d byte hc hd (omega arith) (
      bit_rounds_injective 8 (bit_xor c byte) (bit_xor d byte) (xor-lt 32 c byte hc (omega arith))
        (xor-lt 32 d byte hd (omega arith)) e)

byte_round_injective_byte :
    (c a b : ℕ) → c < 2 ^ 32 → a < 256 → b < 256 → byte_round c a ≡ byte_round c b → a ≡ b
unfolding byte_round
byte_round_injective_byte c a b hc ha hb e =
    let same : bit_xor c a ≡ bit_xor c b =
      bit_rounds_injective 8 (bit_xor c a) (bit_xor c b) (xor-lt 32 c a hc (omega arith))
        (xor-lt 32 c b hc (omega arith)) e in
    xor_injective_left 32 a b c (omega arith) (omega arith) hc
      (xor_comm 32 a c (omega arith) hc ∙ same ∙ xor_comm 32 c b hc (omega arith))

byte_rounds_injective :
    (bytes : List ℕ) (c d : ℕ)
    → c < 2 ^ 32
    → d < 2 ^ 32
    → IsBytes bytes
    → byte_rounds c bytes ≡ byte_rounds d bytes
    → c ≡ d
unfolding byte_rounds
byte_rounds_injective [] c d hc hd v e = e
byte_rounds_injective (x ∷ bytes) c d hc hd v e = byte_round_injective_state c d x hc hd v.0 (
    byte_rounds_injective bytes (byte_round c x) (byte_round d x) (byte_round-lt c x hc v.0)
      (byte_round-lt d x hd v.0) v.1 e)

-- Two byte strings that differ in exactly one byte, wherever it stands, have different CRCs, from
-- any seed.
pub crc32_detects_byte :
    (seed : ℕ) (before : List ℕ) (a b : ℕ) (after : List ℕ)
    → IsBytes before
    → a < 256
    → b < 256
    → IsBytes after
    → a ≢ b
    → crc32 seed (before ++ a ∷ after) ≢ crc32 seed (before ++ b ∷ after)
unfolding crc32 byte_rounds
crc32_detects_byte seed before a b after vb ha hb va ne e = ne (
    let c = byte_rounds (not32 seed) before in
    let hc : c < 2 ^ 32 = byte_rounds-lt before (not32 seed) (omega arith) vb in
    byte_round_injective_byte c a b hc ha hb (
      byte_rounds_injective after (byte_round c a) (byte_round c b) (byte_round-lt c a hc ha)
        (byte_round-lt c b hc hb) va
        (omega (
          arith,
          e,
          byte_rounds-append before (a ∷ after) (not32 seed),
          byte_rounds-append before (b ∷ after) (not32 seed),
          byte_rounds-lt after (byte_round c a) (byte_round-lt c a hc ha) va,
          byte_rounds-lt after (byte_round c b) (byte_round-lt c b hc hb) va,
        ))))
