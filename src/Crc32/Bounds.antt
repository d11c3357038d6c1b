-- ===== src/Crc32/Bounds.antt =====
-- The range of the intermediate values of edgesync_crc32.
use edgesync_espidf.Prelude.{
  Bool, true, false, if◌then◌else◌, ltb, ℕ, zero, suc, ◌/◌, ◌%◌, ◌^◌, ◌<◌, ◌≡◌, ◌∙◌, ◌⊎◌, inl, inr,
  List, [], ◌∷◌, arith, bit_xor,
}
use edgesync_espidf.Prelude.Xor.{xor-lt, zero-xor, xor_comm}
use edgesync_espidf.Crc32.{
  polynomial, bit_round, bit_rounds, byte_round, byte_rounds, crc32, IsBytes,
}

pub xor-zero : (k a : ℕ) → 0 < 2 ^ k → a < 2 ^ k → bit_xor a 0 ≡ a
xor-zero k a z h = xor_comm k a 0 h z ∙ zero-xor a

mod_two : (n : ℕ) → (n % 2 ≡ 0) ⊎ (n % 2 ≡ 1)
mod_two n = omega arith

-- One round, on an even and on an odd remainder.
pub bit_round_cases :
    (crc : ℕ)
    → crc < 2 ^ 32
    → ((crc % 2 ≡ 0) × (bit_round crc ≡ crc / 2))
      ⊎ ((crc % 2 ≡ 1) × (bit_round crc ≡ bit_xor (crc / 2) polynomial))
unfolding bit_round
bit_round_cases crc h = elim (mod_two crc) [
  | inl even ↦ inl (even, rw even (xor-zero 32 (crc / 2) (omega arith) (omega arith)))
  | inr odd ↦ inr (odd, rw odd)
]

pub bit_round-lt : (crc : ℕ) → crc < 2 ^ 32 → bit_round crc < 2 ^ 32
bit_round-lt crc h = elim (bit_round_cases crc h) [
  | inl (even, e) ↦ omega arith
  | inr (odd, e) ↦ rw e (xor-lt 32 (crc / 2) polynomial (omega arith) (omega arith))
]

pub bit_rounds-lt : (left crc : ℕ) → crc < 2 ^ 32 → bit_rounds left crc < 2 ^ 32
unfolding bit_rounds
bit_rounds-lt zero crc h = h
bit_rounds-lt (suc left) crc h = bit_rounds-lt left (bit_round crc) (bit_round-lt crc h)

pub byte_round-lt : (crc byte : ℕ) → crc < 2 ^ 32 → byte < 256 → byte_round crc byte < 2 ^ 32
unfolding byte_round
byte_round-lt crc byte h b = bit_rounds-lt 8 (bit_xor crc byte) (xor-lt 32 crc byte h (omega arith))

pub byte_rounds-lt :
    (bytes : List ℕ) (crc : ℕ) → crc < 2 ^ 32 → IsBytes bytes → byte_rounds crc bytes < 2 ^ 32
unfolding byte_rounds
byte_rounds-lt [] crc h v = h
byte_rounds-lt (b ∷ bytes) crc h v =
    byte_rounds-lt bytes (byte_round crc b) (byte_round-lt crc b h v.0) v.1

pub crc32-lt : (seed : ℕ) (bytes : List ℕ) → crc32 seed bytes < 2 ^ 32
unfolding crc32
crc32-lt seed bytes = omega arith

-- A list of bytes, decided.
abbrev pub are_bytes : List ℕ → Bool
are_bytes [] = true
are_bytes (b ∷ bytes) = if ltb b 256 then are_bytes bytes else false

pub are_bytes-IsBytes : (bytes : List ℕ) → are_bytes bytes ≡ true → IsBytes bytes
are_bytes-IsBytes [] e = tt
are_bytes-IsBytes (b ∷ bytes) e = (ground arith, are_bytes-IsBytes bytes (ground arith))
