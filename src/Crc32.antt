-- ===== src/Crc32.antt =====
-- components/edgesync/src/edgesync_crc32.c: the bit-wise CRC-32 (IEEE 802.3, reflected).
-- A uint32_t is a number below 2 ^ 32, a byte one below 256; `~x` is `2 ^ 32 - 1 - x`.
pub mod Bounds
pub mod Chain
pub mod Detect
mod Tests
use edgesync_espidf.Prelude.{
  ℕ, zero, suc, ◌-◌, ◌/◌, ◌%◌, ◌^◌, ◌<◌, List, [], ◌∷◌, All, bit_and, bit_xor, sub32,
}

abbrev pub polynomial : ℕ
polynomial = 0xEDB88320

abbrev pub not32 : ℕ → ℕ
not32 x = 2 ^ 32 - 1 - x

-- The body of the loop over `bit`.
unfoldable pub bit_round : ℕ → ℕ
bit_round crc = let mask = sub32 0 (crc % 2) in bit_xor (crc / 2) (bit_and polynomial mask)

-- The loop over `bit`, with `left` rounds to go.
unfoldable pub bit_rounds : ℕ → ℕ → ℕ
bit_rounds zero crc = crc
bit_rounds (suc left) crc = bit_rounds left (bit_round crc)

-- The body of the loop over `i`, for the byte `p[i]`.
unfoldable pub byte_round : ℕ → ℕ → ℕ
byte_round crc byte = bit_rounds 8 (bit_xor crc byte)

-- The loop over `i`.
unfoldable pub byte_rounds : ℕ → List ℕ → ℕ
byte_rounds crc [] = crc
byte_rounds crc (byte ∷ rest) = byte_rounds (byte_round crc byte) rest

-- edgesync_crc32
unfoldable pub crc32 : ℕ → List ℕ → ℕ
crc32 seed bytes = not32 (byte_rounds (not32 seed) bytes)

-- What a uint8_t buffer holds.
abbrev pub IsBytes : List ℕ → Type 0
IsBytes bytes = All (λ b. b < 256) bytes
