-- ===== src/Crc32/Tests.antt =====
-- The check value of CRC-32 (test_host/test_crc32.c), and corrupted strings.
use edgesync_espidf.Prelude.{ℕ, ◌≡◌, ◌≢◌, refl, List, [], ◌∷◌, ◌++◌, arith}
use edgesync_espidf.Crc32.{IsBytes, crc32, byte_rounds, byte_round, bit_rounds, bit_round}
use edgesync_espidf.Crc32.Bounds.{are_bytes-IsBytes}
use edgesync_espidf.Crc32.Chain.{crc32-append}
use edgesync_espidf.Crc32.Detect.{crc32_detects_byte}

-- "1234", "56789".
abbrev left : List ℕ
left = 49 ∷ 50 ∷ 51 ∷ 52 ∷ []

abbrev right : List ℕ
right = 53 ∷ 54 ∷ 55 ∷ 56 ∷ 57 ∷ []

check_value : crc32 0 (left ++ right) ≡ 0xCBF43926
unfolding crc32 byte_rounds byte_round bit_rounds bit_round
check_value = refl

left-IsBytes : IsBytes left
left-IsBytes = are_bytes-IsBytes left refl

right-IsBytes : IsBytes right
right-IsBytes = are_bytes-IsBytes right refl

crc32-append_example : crc32 0 (left ++ right) ≡ crc32 (crc32 0 left) right
crc32-append_example = crc32-append 0 left right left-IsBytes

crc32_detects_byte_example : crc32 0 (left ++ 7 ∷ right) ≢ crc32 0 (left ++ 8 ∷ right)
crc32_detects_byte_example =
    crc32_detects_byte 0 left 7 8 right left-IsBytes (omega arith) (omega arith) right-IsBytes
      (omega arith)
