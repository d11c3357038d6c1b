-- ===== src/Crc32/Chain.antt =====
-- A CRC computed piece by piece: the result of one call is the seed of the next.
use edgesync_espidf.Prelude.{ℕ, ◌^◌, ◌<◌, ◌≡◌, refl, List, [], ◌∷◌, ◌++◌, arith}
use edgesync_espidf.Crc32.{not32, byte_round, byte_rounds, crc32, IsBytes}
use edgesync_espidf.Crc32.Bounds.{byte_rounds-lt}

pub byte_rounds-append :
    (xs ys : List ℕ) (crc : ℕ) → byte_rounds crc (xs ++ ys) ≡ byte_rounds (byte_rounds crc xs) ys
unfolding byte_rounds
byte_rounds-append [] ys crc = refl
byte_rounds-append (x ∷ xs) ys crc = byte_rounds-append xs ys (byte_round crc x)

not32-not32 : (x : ℕ) → x < 2 ^ 32 → not32 (not32 x) ≡ x
not32-not32 x h = omega arith

-- The CRC of a concatenation of two byte strings is the CRC of the second, seeded with the CRC of
-- the first.
pub crc32-append :
    (seed : ℕ) (xs ys : List ℕ) → IsBytes xs → crc32 seed (xs ++ ys) ≡ crc32 (crc32 seed xs) ys
unfolding crc32
crc32-append seed xs ys v =
    rw byte_rounds-append (rw (not32-not32 _ (byte_rounds-lt xs (not32 seed) (omega arith) v)))
