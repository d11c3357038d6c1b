-- ===== src/Id.antt =====
-- components/edgesync/src/edgesync_id.c: message identifiers.
pub mod Hex
mod Tests
use edgesync_espidf.Prelude.{
  ℕ, zero, suc, ◌+◌, ◌/◌, ◌%◌, Option, none, some, List, [], ◌∷◌, get_elem?, ◌==◌, if◌then◌else◌,
}
use edgesync_espidf.Types.{id_invalid}

-- edgesync_id_generate, for the values that esp_fill_random gives one after the other; `none` while
-- each of them is EDGESYNC_MESSAGE_ID_INVALID.
unfoldable pub generate : List ℕ → Option ℕ
generate [] = none
generate (id ∷ draws) = if id == id_invalid then generate draws else some id

-- `digits`: "0123456789abcdef"
abbrev pub digits : List ℕ
digits = 48 ∷ 49 ∷ 50 ∷ 51 ∷ 52 ∷ 53 ∷ 54 ∷ 55 ∷ 56 ∷ 57 ∷ 97 ∷ 98 ∷ 99 ∷ 100 ∷ 101 ∷ 102 ∷ []

abbrev pub digit : ℕ → ℕ
digit k = elim (get_elem? digits k) [ none ↦ 0 | some c ↦ c ]

-- The loop over `i`: `rounds` places are left, and `out` holds those to their right.
pub hex_loop : ℕ → ℕ → List ℕ → List ℕ
hex_loop zero id out = out
hex_loop (suc rounds) id out = hex_loop rounds (id / 16) (digit (id % 16) ∷ out)

-- edgesync_id_to_hex: the 17 bytes of `out`.
unfoldable pub id_to_hex : ℕ → List ℕ
id_to_hex id = hex_loop 16 id (0 ∷ [])
