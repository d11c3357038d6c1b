-- ===== src/Nvs/Keys.antt =====
-- The keys of the slots.
use edgesync_espidf.Prelude.{ℕ, ◌<◌, ◌≡◌, ap, Option, none, some, get_elem?, arith}
use edgesync_espidf.Nvs.{slot_key}

abbrev byte_of : Option ℕ → ℕ
byte_of none = 0
byte_of (some b) = b

-- Two slots below 100000 with the same key are the same slot: no blob is overwritten or erased through the
-- key of another.
pub slot_key-injective : (a b : ℕ) → a < 100000 → b < 100000 → slot_key a ≡ slot_key b → a ≡ b
unfolding slot_key
slot_key-injective a b fits fits' e =
    let d₁ = ap (λ k. byte_of (get_elem? k 1)) e in
    let d₂ = ap (λ k. byte_of (get_elem? k 2)) e in
    let d₃ = ap (λ k. byte_of (get_elem? k 3)) e in
    let d₄ = ap (λ k. byte_of (get_elem? k 4)) e in
    let d₅ = ap (λ k. byte_of (get_elem? k 5)) e in omega (arith, d₁, d₂, d₃, d₄, d₅)
