-- ===== src/Id/Hex.antt =====
-- The hexadecimal form of an identifier, read back.
use edgesync_espidf.Prelude.{
  ℕ, ◌++◌, take, sym, take-append_of, get_elem?, Bool, true, false, not, ◌&&◌, zero, suc, ◌+◌, ◌*◌,
  ◌-◌, ◌/◌, ◌%◌, ◌^◌, ◌<◌, ◌≡◌, refl, ◌∙◌, ap, none, some, List, [], ◌∷◌, length, ltb, ◌==◌,
  if◌then◌else◌, arith,
}
use edgesync_espidf.Id.{digit, digits, hex_loop, id_to_hex}

-- The value of a hexadecimal digit in ASCII.
abbrev pub digit_value : ℕ → ℕ
digit_value c = if ltb c 58 then c - 48 else c - 87

-- Positional notation, up to the NUL.
pub hex_value : List ℕ → ℕ → ℕ
hex_value [] v = v
hex_value (c ∷ cs) v = if c == 0 then v else hex_value cs (v * 16 + digit_value c)

abbrev char_at : List ℕ → ℕ → ℕ
char_at cs k = elim (get_elem? cs k) [ none ↦ 0 | some c ↦ c ]

-- Whether the digits of a table have the values `k`, `k + 1` and so on, and none is the NUL.
reads_back : List ℕ → ℕ → Bool
reads_back [] k = true
reads_back (c ∷ cs) k = ((digit_value c == k) && not (c == 0)) && reads_back cs (suc k)

reads_back-at :
    (cs : List ℕ) (k j : ℕ)
    → reads_back cs k ≡ true
    → j < length cs
    → (digit_value (char_at cs j) ≡ k + j) × ((char_at cs j == 0) ≡ false)
unfolding reads_back
reads_back-at [] k j h bound = absurd (omega arith)
reads_back-at (c ∷ cs) k zero h bound = (ground arith, ground arith)
reads_back-at (c ∷ cs) k (suc j) h bound =
    let (value, nonzero) = reads_back-at cs (suc k) j (ground arith) (omega arith) in
    (value ∙ omega arith, nonzero)

digits_read_back : reads_back digits 0 ≡ true
unfolding reads_back
digits_read_back = refl

digit_reads_back : (k : ℕ) → k < 16 → (digit_value (digit k) ≡ k) × ((digit k == 0) ≡ false)
digit_reads_back k h =
    let (value, nonzero) = reads_back-at digits 0 k digits_read_back h in
    (value ∙ omega arith, nonzero)

hex_value-digit :
    (k v : ℕ) (out : List ℕ) → k < 16 → hex_value (digit k ∷ out) v ≡ hex_value out (v * 16 + k)
unfolding hex_value
hex_value-digit k v out h = let (value, nonzero) = digit_reads_back k h in rw (nonzero, value) refl

hex_value-hex_loop :
    (rounds id : ℕ) (out : List ℕ)
    → id < 16 ^ rounds
    → hex_value (hex_loop rounds id out) 0 ≡ hex_value out id
unfolding hex_loop
hex_value-hex_loop zero id out h = ap (hex_value out) (omega arith)
hex_value-hex_loop (suc rounds) id out h =
    hex_value-hex_loop rounds (id / 16) (digit (id % 16) ∷ out) (omega arith)
    ∙ hex_value-digit (id % 16) (id / 16) out (omega arith)
    ∙ ap (hex_value out) (omega arith)

length-hex_loop :
    (rounds id : ℕ) (out : List ℕ) → length (hex_loop rounds id out) ≡ rounds + length out
unfolding hex_loop
length-hex_loop zero id out = omega arith
length-hex_loop (suc rounds) id out =
    length-hex_loop rounds (id / 16) (digit (id % 16) ∷ out) ∙ omega arith

-- For every 64-bit identifier, edgesync_id_to_hex fills exactly the 17 bytes of its buffer, and the
-- hexadecimal number that stands before the first NUL is the identifier.
pub hex_value-id_to_hex :
    (id : ℕ) → id < 2 ^ 64 → (length (id_to_hex id) ≡ 17) × (hex_value (id_to_hex id) 0 ≡ id)
unfolding id_to_hex hex_value
hex_value-id_to_hex id h = (length-hex_loop 16 id (0 ∷ []), hex_value-hex_loop 16 id (0 ∷ []) h)

hex_loop-append :
    (rounds id : ℕ) (xs ys : List ℕ) → hex_loop rounds id (xs ++ ys) ≡ hex_loop rounds id xs ++ ys
unfolding hex_loop
hex_loop-append zero id xs ys = refl
hex_loop-append (suc rounds) id xs ys = hex_loop-append rounds (id / 16) (digit (id % 16) ∷ xs) ys

-- The string in the buffer, with its NUL.
pub take-id_to_hex : (id : ℕ) → take 16 (id_to_hex id) ++ 0 ∷ [] ≡ id_to_hex id
unfolding id_to_hex
take-id_to_hex id =
    let split : hex_loop 16 id (0 ∷ []) ≡ hex_loop 16 id [] ++ 0 ∷ [] =
      hex_loop-append 16 id [] (0 ∷ []) in
    ap (λ bs. take 16 bs ++ 0 ∷ []) split
    ∙ ap (λ bs. bs ++ 0 ∷ [])
        (take-append_of 16 (hex_loop 16 id []) (0 ∷ []) (length-hex_loop 16 id []))
    ∙ sym split
