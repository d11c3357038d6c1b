-- ===== src/Format/Corruption.antt =====
-- A stored record with one wrong byte, before decode_header and verify_body.
use edgesync_espidf.Prelude.{
  ℕ, ◌+◌, ◌-◌, ◌^◌, ◌≤◌, ◌<◌, ◌≡◌, ◌≢◌, refl, sym, ◌∙◌, ap, none, some, true, false, List, [], ◌∷◌,
  ◌++◌, length, take, drop, replicate, length-take, length-drop, length-append, drop-drop,
  take-take-drop, take-append_after, drop-append_after, take-append_before, drop-append_before,
  All-take, All-drop, All-append, append_middle_injective, arith, u32, inl, inr, Bool-cases,
  Option-cases, dec_lt,
}
use mathlib.Core.List.{append_assoc, append-nil}
use edgesync_espidf.Crc32.{crc32, IsBytes}
use edgesync_espidf.Crc32.Detect.{crc32_detects_byte}
use edgesync_espidf.Format.{
  Header, header_front, header_bytes, header_of_bytes, crc_of_header, decode_header, verify_body,
  le_bytes, le_value, get_field, hdr_size, rec_magic,
}
use edgesync_espidf.Format.Bytes.{le_bytes-le_value, le_value_injective}

-- Bytes read as a field and written again, with what follows them.
field_then :
    (w n : ℕ) (x : List ℕ)
    → IsBytes x
    → w ≤ length x
    → le_bytes w (le_value (take w x)) ++ take n (drop w x) ≡ take (w + n) x
field_then w n x v h =
    let len : length (take w x) ≡ w = omega (arith, length-take w x) in
    ap (λ (t : List ℕ). t ++ take n (drop w x))
      (ap (λ (k : ℕ). le_bytes k (le_value (take w x))) (sym len)
        ∙ le_bytes-le_value (take w x) (All-take _ w x v))
    ∙ take-take-drop w n x

module _ (x : List ℕ) (v : IsBytes x) (h : hdr_size ≤ length x) where
  -- The same for a field inside the struct, given the bytes that follow it.
  field_step :
      (off w n : ℕ) (rest : List ℕ)
      → off + w ≤ 58
      → rest ≡ take n (drop (off + w) x)
      → le_bytes w (get_field x off w) ++ rest ≡ take (w + n) (drop off x)
  field_step off w n rest fits e =
      ap (λ (t : List ℕ). le_bytes w (get_field x off w) ++ t)
        (e ∙ ap (take n) (sym (drop-drop off w x)))
      ∙ field_then w n (drop off x) (All-drop _ off x v) (omega (arith, length-drop off x))

  -- The struct that was copied out of a buffer has the buffer's bytes before its CRC.
  header_front-header_of_bytes : header_front (header_of_bytes x) ≡ take 58 x
  unfolding header_front header_of_bytes
  header_front-header_of_bytes = field_step 0 4 54 _ (omega arith) (
      field_step 4 4 50 _ (omega arith) (
        field_step 8 1 49 _ (omega arith) (
          field_step 9 1 48 _ (omega arith) (
            field_step 10 1 47 _ (omega arith) (
              field_step 11 1 46 _ (omega arith) (
                field_step 12 8 38 _ (omega arith) (
                  field_step 20 4 34 _ (omega arith) (
                    field_step 24 8 26 _ (omega arith) (
                      field_step 32 8 18 _ (omega arith) (
                        field_step 40 8 10 _ (omega arith) (
                          field_step 48 4 6 _ (omega arith) (
                            field_step 52 2 4 _ (omega arith)
                              (field_step 54 4 0 [] (omega arith) refl)))))))))))))

  -- So the CRC that the decoder computes is that of the buffer's bytes, the last field zeroed.
  crc_of_header-header_of_bytes :
      crc_of_header (header_of_bytes x) ≡ crc32 0 (take 58 x ++ replicate 4 0)
  unfolding crc_of_header header_bytes
  crc_of_header-header_of_bytes =
      ap (λ (t : List ℕ). crc32 0 (t ++ replicate 4 0)) header_front-header_of_bytes

-- What acceptance means.
pub decode_header-accepts :
    (x : List ℕ) {h : Header}
    → decode_header x ≡ some h
    → (hdr_size ≤ length x)
      × ((header_of_bytes x).magic ≡ rec_magic)
      × (crc_of_header (header_of_bytes x) ≡ (header_of_bytes x).header_crc)
      × (header_of_bytes x ≡ h)
unfolding decode_header
decode_header-accepts x e = (ground arith, ground arith, ground arith, ground arith)

-- The CRC of an accepted buffer's front is the number that its last field holds.
accepted_crc :
    (x : List ℕ) {h : Header}
    → IsBytes x
    → decode_header x ≡ some h
    → crc32 0 (take 58 x ++ replicate 4 0) ≡ get_field x 58 4
unfolding header_of_bytes
accepted_crc x v e =
    let a = decode_header-accepts x e in sym (crc_of_header-header_of_bytes x v a.0) ∙ a.2

-- The same for a body that passes.
verified_crc :
    (h : Header) (x : List ℕ)
    → h.destination_len + h.body_len + 4 < 2 ^ 32
    → verify_body h x ≡ true
    → (h.destination_len + h.body_len + 4 ≤ length x)
      × (crc32 0 (take (h.destination_len + h.body_len) x ++ [])
          ≡ get_field x (h.destination_len + h.body_len) 4)
unfolding verify_body
verified_crc h x fits e =
    let whole : u32 (h.destination_len + h.body_len) ≡ h.destination_len + h.body_len =
      omega arith in
    let more : u32 (h.destination_len + h.body_len + 4) ≡ h.destination_len + h.body_len + 4 =
      omega arith in
    let facts = rw (whole, more) at e in (ground arith, rw append-nil (ground arith))

-- `n` bytes, and then the CRC of these and of some constant bytes `z`.
abbrev IsSealed : ℕ → List ℕ → List ℕ → Type 0
IsSealed n z x = crc32 0 (take n x ++ z) ≡ get_field x n 4

module _ (before : List ℕ) (a b : ℕ) (after : List ℕ) (vb : IsBytes before) (ha : a < 256)
    (hb : b < 256) (va : IsBytes after) (ne : a ≢ b) (n : ℕ) (z : List ℕ) (vz : IsBytes z)
    (sealed : IsSealed n z (before ++ a ∷ after))
    (resealed : IsSealed n z (before ++ b ∷ after)) where
  -- The wrong byte lies before the CRC: the CRCs differ and the stored numbers agree.
  differ_in_front : length before < n → ⊥
  differ_in_front h =
      let cut = take (n - 1 - length before) after in
      let front : (c : ℕ) → take n (before ++ c ∷ after) ++ z ≡ before ++ c ∷ (cut ++ z) = λ c.
        ap (λ (t : List ℕ). t ++ z) (take-append_after n before c after h)
        ∙ append_assoc before (c ∷ cut) z in
      let stored : (c : ℕ)
          → get_field (before ++ c ∷ after) n 4
            ≡ le_value (take 4 (drop (n - 1 - length before) after)) =
        λ c. ap (λ (t : List ℕ). le_value (take 4 t)) (drop-append_after n before c after h) in
      crc32_detects_byte 0 before a b (cut ++ z) vb ha hb
        (All-append _ cut z (All-take _ _ after va) vz) ne
        (ap (crc32 0) (sym (front a))
          ∙ sealed
          ∙ stored a
          ∙ sym (stored b)
          ∙ sym resealed
          ∙ ap (crc32 0) (front b))

  -- It lies in the CRC: the fronts agree and the stored numbers differ.
  differ_in_crc :
      n ≤ length before → length before < n + 4 → n + 4 ≤ length (before ++ a ∷ after) → ⊥
  differ_in_crc h k len =
      let kept = drop n before in
      let short : length kept < 4 = omega (arith, length-drop n before) in
      let tail = take (4 - 1 - length kept) after in
      let front : (c : ℕ) → take n (before ++ c ∷ after) ≡ take n before =
        λ c. take-append_before n before (c ∷ after) h in
      let word : (c : ℕ) → take 4 (drop n (before ++ c ∷ after)) ≡ kept ++ c ∷ tail = λ c.
        ap (take 4) (drop-append_before n before (c ∷ after) h)
        ∙ take-append_after 4 kept c after short in
      let same : get_field (before ++ a ∷ after) n 4 ≡ get_field (before ++ b ∷ after) n 4 =
        sym sealed ∙ ap (λ (t : List ℕ). crc32 0 (t ++ z)) (front a ∙ sym (front b)) ∙ resealed in
      let bytes : (c : ℕ) → c < 256 → IsBytes (kept ++ c ∷ tail) =
        λ c hc. All-append _ kept (c ∷ tail) (All-drop _ n before vb) (hc, All-take _ _ after va) in
      ne (
        append_middle_injective kept a b tail tail (
          le_value_injective (kept ++ a ∷ tail) (kept ++ b ∷ tail) (bytes a ha) (bytes b hb)
            (omega (arith, length-append kept (a ∷ tail), length-append kept (b ∷ tail)))
            (ap le_value (sym (word a)) ∙ same ∙ ap le_value (word b))))

  -- So it is found wherever it stands.
  differ_anywhere : length before < n + 4 → n + 4 ≤ length (before ++ a ∷ after) → ⊥
  differ_anywhere k len = elim (dec_lt (length before) n) [
    | yes h ↦ differ_in_front h
    | no h ↦ differ_in_crc (omega arith) k len
  ]

module _ (before : List ℕ) (a b : ℕ) (after : List ℕ) (vb : IsBytes before) (ha : a < 256)
    (hb : b < 256) (va : IsBytes after) (ne : a ≢ b) where
  one-IsBytes : (c : ℕ) → c < 256 → IsBytes (before ++ c ∷ after)
  one-IsBytes c hc = All-append _ before (c ∷ after) vb (hc, va)

  -- Where edgesync_flashq_decode_header accepts a buffer, it rejects the same buffer with any one
  -- byte of the header changed to another value.
  pub decode_header_detects_byte :
      {h : Header}
      → length before < hdr_size
      → decode_header (before ++ a ∷ after) ≡ some h
      → decode_header (before ++ b ∷ after) ≡ none
  decode_header_detects_byte k e = elim (Option-cases (decode_header (before ++ b ∷ after))) [
    | inl refused ↦ refused
    | inr (h', e') ↦ absurd (
        differ_anywhere before a b after vb ha hb va ne 58 (replicate 4 0) (omega arith)
          (accepted_crc _ (one-IsBytes a ha) e) (accepted_crc _ (one-IsBytes b hb) e') k
          (decode_header-accepts _ e).0)
  ]

  -- Where edgesync_flashq_verify_body passes a body, it fails the same body with any one byte of the
  -- destination, the payload or the stored CRC changed to another value.
  pub verify_body_detects_byte :
      (h : Header)
      → h.destination_len + h.body_len + 4 < 2 ^ 32
      → length before < h.destination_len + h.body_len + 4
      → verify_body h (before ++ a ∷ after) ≡ true
      → verify_body h (before ++ b ∷ after) ≡ false
  verify_body_detects_byte h fits k e = elim (Bool-cases (verify_body h (before ++ b ∷ after))) [
    | inr refused ↦ refused
    | inl e' ↦ absurd (
        differ_anywhere before a b after vb ha hb va ne (h.destination_len + h.body_len) [] tt
          (verified_crc h _ fits e).1 (verified_crc h _ fits e').1 k (verified_crc h _ fits e).0)
  ]
