-- ===== src/Format/Prefix.antt =====
-- decode_header and verify_body look at the bytes of the header and of the body, and not behind them.
use edgesync_espidf.Prelude.{
  ℕ, ◌+◌, ◌≤◌, ◌<◌, ◌^◌, ◌≡◌, ◌∙◌, ap, true, some, List, ◌++◌, length, take, drop, length-append,
  length-drop, take-append_before, drop-append_before, u32, arith,
}
use edgesync_espidf.Format.{
  Header, header_of_bytes, decode_header, verify_body, get_field, le_value, hdr_size,
}

pub get_field-append :
    (xs ys : List ℕ) (offset width : ℕ)
    → offset + width ≤ length xs
    → get_field (xs ++ ys) offset width ≡ get_field xs offset width
get_field-append xs ys offset width h =
    ap (λ (t : List ℕ). le_value (take width t)) (drop-append_before offset xs ys (omega arith))
    ∙ ap le_value
        (take-append_before width (drop offset xs) ys (omega (arith, length-drop offset xs)))

pub header_of_bytes-append :
    (xs ys : List ℕ) → length xs ≡ hdr_size → header_of_bytes (xs ++ ys) ≡ header_of_bytes xs
unfolding header_of_bytes
header_of_bytes-append xs ys h = λ i. record {
  magic = get_field-append xs ys 0 4 (omega arith) i;
  seq = get_field-append xs ys 4 4 (omega arith) i;
  type = get_field-append xs ys 8 1 (omega arith) i;
  state = get_field-append xs ys 9 1 (omega arith) i;
  priority = get_field-append xs ys 10 1 (omega arith) i;
  reserved = get_field-append xs ys 11 1 (omega arith) i;
  message_id = get_field-append xs ys 12 8 (omega arith) i;
  attempt_count = get_field-append xs ys 20 4 (omega arith) i;
  created_at_us = get_field-append xs ys 24 8 (omega arith) i;
  last_attempt_at_us = get_field-append xs ys 32 8 (omega arith) i;
  next_retry_at_us = get_field-append xs ys 40 8 (omega arith) i;
  last_error = get_field-append xs ys 48 4 (omega arith) i;
  destination_len = get_field-append xs ys 52 2 (omega arith) i;
  body_len = get_field-append xs ys 54 4 (omega arith) i;
  header_crc = get_field-append xs ys 58 4 (omega arith) i;
}

-- A header that is accepted with bytes behind it is accepted without them.
pub decode_header-append :
    (xs ys : List ℕ) (hdr : Header)
    → length xs ≡ hdr_size
    → decode_header (xs ++ ys) ≡ some hdr
    → decode_header xs ≡ some hdr
unfolding decode_header
decode_header-append xs ys hdr len e =
    ground (arith, rw (header_of_bytes-append xs ys len) at e, length-append xs ys)

pub verify_body-append :
    (hdr : Header) (xs ys : List ℕ)
    → length xs ≡ u32 (u32 (hdr.destination_len + hdr.body_len) + 4)
    → u32 (hdr.destination_len + hdr.body_len) + 4 < 2 ^ 32
    → verify_body hdr (xs ++ ys) ≡ true
    → verify_body hdr xs ≡ true
unfolding verify_body
verify_body-append hdr xs ys len fits e =
    let n : ℕ = u32 (hdr.destination_len + hdr.body_len) in
    let stored : get_field (xs ++ ys) n 4 ≡ get_field xs n 4 =
      get_field-append xs ys n 4 (omega arith) in
    let contents : take n (xs ++ ys) ≡ take n xs = take-append_before n xs ys (omega arith) in
    ground (arith, rw (stored, contents) at e, length-append xs ys)
