-- ===== src/Format/Tests.antt =====
-- Records of concrete messages.
use edgesync_espidf.Prelude.{
  ℕ, ◌+◌, ◌^◌, ◌≤◌, ◌<◌, ◌≡◌, ◌⊎◌, refl, true, false, Option, none, some, List, [], ◌∷◌, ◌++◌,
  length, arith, u8,
}
use edgesync_espidf.Crc32.{IsBytes, crc32, bit_round, bit_rounds, byte_round, byte_rounds}
use edgesync_espidf.Crc32.Bounds.{are_bytes-IsBytes}
use edgesync_espidf.Format.{
  RecordFields, Header, header_of_bytes, header_front, header_bytes, crc_of_header, decode_header,
  verify_body, record_total_size, round4, copied, encode_message_full, encode_update, rec_message,
  rec_update, max_destination_len,
}
use edgesync_espidf.Format.Records.{IsRecord, IsFitFields}
use edgesync_espidf.Format.Encode.{Describes, encode_message_full_outcome, encode_update_lem}
use edgesync_espidf.Format.Corruption.{decode_header_detects_byte, verify_body_detects_byte}

-- The record of a message to "a/b" with the payload 01 02, up to its type, behind it, and its body.
abbrev front : List ℕ
front = 71 ∷ 83 ∷ 68 ∷ 69 ∷ 1 ∷ 0 ∷ 0 ∷ 0 ∷ []

abbrev back : List ℕ
back =
    0 ∷ 1 ∷ 0 ∷ 7 ∷ 0 ∷ 0 ∷ 0 ∷ 0 ∷ 0 ∷ 0 ∷ 0 ∷ 0 ∷ 0 ∷ 0 ∷ 0 ∷ 232 ∷ 3 ∷ 0 ∷ 0 ∷ 0 ∷ 0 ∷ 0 ∷ 0 ∷ 0
    ∷ 0 ∷ 0 ∷ 0 ∷ 0 ∷ 0 ∷ 0 ∷ 0 ∷ 0 ∷ 0 ∷ 0 ∷ 0 ∷ 0 ∷ 0 ∷ 0 ∷ 0 ∷ 0 ∷ 0 ∷ 0 ∷ 0 ∷ 3 ∷ 0 ∷ 2 ∷ 0 ∷ 0
    ∷ 0 ∷ 46 ∷ 9 ∷ 251 ∷ 54 ∷ 97 ∷ 47 ∷ 98 ∷ 1 ∷ 2 ∷ 171 ∷ 89 ∷ 103 ∷ 38 ∷ 0 ∷ []

abbrev body_back : List ℕ
body_back = 2 ∷ 171 ∷ 89 ∷ 103 ∷ 38 ∷ 0 ∷ []

abbrev hdr : Header
hdr = header_of_bytes (front ++ 1 ∷ back)

front-IsBytes : IsBytes front
front-IsBytes = are_bytes-IsBytes front refl

back-IsBytes : IsBytes back
back-IsBytes = are_bytes-IsBytes back refl

accepted : decode_header (front ++ 1 ∷ back) ≡ some hdr
unfolding decode_header header_of_bytes header_bytes crc_of_header header_front crc32 byte_rounds
    byte_round bit_rounds bit_round
accepted = refl

intact : verify_body hdr (97 ∷ 47 ∷ 98 ∷ 1 ∷ body_back) ≡ true
unfolding verify_body header_of_bytes crc32 byte_rounds byte_round bit_rounds bit_round
intact = refl

-- A message whose type byte was turned into that of an UPDATE is refused.
decode_header_detects_byte_example : decode_header (front ++ 2 ∷ back) ≡ none
decode_header_detects_byte_example =
    decode_header_detects_byte front 1 2 back front-IsBytes (omega arith) (omega arith) back-IsBytes
      (omega arith) (omega arith) accepted

lengths : hdr.destination_len + hdr.body_len + 4 ≡ 9
unfolding header_of_bytes
lengths = refl

fits : hdr.destination_len + hdr.body_len + 4 < 2 ^ 32
fits = omega (arith, lengths)

short : 3 < hdr.destination_len + hdr.body_len + 4
short = omega (arith, lengths)

verify_body_detects_byte_example : verify_body hdr ((97 ∷ 47 ∷ 98 ∷ []) ++ 5 ∷ body_back) ≡ false
verify_body_detects_byte_example =
    verify_body_detects_byte (97 ∷ 47 ∷ 98 ∷ []) 1 5 body_back
      (are_bytes-IsBytes (97 ∷ 47 ∷ 98 ∷ []) refl) (omega arith) (omega arith)
      (are_bytes-IsBytes body_back refl) (omega arith) hdr fits short intact

abbrev fields : RecordFields
fields = record {
  id = 7;
  priority = 1;
  state = 0;
  attempt_count = 2;
  created_at_us = 1000;
  last_attempt_at_us = 500;
  next_retry_at_us = 900;
  last_error = 0;
}

fields-IsFitFields : IsFitFields fields
fields-IsFitFields = record {
  id_fits = omega arith;
  attempt_count_fits = omega arith;
  created_at_us_fits = omega arith;
  last_attempt_at_us_fits = omega arith;
  next_retry_at_us_fits = omega arith;
  last_error_fits = omega arith;
}

abbrev destination : List ℕ
destination = 97 ∷ 47 ∷ 98 ∷ []

abbrev payload : Option (List ℕ)
payload = some (1 ∷ 2 ∷ [])

encode_message_full_outcome_example :
    (((max_destination_len < length destination) ⊎ (128 < record_total_size (length destination) 2))
      × (encode_message_full 128 fields destination payload 2 5 ≡ none))
    ⊎ ((length destination ≤ max_destination_len)
        × (record_total_size (length destination) 2 ≤ 128)
        × ((buf : List ℕ) × (h : Header) × (encode_message_full 128 fields destination payload 2 5
              ≡ some buf)
            × (length buf ≡ record_total_size (length destination) 2)
            × IsRecord buf h destination (copied 2 payload)
            × Describes h rec_message fields 5 (length destination) 2
            × (h.created_at_us ≡ fields.created_at_us)
            × (h.priority ≡ u8 fields.priority)))
encode_message_full_outcome_example =
    encode_message_full_outcome 128 fields destination payload 2 5 fields-IsFitFields (omega arith)
      (omega arith) (omega arith)

room : record_total_size 0 0 ≤ 128
unfolding record_total_size round4
room = omega arith

encode_update_lem_example :
    (buf : List ℕ) × (h : Header) × (encode_update 128 fields 5 ≡ some buf)
    × (length buf ≡ record_total_size 0 0)
    × IsRecord buf h [] []
    × Describes h rec_update fields 5 0 0
encode_update_lem_example = encode_update_lem 128 fields 5 fields-IsFitFields (omega arith) room
