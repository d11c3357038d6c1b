-- ===== src/Format/RoundTrip.antt =====
-- What is encoded is decoded: headers, bodies, and whole records.
use edgesync_espidf.Prelude.{
  ℕ, ◌+◌, ◌^◌, ◌≤◌, ◌<◌, ◌≡◌, refl, ◌∙◌, ap, true, Option, none, some, List, ◌++◌, length, take,
  length-append, take-append, drop-append, length-replicate, length-take, arith, u32,
}
use edgesync_espidf.Crc32.{crc32}
use edgesync_espidf.Crc32.Bounds.{crc32-lt}
use edgesync_espidf.Format.{
  Header, header_bytes, header_of_bytes, crc_of_header, decode_header, verify_body, le_bytes,
  le_value, hdr_size, rec_magic, get_field, copied,
}
use edgesync_espidf.Format.Bytes.{le_value-le_bytes}

-- Every field fits its place in the struct.
pub record IsFit (h : Header) : Type 0 where
  pub magic_fits : h.magic < 2 ^ 32
  pub seq_fits : h.seq < 2 ^ 32
  pub type_fits : h.type < 2 ^ 8
  pub state_fits : h.state < 2 ^ 8
  pub priority_fits : h.priority < 2 ^ 8
  pub reserved_fits : h.reserved < 2 ^ 8
  pub message_id_fits : h.message_id < 2 ^ 64
  pub attempt_count_fits : h.attempt_count < 2 ^ 32
  pub created_at_us_fits : h.created_at_us < 2 ^ 64
  pub last_attempt_at_us_fits : h.last_attempt_at_us < 2 ^ 64
  pub next_retry_at_us_fits : h.next_retry_at_us < 2 ^ 64
  pub last_error_fits : h.last_error < 2 ^ 32
  pub destination_len_fits : h.destination_len < 2 ^ 16
  pub body_len_fits : h.body_len < 2 ^ 32
  pub header_crc_fits : h.header_crc < 2 ^ 32

pub length-header_bytes : (h : Header) → length (header_bytes h) ≡ hdr_size
unfolding header_bytes
length-header_bytes h = refl

-- A header written at the start of a buffer is read back from it.
pub header_of_bytes-header_bytes :
    (h : Header) (rest : List ℕ) → IsFit h → header_of_bytes (header_bytes h ++ rest) ≡ h
unfolding header_of_bytes header_bytes
header_of_bytes-header_bytes h rest v = λ i. record {
  magic = le_value-le_bytes 4 h.magic v.magic_fits i;
  seq = le_value-le_bytes 4 h.seq v.seq_fits i;
  type = le_value-le_bytes 1 h.type v.type_fits i;
  state = le_value-le_bytes 1 h.state v.state_fits i;
  priority = le_value-le_bytes 1 h.priority v.priority_fits i;
  reserved = le_value-le_bytes 1 h.reserved v.reserved_fits i;
  message_id = le_value-le_bytes 8 h.message_id v.message_id_fits i;
  attempt_count = le_value-le_bytes 4 h.attempt_count v.attempt_count_fits i;
  created_at_us = le_value-le_bytes 8 h.created_at_us v.created_at_us_fits i;
  last_attempt_at_us = le_value-le_bytes 8 h.last_attempt_at_us v.last_attempt_at_us_fits i;
  next_retry_at_us = le_value-le_bytes 8 h.next_retry_at_us v.next_retry_at_us_fits i;
  last_error = le_value-le_bytes 4 h.last_error v.last_error_fits i;
  destination_len = le_value-le_bytes 2 h.destination_len v.destination_len_fits i;
  body_len = le_value-le_bytes 4 h.body_len v.body_len_fits i;
  header_crc = le_value-le_bytes 4 h.header_crc v.header_crc_fits i;
}

-- A header with the magic and its own CRC is accepted, whatever follows it.
pub decode_header-header_bytes :
    (h : Header) (rest : List ℕ)
    → IsFit h
    → h.magic ≡ rec_magic
    → h.header_crc ≡ crc_of_header h
    → decode_header (header_bytes h ++ rest) ≡ some h
unfolding decode_header
decode_header-header_bytes h rest v m c =
    rw (header_of_bytes-header_bytes h rest v)
      (ground (arith, length-append (header_bytes h) rest, length-header_bytes h))

-- Contents followed by their CRC pass edgesync_flashq_verify_body.
pub verify_body_lem :
    (h : Header) (contents pad : List ℕ)
    → length contents ≡ h.destination_len + h.body_len
    → h.destination_len + h.body_len + 4 < 2 ^ 32
    → verify_body h (contents ++ (le_bytes 4 (crc32 0 contents) ++ pad)) ≡ true
unfolding verify_body
verify_body_lem h contents pad len fits =
    let tail : List ℕ = le_bytes 4 (crc32 0 contents) ++ pad in
    let whole : u32 (h.destination_len + h.body_len) ≡ length contents = omega arith in
    let stored : get_field (contents ++ tail) (length contents) 4 ≡ crc32 0 contents =
      ap (λ (t : List ℕ). le_value (take 4 t)) (drop-append contents tail)
      ∙ le_value-le_bytes 4 (crc32 0 contents) (crc32-lt 0 contents) in
    rw whole (rw (stored, take-append contents tail) (ground (arith, length-append contents tail)))

-- A pointer that is NULL, or has at least `len` bytes behind it.
abbrev pub IsReadable : ℕ → Option (List ℕ) → Type 0
IsReadable len none = Unit
IsReadable len (some bytes) = len ≤ length bytes

pub length-copied : (len : ℕ) (p : Option (List ℕ)) → IsReadable len p → length (copied len p) ≡ len
length-copied len none h = length-replicate len 0
length-copied len (some bytes) h = omega (arith, length-take len bytes)
