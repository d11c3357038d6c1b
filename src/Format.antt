-- ===== src/Format.antt =====
-- components/edgesync/src/edgesync_flashq_format.h and .c: the record format on flash.
-- A buffer is the list of its bytes, and its capacity or length is the list's. The structs are packed
-- and little-endian, as on the ESP32; `size_t` has 32 bits there, and its wrap is written out.
-- A signed field is its two's complement bit pattern. A C string is the list of its bytes before
-- the NUL; a pointer that may be NULL is an Option.
pub mod Bytes
pub mod Size
pub mod RoundTrip
pub mod Records
pub mod Prefix
pub mod Encode
pub mod Corruption
mod Tests
use edgesync_espidf.Prelude.{
  ℕ, zero, suc, ◌+◌, ◌-◌, ◌*◌, ◌/◌, ◌%◌, ◌^◌, ◌<◌, Bool, true, false, not, Option, none, some, List,
  [], ◌∷◌, ◌++◌, length, take, drop, replicate, ltb, ◌==◌, if◌then◌else◌, u8, u16, u32,
}
use edgesync_espidf.Crc32.{crc32}
use edgesync_espidf.Types.{Message, state_pending}

abbrev pub rec_magic : ℕ
rec_magic = 0x45445347

abbrev pub hdr_magic : ℕ
hdr_magic = 0x45445348

abbrev pub max_destination_len : ℕ
max_destination_len = 63

-- edgesync_flashq_record_type_t
abbrev pub rec_message : ℕ
rec_message = 1

abbrev pub rec_update : ℕ
rec_update = 2

abbrev pub rec_end : ℕ
rec_end = 3

-- edgesync_flashq_record_hdr_t
pub record Header : Type 0 where
  pub magic : ℕ
  pub seq : ℕ
  pub type : ℕ
  pub state : ℕ
  pub priority : ℕ
  pub reserved : ℕ
  pub message_id : ℕ
  pub attempt_count : ℕ
  pub created_at_us : ℕ
  pub last_attempt_at_us : ℕ
  pub next_retry_at_us : ℕ
  pub last_error : ℕ
  pub destination_len : ℕ
  pub body_len : ℕ
  pub header_crc : ℕ

-- `edgesync_flashq_record_hdr_t hdr = {0};`
abbrev pub zero_header : Header
zero_header = record {
  magic = 0;
  seq = 0;
  type = 0;
  state = 0;
  priority = 0;
  reserved = 0;
  message_id = 0;
  attempt_count = 0;
  created_at_us = 0;
  last_attempt_at_us = 0;
  next_retry_at_us = 0;
  last_error = 0;
  destination_len = 0;
  body_len = 0;
  header_crc = 0;
}

-- EDGESYNC_FLASHQ_HDR_SIZE, the size of the packed struct.
abbrev pub hdr_size : ℕ
hdr_size = 62

-- The bytes of an unsigned integer in memory, the lowest first (put_u32 for four of them).
abbrev pub le_bytes : ℕ → ℕ → List ℕ
le_bytes zero v = []
le_bytes (suc n) v = (v % 256) ∷ le_bytes n (v / 256)

-- The integer that lies at the start of a buffer (get_u32 for four bytes).
abbrev pub le_value : List ℕ → ℕ
le_value [] = 0
le_value (b ∷ bs) = b + 256 * le_value bs

abbrev pub get_field : List ℕ → ℕ → ℕ → ℕ
get_field buf offset width = le_value (take width (drop offset buf))

-- The struct before its last field, and the whole of it, as `memcpy` sees them.
unfoldable pub header_front : Header → List ℕ
header_front h =
    le_bytes 4 h.magic
    ++ (le_bytes 4 h.seq
        ++ (le_bytes 1 h.type
            ++ (le_bytes 1 h.state
                ++ (le_bytes 1 h.priority
                    ++ (le_bytes 1 h.reserved
                        ++ (le_bytes 8 h.message_id
                            ++ (le_bytes 4 h.attempt_count
                                ++ (le_bytes 8 h.created_at_us
                                    ++ (le_bytes 8 h.last_attempt_at_us
                                        ++ (le_bytes 8 h.next_retry_at_us
                                            ++ (le_bytes 4 h.last_error
                                                ++ (le_bytes 2 h.destination_len
                                                    ++ le_bytes 4 h.body_len))))))))))))

unfoldable pub header_bytes : Header → List ℕ
unfolding header_front
header_bytes h = header_front h ++ le_bytes 4 h.header_crc

-- `memcpy(&hdr, buf, EDGESYNC_FLASHQ_HDR_SIZE)`
unfoldable pub header_of_bytes : List ℕ → Header
header_of_bytes buf = record {
  magic = get_field buf 0 4;
  seq = get_field buf 4 4;
  type = get_field buf 8 1;
  state = get_field buf 9 1;
  priority = get_field buf 10 1;
  reserved = get_field buf 11 1;
  message_id = get_field buf 12 8;
  attempt_count = get_field buf 20 4;
  created_at_us = get_field buf 24 8;
  last_attempt_at_us = get_field buf 32 8;
  next_retry_at_us = get_field buf 40 8;
  last_error = get_field buf 48 4;
  destination_len = get_field buf 52 2;
  body_len = get_field buf 54 4;
  header_crc = get_field buf 58 4;
}

-- edgesync_flashq_round4: `(n + 3u) & ~3u`
unfoldable pub round4 : ℕ → ℕ
round4 n = u32 (n + 3) / 4 * 4

-- edgesync_flashq_record_total_size
unfoldable pub record_total_size : ℕ → ℕ → ℕ
unfolding round4
record_total_size destination_len body_len =
    round4 (u32 (hdr_size + destination_len + body_len + 4))

-- header_crc
unfoldable pub crc_of_header : Header → ℕ
crc_of_header hdr = crc32 0 (header_bytes (record hdr { header_crc = 0 }))

-- What the zeroed buffer holds after `if (len > 0 && p != NULL) memcpy(cursor, p, len)`.
abbrev pub copied : ℕ → Option (List ℕ) → List ℕ
copied len none = replicate len 0
copied len (some bytes) = take len bytes

-- The header that encode_common writes: the magic, the lengths and the CRC are filled in.
unfoldable pub sealed_header : Header → ℕ → ℕ → Header
sealed_header hdr destination_len body_len =
    let filled : Header = record hdr {
      magic = rec_magic;
      destination_len = destination_len;
      body_len = body_len;
      header_crc = 0;
    } in
    record filled { header_crc = crc_of_header filled }

-- The buffer that encode_common leaves: the header, the contents, their CRC and zero padding.
unfoldable pub record_bytes : Header → Option (List ℕ) → ℕ → Option (List ℕ) → ℕ → List ℕ
record_bytes hdr destination destination_len body body_len =
    let contents = copied destination_len destination ++ copied body_len body in
    let total = record_total_size destination_len body_len in
    header_bytes (sealed_header hdr destination_len body_len)
    ++ (contents
        ++ (le_bytes 4 (crc32 0 contents)
            ++ replicate (total - (hdr_size + destination_len + body_len + 4)) 0))

-- encode_common: the buffer written, `total` bytes long, or `none` for `false`.
unfoldable pub encode_common :
    ℕ → Header → Option (List ℕ) → ℕ → Option (List ℕ) → ℕ → Option (List ℕ)
encode_common buf_cap hdr destination destination_len body body_len =
    if ltb buf_cap (record_total_size destination_len body_len)
    then none
    else some (record_bytes hdr destination destination_len body body_len)

-- The fields of a record that the encoders are given.
pub record RecordFields : Type 0 where
  pub id : ℕ
  pub priority : ℕ
  pub state : ℕ
  pub attempt_count : ℕ
  pub created_at_us : ℕ
  pub last_attempt_at_us : ℕ
  pub next_retry_at_us : ℕ
  pub last_error : ℕ

-- What edgesync_flashq_encode_message passes for a new message.
abbrev pub new_fields : Message → RecordFields
new_fields msg = record {
  id = msg.id;
  priority = msg.priority;
  state = state_pending;
  attempt_count = 0;
  created_at_us = msg.created_at_us;
  last_attempt_at_us = 0;
  next_retry_at_us = 0;
  last_error = 0;
}

-- The header that edgesync_flashq_encode_message_full fills in before encode_common.
abbrev pub message_header : RecordFields → ℕ → Header
message_header r seq = record zero_header {
  seq = seq;
  type = rec_message;
  state = u8 r.state;
  priority = u8 r.priority;
  message_id = r.id;
  attempt_count = r.attempt_count;
  created_at_us = r.created_at_us;
  last_attempt_at_us = r.last_attempt_at_us;
  next_retry_at_us = r.next_retry_at_us;
  last_error = r.last_error;
}

-- edgesync_flashq_encode_message_full
unfoldable pub encode_message_full :
    ℕ → RecordFields → List ℕ → Option (List ℕ) → ℕ → ℕ → Option (List ℕ)
encode_message_full buf_cap r destination payload payload_len seq =
    let dest_len = length destination in
    if ltb max_destination_len dest_len
    then none
    else encode_common buf_cap (message_header r seq) (some destination) (u16 dest_len) payload
        payload_len

-- edgesync_flashq_encode_message
unfoldable pub encode_message : ℕ → Message → ℕ → Option (List ℕ)
encode_message buf_cap msg seq =
    encode_message_full buf_cap (new_fields msg) msg.destination msg.payload msg.payload_len seq

-- The header that edgesync_flashq_encode_update fills in before encode_common.
abbrev pub update_header : RecordFields → ℕ → Header
update_header r seq = record zero_header {
  seq = seq;
  type = rec_update;
  state = u8 r.state;
  message_id = r.id;
  attempt_count = r.attempt_count;
  last_attempt_at_us = r.last_attempt_at_us;
  next_retry_at_us = r.next_retry_at_us;
  last_error = r.last_error;
}

-- edgesync_flashq_encode_update
unfoldable pub encode_update : ℕ → RecordFields → ℕ → Option (List ℕ)
encode_update buf_cap r seq = encode_common buf_cap (update_header r seq) none 0 none 0

-- edgesync_flashq_encode_end
unfoldable pub encode_end : ℕ → ℕ → Option (List ℕ)
encode_end buf_cap seq =
    encode_common buf_cap (record zero_header { seq = seq; type = rec_end }) none 0 none 0

-- edgesync_flashq_decode_header
unfoldable pub decode_header : List ℕ → Option Header
decode_header buf =
    let hdr = header_of_bytes buf in
    if ltb (length buf) hdr_size
    then none
    else if not (hdr.magic == rec_magic)
    then none
    else if not (crc_of_header hdr == hdr.header_crc)
    then none
    else some hdr

-- edgesync_flashq_verify_body
unfoldable pub verify_body : Header → List ℕ → Bool
verify_body hdr body =
    let body_bytes = u32 (hdr.destination_len + hdr.body_len) in
    if ltb (length body) (u32 (body_bytes + 4))
    then false
    else get_field body body_bytes 4 == crc32 0 (take body_bytes body)
