-- ===== src/Format/Encode.antt =====
-- The encoders on every branch: when they fail, and what the buffer holds when they succeed.
use edgesync_espidf.Prelude.{
  ℕ, ◌^◌, ◌≤◌, ◌<◌, ◌≡◌, refl, ◌⊎◌, inl, inr, Option, none, some, List, [], length, take-length,
  ltb, ltb→lt, ltb→le, le→ltb, Bool-cases, arith, u8, u16,
}
use edgesync_espidf.Format.{
  Header, RecordFields, sealed_header, copied, record_bytes, encode_common, message_header,
  update_header, encode_message_full, encode_update, record_total_size, max_destination_len,
  rec_message, rec_update,
}
use edgesync_espidf.Format.RoundTrip.{IsFit, IsReadable}
use edgesync_espidf.Format.Size.{max_body_len, length-record_bytes}
use edgesync_espidf.Format.Records.{IsRecord, IsFitFields, record_bytes-IsRecord}

-- The header is that of a record of this type, with these fields; the destination's length and the
-- body's are given too. An UPDATE record has no creation time and no priority of its own.
pub record Describes (hdr : Header) (type : ℕ) (r : RecordFields) (seq destination_len body_len : ℕ)
    : Type 0 where
  pub type_is : hdr.type ≡ type
  pub seq_is : hdr.seq ≡ seq
  pub id_is : hdr.message_id ≡ r.id
  pub state_is : hdr.state ≡ u8 r.state
  pub attempt_count_is : hdr.attempt_count ≡ r.attempt_count
  pub last_attempt_at_us_is : hdr.last_attempt_at_us ≡ r.last_attempt_at_us
  pub next_retry_at_us_is : hdr.next_retry_at_us ≡ r.next_retry_at_us
  pub last_error_is : hdr.last_error ≡ r.last_error
  pub destination_len_is : hdr.destination_len ≡ destination_len
  pub body_len_is : hdr.body_len ≡ body_len

message_header-IsFit :
    (r : RecordFields) (seq : ℕ) → IsFitFields r → seq < 2 ^ 32 → IsFit (message_header r seq)
message_header-IsFit r seq v h = omega arith

update_header-IsFit :
    (r : RecordFields) (seq : ℕ) → IsFitFields r → seq < 2 ^ 32 → IsFit (update_header r seq)
update_header-IsFit r seq v h = omega arith

Describes-message :
    (r : RecordFields) (seq dl bl : ℕ)
    → Describes (sealed_header (message_header r seq) dl bl) rec_message r seq dl bl
unfolding sealed_header
Describes-message r seq dl bl = record {
  type_is = refl;
  seq_is = refl;
  id_is = refl;
  state_is = refl;
  attempt_count_is = refl;
  last_attempt_at_us_is = refl;
  next_retry_at_us_is = refl;
  last_error_is = refl;
  destination_len_is = refl;
  body_len_is = refl;
}

Describes-update :
    (r : RecordFields) (seq : ℕ)
    → Describes (sealed_header (update_header r seq) 0 0) rec_update r seq 0 0
unfolding sealed_header
Describes-update r seq = record {
  type_is = refl;
  seq_is = refl;
  id_is = refl;
  state_is = refl;
  attempt_count_is = refl;
  last_attempt_at_us_is = refl;
  next_retry_at_us_is = refl;
  last_error_is = refl;
  destination_len_is = refl;
  body_len_is = refl;
}

module _ (buf_cap : ℕ) (r : RecordFields) (destination : List ℕ) (payload : Option (List ℕ))
    (payload_len seq : ℕ) (v : IsFitFields r) (seq_fits : seq < 2 ^ 32)
    (payload_fits : payload_len ≤ max_body_len) (readable : IsReadable payload_len payload) where
  -- edgesync_flashq_encode_message_full fails exactly when the destination is longer than 63 bytes or
  -- the buffer is smaller than the record. Otherwise it fills record_total_size bytes with a record
  -- that the decoder accepts, whose CRC checks pass, and from which every field, the destination
  -- and the payload are read back.
  pub encode_message_full_outcome :
      (((max_destination_len < length destination)
          ⊎ (buf_cap < record_total_size (length destination) payload_len))
        × (encode_message_full buf_cap r destination payload payload_len seq ≡ none))
      ⊎ ((length destination ≤ max_destination_len)
          × (record_total_size (length destination) payload_len ≤ buf_cap)
          × ((buf : List ℕ) × (hdr : Header) × (encode_message_full buf_cap r destination payload
                  payload_len seq
                ≡ some buf)
              × (length buf ≡ record_total_size (length destination) payload_len)
              × IsRecord buf hdr destination (copied payload_len payload)
              × Describes hdr rec_message r seq (length destination) payload_len
              × (hdr.created_at_us ≡ r.created_at_us)
              × (hdr.priority ≡ u8 r.priority)))
  unfolding encode_message_full encode_common sealed_header
  encode_message_full_outcome = elim (Bool-cases (ltb max_destination_len (length destination))) [
    | inl long ↦ inl (inl (ltb→lt _ _ long), rw long)
    | inr short ↦
        let len : u16 (length destination) ≡ length destination =
          omega (arith, ltb→le max_destination_len (length destination) short) in
        rw short (
          rw len
            (elim (Bool-cases (ltb buf_cap (record_total_size (length destination) payload_len))) [
              | inl small ↦ inl (inr (ltb→lt _ _ small), rw small)
              | inr room ↦ inr (
                ltb→le _ _ short,
                ltb→le _ _ room,
                (
                  record_bytes (message_header r seq) (some destination) (length destination)
                      payload payload_len,
                  sealed_header (message_header r seq) (length destination) payload_len,
                  rw room,
                  length-record_bytes (message_header r seq) (some destination) (length destination)
                      payload payload_len (omega arith) payload_fits (omega arith) readable,
                  rw (take-length destination) at (
                      record_bytes-IsRecord (message_header r seq) (some destination)
                        (length destination) payload payload_len
                        (message_header-IsFit r seq v seq_fits) (omega arith) payload_fits
                        (omega arith) readable),
                  Describes-message r seq (length destination) payload_len,
                  refl,
                  refl,
                ),
              )
            ]))
  ]

-- edgesync_flashq_encode_update fills any buffer of at least one bare record with an accepted UPDATE
-- record of 68 bytes, from which the state, the attempt count, the times and the error are read back.
pub encode_update_lem :
    (buf_cap : ℕ) (r : RecordFields) (seq : ℕ)
    → IsFitFields r
    → seq < 2 ^ 32
    → record_total_size 0 0 ≤ buf_cap
    → (buf : List ℕ) × (hdr : Header) × (encode_update buf_cap r seq ≡ some buf)
      × (length buf ≡ record_total_size 0 0)
      × IsRecord buf hdr [] []
      × Describes hdr rec_update r seq 0 0
unfolding encode_update encode_common
encode_update_lem buf_cap r seq v seq_fits room = (
  record_bytes (update_header r seq) none 0 none 0,
  sealed_header (update_header r seq) 0 0,
  rw (le→ltb buf_cap (record_total_size 0 0) room),
  length-record_bytes (update_header r seq) none 0 none 0 (omega arith) (omega arith) tt tt,
  record_bytes-IsRecord (update_header r seq) none 0 none 0 (update_header-IsFit r seq v seq_fits)
      (omega arith) (omega arith) tt tt,
  Describes-update r seq,
)
