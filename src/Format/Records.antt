-- ===== src/Format/Records.antt =====
-- Whole records: what the encoders write, the decoder accepts and reads back.
use mathlib.Core.List.{append_assoc}
use edgesync_espidf.Prelude.{
  take-append_of, drop-append_of, ℕ, ◌+◌, ◌-◌, ◌^◌, ◌≤◌, ◌<◌, ◌≡◌, refl, ◌∙◌, ap, true, Option,
  some, List, ◌++◌, length, take, drop, replicate, length-append, arith,
}
use edgesync_espidf.Crc32.{crc32}
use edgesync_espidf.Crc32.Bounds.{crc32-lt}
use edgesync_espidf.Format.{
  Header, RecordFields, header_bytes, crc_of_header, sealed_header, copied, record_bytes,
  decode_header, verify_body, le_bytes, hdr_size, record_total_size,
}
use edgesync_espidf.Format.RoundTrip.{
  IsFit, IsReadable, length-copied, decode_header-header_bytes, verify_body_lem,
}
use edgesync_espidf.Format.Size.{max_body_len}

-- The buffer starts with an accepted record, with this header, destination and payload.
pub record IsRecord (buf : List ℕ) (hdr : Header) (destination payload : List ℕ) : Type 0 where
  pub accepted : decode_header buf ≡ some hdr
  pub intact : verify_body hdr (drop hdr_size buf) ≡ true
  pub destination_read : take hdr.destination_len (drop hdr_size buf) ≡ destination
  pub payload_read : take hdr.body_len (drop hdr.destination_len (drop hdr_size buf)) ≡ payload

-- The fields that the caller sets fit the struct.
pub record IsFitFields (r : RecordFields) : Type 0 where
  pub id_fits : r.id < 2 ^ 64
  pub attempt_count_fits : r.attempt_count < 2 ^ 32
  pub created_at_us_fits : r.created_at_us < 2 ^ 64
  pub last_attempt_at_us_fits : r.last_attempt_at_us < 2 ^ 64
  pub next_retry_at_us_fits : r.next_retry_at_us < 2 ^ 64
  pub last_error_fits : r.last_error < 2 ^ 32

-- A filled header stays one that fits when encode_common seals it.
sealed_header-IsFit :
    (hdr : Header) (dl bl : ℕ)
    → IsFit hdr
    → dl < 2 ^ 16
    → bl < 2 ^ 32
    → IsFit (sealed_header hdr dl bl)
unfolding sealed_header crc_of_header
sealed_header-IsFit hdr dl bl v hd hb = record {
  magic_fits = omega arith;
  seq_fits = v.seq_fits;
  type_fits = v.type_fits;
  state_fits = v.state_fits;
  priority_fits = v.priority_fits;
  reserved_fits = v.reserved_fits;
  message_id_fits = v.message_id_fits;
  attempt_count_fits = v.attempt_count_fits;
  created_at_us_fits = v.created_at_us_fits;
  last_attempt_at_us_fits = v.last_attempt_at_us_fits;
  next_retry_at_us_fits = v.next_retry_at_us_fits;
  last_error_fits = v.last_error_fits;
  destination_len_fits = hd;
  body_len_fits = hb;
  header_crc_fits = crc32-lt 0 _;
}

module _ (hdr : Header) (destination : Option (List ℕ)) (dl : ℕ) (body : Option (List ℕ)) (bl : ℕ)
    (v : IsFit hdr) (hd : dl < 2 ^ 16) (hb : bl ≤ max_body_len) (rd : IsReadable dl destination)
    (rb : IsReadable bl body) where
  -- What encode_common writes is read back.
  pub record_bytes-IsRecord :
      IsRecord
        (record_bytes hdr destination dl body bl)
        (sealed_header hdr dl bl)
        (copied dl destination)
        (copied bl body)
  unfolding record_bytes sealed_header crc_of_header header_bytes
  record_bytes-IsRecord =
      let contents : List ℕ = copied dl destination ++ copied bl body in
      let pad : List ℕ = replicate (record_total_size dl bl - (hdr_size + dl + bl + 4)) 0 in
      let split : length contents ≡ dl + bl = omega (
        arith,
        length-append (copied dl destination) (copied bl body),
        length-copied dl destination rd,
        length-copied bl body rb,
      ) in
      let tail : List ℕ = le_bytes 4 (crc32 0 contents) ++ pad in
      let body_read : drop dl (contents ++ tail) ≡ copied bl body ++ tail =
        ap (drop dl) (append_assoc (copied dl destination) (copied bl body) tail)
        ∙ drop-append_of dl (copied dl destination) (copied bl body ++ tail)
            (length-copied dl destination rd) in
      record {
        accepted =
            decode_header-header_bytes (sealed_header hdr dl bl) _
              (sealed_header-IsFit hdr dl bl v hd (omega arith)) refl refl;
        intact = verify_body_lem (sealed_header hdr dl bl) contents pad split (omega arith);
        destination_read =
            ap (take dl) (append_assoc (copied dl destination) (copied bl body) tail)
            ∙ take-append_of dl (copied dl destination) (copied bl body ++ tail)
                (length-copied dl destination rd);
        payload_read =
            ap (take bl) body_read
            ∙ take-append_of bl (copied bl body) tail (length-copied bl body rb);
      }
