-- ===== src/Format/Size.antt =====
-- The space that a record takes: whole, aligned, and below a word of padding.
use edgesync_espidf.Prelude.{
  ℕ, ◌+◌, ◌-◌, ◌%◌, ◌^◌, ◌≤◌, ◌<◌, ◌≡◌, Option, List, ◌++◌, length, length-append, length-replicate,
  replicate, arith,
}
use edgesync_espidf.Crc32.{crc32}
use edgesync_espidf.Format.{
  Header, header_bytes, sealed_header, le_bytes, hdr_size, copied, record_bytes, record_total_size,
}
use edgesync_espidf.Format.RoundTrip.{IsReadable, length-copied, length-header_bytes}

-- Body lengths for which no sum of the encoder wraps a 32-bit `size_t`.
abbrev pub max_body_len : ℕ
max_body_len = 2 ^ 32 - 2 ^ 17

-- A record has room for its header, contents and CRC, is padded by less than a word, and is a
-- whole number of words.
pub record_total_size_bounds :
    (destination_len body_len : ℕ)
    → destination_len < 2 ^ 16
    → body_len ≤ max_body_len
    → (hdr_size + destination_len + body_len + 4 ≤ record_total_size destination_len body_len)
      × (record_total_size destination_len body_len < hdr_size + destination_len + body_len + 8)
      × (record_total_size destination_len body_len % 4 ≡ 0)
unfolding record_total_size
record_total_size_bounds destination_len body_len hd hb = omega arith

-- The buffer of encode_common is as long as edgesync_flashq_record_total_size says.
pub length-record_bytes :
    (hdr : Header) (destination : Option (List ℕ)) (destination_len : ℕ) (body : Option (List ℕ))
    (body_len : ℕ)
    → destination_len < 2 ^ 16
    → body_len ≤ max_body_len
    → IsReadable destination_len destination
    → IsReadable body_len body
    → length (record_bytes hdr destination destination_len body body_len)
      ≡ record_total_size destination_len body_len
unfolding record_bytes
length-record_bytes hdr destination dl body bl hd hb rd rb =
    let contents : List ℕ = copied dl destination ++ copied bl body in
    let pad : ℕ = record_total_size dl bl - (hdr_size + dl + bl + 4) in
    omega (
      arith,
      length-append (header_bytes (sealed_header hdr dl bl))
          (contents ++ (le_bytes 4 (crc32 0 contents) ++ replicate pad 0)),
      length-header_bytes (sealed_header hdr dl bl),
      length-append contents (le_bytes 4 (crc32 0 contents) ++ replicate pad 0),
      length-append (copied dl destination) (copied bl body),
      length-copied dl destination rd,
      length-copied bl body rb,
      length-replicate {A = ℕ} pad 0,
      record_total_size_bounds dl bl hd hb,
    )
