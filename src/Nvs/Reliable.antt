-- ===== src/Nvs/Reliable.antt =====
-- An NVS that does what it is documented to do, and writes through it.
use edgesync_espidf.Prelude.{ℕ, ◌≤◌, ◌≡◌, refl, inl, inr, true, Option, some, List, length, arith}
use edgesync_espidf.Format.{
  Header, max_destination_len, record_total_size, copied, encode_message_full,
}
use edgesync_espidf.Format.RoundTrip.{IsReadable}
use edgesync_espidf.Format.Size.{max_body_len}
use edgesync_espidf.Format.Records.{IsRecord, IsFitFields}
use edgesync_espidf.Format.Encode.{encode_message_full_outcome}
use edgesync_espidf.Action.{ok}
use edgesync_espidf.Flashq.Compaction.{fields_of}
use edgesync_espidf.Nvs.{Nvs, Ctx, NvsEntry, slot_of, slot_key}
use edgesync_espidf.Nvs.Entries.{Source, over, put_blob, payload_read, write_entry}

-- The encoder, where everything fits.
pub encode_fits :
    (buf_cap : ℕ) (e : NvsEntry) (destination : List ℕ) (payload : Option (List ℕ))
    → IsFitFields (fields_of e)
    → e.payload_len ≤ max_body_len
    → IsReadable e.payload_len payload
    → length destination ≤ max_destination_len
    → record_total_size (length destination) e.payload_len ≤ buf_cap
    → (buf : List ℕ) × (hdr : Header) × (encode_message_full buf_cap
          (fields_of e)
          destination
          payload
          e.payload_len
          0
        ≡ some buf)
      × (length buf ≡ record_total_size (length destination) e.payload_len)
      × IsRecord buf hdr destination (copied e.payload_len payload)
      × (hdr.destination_len ≡ length destination)
      × (hdr.body_len ≡ e.payload_len)
encode_fits buf_cap e destination payload v b there short room =
    elim (encode_message_full_outcome buf_cap (fields_of e) destination payload e.payload_len 0 v
      (omega arith) b there) [
        | inl (why, failed) ↦ absurd (omega arith)
        | inr (short', room', (buf, hdr, e', len, rec, des, created, priority)) ↦
            (buf, hdr, e', len, rec, des.destination_len_is, des.body_len_is)
      ]

module _ (N : Nvs) where
  open N use {Store, get_length, get_blob, set_blob, commit}

  -- An NVS with room, whose calls do what they are documented to do.
  pub record IsReliable : Type 0 where
    pub sets : (s : Store) (key blob : List ℕ) → (set_blob s key blob).0 ≡ true
    pub commits : (s : Store) → (commit s).0 ≡ true
    pub length_set :
        (s : Store) (key blob : List ℕ)
        → get_length (commit (set_blob s key blob).1).1 key ≡ some (length blob)
    pub blob_set :
        (s : Store) (key blob : List ℕ)
        → get_blob (commit (set_blob s key blob).1).1 key (length blob) ≡ some blob

  module _ (reliable : IsReliable) where
    abbrev pub stored : Ctx Store → ℕ → List ℕ → Ctx Store
    stored c slot buf = record c {
      scratch = over buf c.scratch;
      store = (commit (set_blob c.store (slot_key slot) buf).1).1;
    }

    pub write_entry-ok :
        (e : NvsEntry) (destination : List ℕ) (payload : Option (List ℕ)) (c : Ctx Store)
        (buf : List ℕ)
        → encode_message_full c.scratch_size (fields_of e) destination payload e.payload_len 0
          ≡ some buf
        → write_entry N e destination (Source.outside payload) c ≡ ok tt (stored c (slot_of e) buf)
    unfolding write_entry put_blob payload_read
    write_entry-ok e destination payload c buf encoded =
        rw
          (
            encoded,
            reliable.sets c.store (slot_key (slot_of e)) buf,
            reliable.commits (set_blob c.store (slot_key (slot_of e)) buf).1,
            write_entry,
            put_blob,
            payload_read,
          )
          refl
