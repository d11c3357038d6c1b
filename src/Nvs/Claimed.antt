-- ===== src/Nvs/Claimed.antt =====
-- edgesync_storage_nvs.c: the way of a message through op_enqueue and then op_claim_next.
use mathlib.Core.Path.{subst, ap₂}
use edgesync_espidf.Prelude.{
  ℕ, ◌+◌, ◌^◌, ◌≤◌, ◌<◌, ◌≡◌, refl, sym, true, false, some, List, [], ◌∷◌, ◌++◌, length, take, drop,
  set, leb, ltb_i64, take-append_of, drop-append_of, take-take-drop, take-append_before,
  drop-append_before, length-drop, u8, u16, arith,
}
use edgesync_espidf.Types.{Message, state_in_flight}
use edgesync_espidf.Format.{Header, hdr_size, max_destination_len, record_total_size, copied}
use edgesync_espidf.Format.RoundTrip.{length-copied}
use edgesync_espidf.Format.Size.{record_total_size_bounds}
use edgesync_espidf.Format.Records.{IsRecord}
use edgesync_espidf.Action.{Res, pure, ◌>>=◌}
use edgesync_espidf.Action.Outcome.{Ends, Ends-if, Ends-some, Ends-known, Ends-known_handle}
use edgesync_espidf.Flashq.Compaction.{until_nul}
use edgesync_espidf.Flashq.Enqueue.{IsMessage}
use edgesync_espidf.Flashq.Select.{pick_claim, pick_loop}
use edgesync_espidf.Nvs.{Nvs, Ctx, NvsEntry, slot_key, find_free_slot}
use edgesync_espidf.Nvs.Entries.{Source, write_entry, read_and_verify}
use edgesync_espidf.Nvs.Ops.{
  NvsClaim, new_slot_entry, enqueue, enqueue_at, claim_next, claim_slot, claim_read,
}
use edgesync_espidf.Nvs.Retry.{HasBlob, read_and_verify-ok}
use edgesync_espidf.Nvs.Reliable.{IsReliable, encode_fits, stored, write_entry-ok}

-- The message as it is claimed for the first time.
abbrev pub first_claim : Message → ℕ → Message
first_claim m now_us = record {
  id = m.id;
  destination = m.destination;
  priority = u8 m.priority;
  state = state_in_flight;
  attempt_count = 1;
  created_at_us = m.created_at_us;
  last_attempt_at_us = now_us;
  next_retry_at_us = 0;
  last_error = 0;
  payload_len = m.payload_len;
  payload = some (copied m.payload_len m.payload);
}

module _ (N : Nvs) (reliable : IsReliable N) where
  open N use {Store}

  module _ (m : Message) (slot now_us : ℕ) (v : IsMessage m) (now_fits : now_us < 2 ^ 64)
      (short : length m.destination ≤ max_destination_len)
      (no_nul : until_nul m.destination ≡ m.destination) where
    -- The entry of the claimed message, and its payload in claim_scratch.
    abbrev best : NvsEntry
    best = record (new_slot_entry m slot) {
      attempt_count = 1;
      state = state_in_flight;
      last_attempt_at_us = now_us;
    }

    abbrev body : List ℕ
    body = copied m.payload_len m.payload

    -- A claim that succeeds with the message.
    abbrev Claims : Res (Ctx Store) NvsClaim → Type 0
    Claims r = Ends (λ x d. x ≡ NvsClaim.taken (first_claim m now_us)) (λ e d. ⊥) r

    claim_written :
        (c : Ctx Store) (destination payload : List ℕ)
        → record_total_size (length m.destination) m.payload_len ≤ c.scratch_size
        → destination ≡ m.destination
        → payload ≡ body
        → Claims (
            (write_entry N best destination (Source.outside (some payload)) >>= λ a. pure (
                NvsClaim.taken (record (first_claim m now_us) {
                  destination = destination;
                  payload = some payload;
                })))
              c)
    claim_written c destination payload room d p =
        let (buf, hdr, encoded, len, rec, dl, bl) =
          encode_fits c.scratch_size best m.destination (some body)
            (record {
              id_fits = v.id_fits;
              attempt_count_fits = omega arith;
              created_at_us_fits = v.created_fits;
              last_attempt_at_us_fits = now_fits;
              next_retry_at_us_fits = omega arith;
              last_error_fits = omega arith;
            })
            v.payload_len_fits
            (omega (arith, length-copied m.payload_len m.payload v.payload_there)) short room in
        subst
          (λ (z : List ℕ × List ℕ). Claims (
            (write_entry N best z.0 (Source.outside (some z.1)) >>= λ a. pure (
                NvsClaim.taken
                  (record (first_claim m now_us) { destination = z.0; payload = some z.1 })))
              c))
          (sym (ap₂ (λ x y. (x, y)) d p))
          (Ends-known (write_entry N best m.destination (Source.outside (some body))) _ c _ tt
            (λ x d. x ≡ NvsClaim.taken (first_claim m now_us)) (λ e d. ⊥)
            (write_entry-ok N reliable best m.destination (some body) c buf encoded) refl)

    dl_fits : u16 (length m.destination) ≡ length m.destination
    dl_fits = omega (arith, short)

    -- claim_scratch behind a read of the record.
    claim_scratch_is :
        (hdr : Header) (bytes old : List ℕ)
        → IsRecord bytes hdr m.destination body
        → hdr.destination_len ≡ length m.destination
        → hdr.body_len ≡ m.payload_len
        → hdr_size + (length m.destination + m.payload_len) ≤ length bytes
        → take (hdr.destination_len + hdr.body_len) (drop hdr_size (bytes ++ old))
          ≡ m.destination ++ body
    claim_scratch_is hdr bytes old rec dl bl long =
        rw
          (
            drop-append_before hdr_size bytes old (omega arith),
            take-append_before (hdr.destination_len + hdr.body_len) (drop hdr_size bytes) old
                (omega (arith, length-drop hdr_size bytes)),
            sym (take-take-drop hdr.destination_len hdr.body_len (drop hdr_size bytes)),
            rec.destination_read,
            rec.payload_read,
          )
          refl

    -- The backend that holds the message alone, with the record read into the scratch buffer.
    abbrev loaded : Ctx Store → List ℕ → List ℕ → Ctx Store
    loaded c bytes old = record c { index = new_slot_entry m slot ∷ []; scratch = bytes ++ old }

    claim_read-Claims :
        (c : Ctx Store) (hdr : Header) (bytes old : List ℕ)
        → record_total_size (length m.destination) m.payload_len ≤ c.scratch_size
        → IsRecord bytes hdr m.destination body
        → hdr.destination_len ≡ length m.destination
        → hdr.body_len ≡ m.payload_len
        → hdr_size + (length m.destination + m.payload_len) ≤ length bytes
        → Claims (claim_read N 0 now_us hdr (loaded c bytes old))
    unfolding claim_read
    claim_read-Claims c hdr bytes old room rec dl bl long =
        let read = claim_scratch_is hdr bytes old rec dl bl long in
        claim_written (record (loaded c bytes old) { index = best ∷ [] })
          (until_nul (
            take (u16 (length m.destination))
              (take (hdr.destination_len + hdr.body_len) (drop hdr_size (bytes ++ old)))))
          (drop (u16 (length m.destination))
            (take (hdr.destination_len + hdr.body_len) (drop hdr_size (bytes ++ old))))
          room
          (rw (read, dl_fits, take-append_of (length m.destination) m.destination body refl) no_nul)
          (rw (read, dl_fits, drop-append_of (length m.destination) m.destination body refl) refl)

    claim_next-Claims :
        (c : Ctx Store) (hdr : Header) (payload : List ℕ)
        (h : HasBlob N
          (record c { index = new_slot_entry m slot ∷ [] })
          (new_slot_entry m slot)
          hdr
          m.destination
          body)
        → ltb_i64 now_us 0 ≡ false
        → record_total_size (length m.destination) m.payload_len ≤ c.scratch_size
        → hdr.body_len ≡ m.payload_len
        → hdr_size + (length m.destination + m.payload_len) ≤ length h.bytes
        → Claims (claim_next N now_us (record c { index = new_slot_entry m slot ∷ [] }))
    unfolding claim_next claim_slot pick_claim pick_loop
    claim_next-Claims c hdr payload h late room bl long =
        Ends-some (pick_claim now_us (new_slot_entry m slot ∷ [])) (0, new_slot_entry m slot) _ _
          (λ x d. x ≡ NvsClaim.taken (first_claim m now_us)) (λ e d. ⊥) (rw late refl)
          (Ends-known_handle (read_and_verify N slot _) _ _ hdr _
            (λ x d. x ≡ NvsClaim.taken (first_claim m now_us)) (λ e d. ⊥)
            (read_and_verify-ok N (record c { index = new_slot_entry m slot ∷ [] })
              (new_slot_entry m slot) hdr m.destination body h)
            (claim_read-Claims c hdr h.bytes (drop (length h.bytes) c.scratch) room h.readable
              h.same_length bl long))

    -- Over an NVS whose calls succeed and which gives back the blob that was set, with an empty index, a free slot, and
    -- a message that fits: op_enqueue succeeds, and the next op_claim_next, at any time from 0 on, succeeds
    -- and gives the message back, with its id, destination, priority, creation time and payload, as the
    -- first attempt.
    pub enqueue-Claims :
        (c : Ctx Store)
        → 0 < c.index_capacity
        → find_free_slot (record c { index = [] }) ≡ some slot
        → record_total_size (length m.destination) m.payload_len ≤ c.scratch_size
        → ltb_i64 now_us 0 ≡ false
        → Ends
            (λ a d. Claims (claim_next N now_us d))
            (λ e d. ⊥)
            (enqueue N m (record c { index = [] }))
    unfolding enqueue enqueue_at
    enqueue-Claims c some_room found room late =
        let e : NvsEntry = new_slot_entry m slot in
        let (buf, hdr, encoded, len, rec, dl, bl) =
          encode_fits c.scratch_size e m.destination m.payload
            (record {
              id_fits = v.id_fits;
              attempt_count_fits = omega arith;
              created_at_us_fits = v.created_fits;
              last_attempt_at_us_fits = omega arith;
              next_retry_at_us_fits = omega arith;
              last_error_fits = omega arith;
            })
            v.payload_len_fits v.payload_there short room in
        let size =
          record_total_size_bounds (length m.destination) m.payload_len (omega arith)
            v.payload_len_fits in
        let after : Ctx Store = record (stored N reliable (record c { index = [] }) slot buf) {
          slot_used = set c.slot_used slot true;
        } in
        Ends-if (leb c.index_capacity 0) _ _ (λ a d. Claims (claim_next N now_us d)) (λ x d. ⊥)
          (λ full. absurd (ground arith))
          λ free.
            Ends-some (find_free_slot (record c { index = [] })) slot _ _
              (λ a d. Claims (claim_next N now_us d)) (λ x d. ⊥) found
              (Ends-known (write_entry N e m.destination (Source.outside m.payload)) _
                (record c { index = [] }) _ tt (λ a d. Claims (claim_next N now_us d)) (λ x d. ⊥)
                (write_entry-ok N reliable e m.destination m.payload (record c { index = [] }) buf
                  encoded)
                (claim_next-Claims after hdr body
                  (record {
                    bytes = buf;
                    found = reliable.length_set c.store (slot_key slot) buf;
                    fits = omega (arith, len, room);
                    given = reliable.blob_set c.store (slot_key slot) buf;
                    readable = rec;
                    long = omega (arith, len, dl, size);
                    same_length = dl;
                    no_nul = no_nul;
                    short = short;
                  })
                  late room bl (omega (arith, len, size))))
