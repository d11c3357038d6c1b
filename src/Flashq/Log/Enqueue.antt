-- ===== src/Flashq/Log/Enqueue.antt =====
-- op_enqueue over a NOR flash that holds a log.
use mathlib.Core.Option.{some-injective}
use mathlib.Core.Path.{subst}
use edgesync_espidf.Prelude.{
  ℕ, ◌+◌, ◌^◌, ◌≤◌, ◌<◌, ◌≡◌, refl, sym, ◌∙◌, ap, inl, inr, none, some, List, [], ◌∷◌, ◌++◌, length,
  All-append, leb, leb→lt, u8, u16, u32, arith,
}
use edgesync_espidf.Types.{Message}
use edgesync_espidf.Action.Outcome.{Ends, Ends-bind, Ends-if, Ends-option}
use edgesync_espidf.Format.{
  Header, new_fields, copied, encode_message, rec_message, record_total_size, max_destination_len,
}
use edgesync_espidf.Format.Records.{IsRecord, IsFitFields}
use edgesync_espidf.Format.Encode.{Describes, encode_message_full_outcome}
use edgesync_espidf.Flashq.Partition.{Partition}
use edgesync_espidf.Flashq.Context.{Entry, Ctx, M, ◌>>=◌, ◌>>◌, gets, modify}
use edgesync_espidf.Flashq.Helpers.{find_entry, append_locked}
use edgesync_espidf.Flashq.Compaction.{fields_of}
use edgesync_espidf.Flashq.Append.{free_bytes, ensure_space_locked}
use edgesync_espidf.Flashq.Scan.{ScanState, entry_of, apply_record}
use edgesync_espidf.Flashq.Ops.{new_entry, encode_into_scratch, enqueue_record, enqueue}
use edgesync_espidf.Flashq.Enqueue.{IsMessage}
use edgesync_espidf.Flashq.Nor.{IsNor}
use edgesync_espidf.Flashq.Log.{IsLogged}
use edgesync_espidf.Flashq.Log.Distinct.{IsDistinct-append}
use edgesync_espidf.Flashq.Log.Write.{IsLonger, append_locked-IsLonger}
use edgesync_espidf.Flashq.Log.Replay.{apply_record-message}
use edgesync_espidf.Flashq.Log.Update.{Fails, IsRoomy, ensure_space_locked-roomy, room_of}
use edgesync_espidf.Flashq.Log.Updated.{IsLogged-moved}

-- The record of a message, in the scratch buffer.
record IsMessageRecord (m : Message) (seq : ℕ) (buf : List ℕ) : Type 0 where
  hdr : Header
  decoded : IsRecord buf hdr m.destination (copied m.payload_len m.payload)
  described : Describes hdr rec_message (new_fields m) seq (length m.destination) m.payload_len
  created_is : hdr.created_at_us ≡ m.created_at_us
  priority_is : hdr.priority ≡ u8 m.priority
  short : length m.destination ≤ max_destination_len
  long : length buf ≡ record_total_size (length m.destination) m.payload_len

encode_message-IsMessageRecord :
    (buf_cap : ℕ) (m : Message) (seq : ℕ) (buf : List ℕ)
    → IsMessage m
    → seq < 2 ^ 32
    → encode_message buf_cap m seq ≡ some buf
    → IsMessageRecord m seq buf
unfolding encode_message
encode_message-IsMessageRecord buf_cap m seq buf v fits e =
    elim (encode_message_full_outcome buf_cap (new_fields m) m.destination m.payload m.payload_len
      seq (omega arith) fits v.payload_len_fits v.payload_there) [
        | inl (why, failed) ↦ absurd (cc)
        | inr (short, room, (buf', hdr, e', len, rec, des, created, priority)) ↦
            let same : buf' ≡ buf = some-injective _ _ (sym e' ∙ e) in
            record {
              hdr = hdr;
              decoded =
                  subst
                    (λ (b : List ℕ). IsRecord b hdr m.destination (copied m.payload_len m.payload))
                    same rec;
              described = des;
              created_is = created;
              priority_is = priority;
              short = short;
              long = ap length (sym same) ∙ len;
            }
      ]

-- The entry that the replay makes of the record is the one that op_enqueue makes of the message.
entry_of-new_entry :
    (m : Message) (seq off : ℕ) (buf : List ℕ) (r : IsMessageRecord m seq buf)
    → entry_of r.hdr off ≡ new_entry m off
entry_of-new_entry m seq off buf r =
    let dl : r.hdr.destination_len ≡ u16 (length m.destination) =
      omega (arith, r.described.destination_len_is, r.short) in
    λ i. record {
      id = r.described.id_is i;
      state = r.described.state_is i;
      priority = r.priority_is i;
      destination_len = dl i;
      attempt_count = r.described.attempt_count_is i;
      payload_len = r.described.body_len_is i;
      message_offset = off;
      created_at_us = r.created_is i;
      last_attempt_at_us = r.described.last_attempt_at_us_is i;
      next_retry_at_us = r.described.next_retry_at_us_is i;
      last_error = r.described.last_error_is i;
    }

-- A message that is not in the index, and room for its record without a compaction.
pub record IsNew {F : Type 0} (m : Message) (c : Ctx F) : Type 0 where
  pub message : IsMessage m
  pub fresh : find_entry c.index m.id ≡ none
  pub roomy : IsRoomy (record_total_size (length m.destination) m.payload_len) c
  pub seq_left : c.next_seq + 1 < 2 ^ 32

module _ (P : Partition) (size : ℕ) (byte : P.Flash → ℕ → ℕ) (nor : IsNor P size byte) where
  open P use {Flash}

  -- What op_enqueue does once there is room.
  abbrev encode_and_write : Message → M Flash (Unit {0})
  encode_and_write m = do
    buf ← encode_into_scratch P m
    offset ← gets (λ (x : Ctx Flash). x.cursor)
    append_locked P buf
    modify (λ (x : Ctx Flash). record x { index = x.index ++ new_entry m offset ∷ [] })

  module _ (m : Message) (c : Ctx Flash) (v : IsLogged P size byte c) (w : IsNew m c)
      (free : length c.index < c.index_capacity) where
    IsLogged-appended :
        (buf : List ℕ) (r : IsMessageRecord m c.next_seq buf) (d : Ctx Flash)
        → c.cursor + length buf ≤ c.region_size
        → IsLonger P size byte nor c d buf (apply_record c.index_capacity r.hdr v.scanned)
        → IsLogged P size byte (record d { index = d.index ++ new_entry m c.cursor ∷ [] })
    IsLogged-appended buf r d room l =
        let next : ScanState = apply_record c.index_capacity r.hdr v.scanned in
        let e =
          apply_record-message c.index_capacity r.hdr v.scanned
            (omega (arith, r.described.seq_is, v.seq_is)) r.described.type_is
            (rw v.index_is free) in
        let entry : entry_of r.hdr v.scanned.off ≡ new_entry m c.cursor =
          ap (entry_of r.hdr) v.off_is ∙ entry_of-new_entry m c.next_seq c.cursor buf r in
        subst
          (λ (x : Ctx Flash).
            IsLogged P size byte (record x { index = x.index ++ new_entry m c.cursor ∷ [] }))
          (sym l.only)
          (IsLogged-moved P size byte nor c d.flash next (c.cursor + length buf)
            (u32 (c.next_seq + 1)) c.awaiting_gc_count c.updates_since_compaction
            (c.index ++ new_entry m c.cursor ∷ []) v.placed v.marked l.held l.same l.moved
            (omega arith) room
            (omega
              (arith, ap (λ (s : ScanState). s.max_seq_seen) e, r.described.seq_is, w.seq_left))
            (omega (arith, w.seq_left))
            (ap (λ (s : ScanState). s.index) e
              ∙ ap (λ (xs : List Entry). xs ++ entry_of r.hdr v.scanned.off ∷ []) v.index_is
              ∙ ap (λ (x : Entry). c.index ++ x ∷ []) entry)
            (ap (λ (s : ScanState). s.awaiting_gc_count) e ∙ v.gc_is)
            (All-append (λ (x : Entry). IsFitFields (fields_of x)) c.index
              (new_entry m c.cursor ∷ []) v.entries_fit (omega (arith, w.message), tt))
            (IsDistinct-append c.index (new_entry m c.cursor) v.distinct w.fresh))

    abbrev Encoded : List ℕ → Ctx Flash → Type 0
    Encoded buf d = (d ≡ c) × IsMessageRecord m c.next_seq buf

    encode_into_scratch-Encoded : Ends Encoded Fails (encode_into_scratch P m c)
    unfolding encode_into_scratch
    encode_into_scratch-Encoded =
        Ends-option (encode_message c.scratch_size m c.next_seq) _ _ Encoded Fails (λ e. tt)
          (λ buf e. (
            refl,
            encode_message-IsMessageRecord c.scratch_size m c.next_seq buf w.message v.seq_fits e,
          ))

    abbrev Kept : Unit {0} → Ctx Flash → Type 0
    Kept a d = IsLogged P size byte d

    -- The write, and the entry behind it.
    append_entry-IsLogged :
        (buf : List ℕ)
        → IsMessageRecord m c.next_seq buf
        → c.cursor + length buf ≤ c.region_size
        → Ends Kept Fails (
            (append_locked P buf
                >> modify (λ x. record x { index = x.index ++ new_entry m c.cursor ∷ [] }))
              c)
    append_entry-IsLogged buf r room =
        Ends-bind (append_locked P buf) _ c
          (λ a d. IsLonger P size byte nor c d buf (apply_record c.index_capacity r.hdr v.scanned))
          Kept Fails
          (append_locked-IsLonger P size byte nor c v.scanned v.held v.off_is buf r.hdr
            m.destination (copied m.payload_len m.payload) r.decoded
            (omega (arith, r.described.destination_len_is, r.short))
            (omega (arith, r.described.body_len_is, w.message.payload_len_fits))
            (rw (r.described.destination_len_is, r.described.body_len_is) r.long) room
            v.placed.region_inside)
          (λ a d l. IsLogged-appended buf r d room l)

    -- The second encoding, and the write.
    write_entry-IsLogged :
        c.cursor + record_total_size (length m.destination) m.payload_len ≤ c.region_size
        → Ends Kept Fails (encode_and_write m c)
    write_entry-IsLogged room =
        Ends-bind (encode_into_scratch P m) _ c Encoded Kept Fails encode_into_scratch-Encoded
          (λ buf d (same, r).
            subst
              (λ (x : Ctx Flash). Ends Kept Fails (
                (append_locked P buf
                    >> modify (λ y. record y { index = y.index ++ new_entry m x.cursor ∷ [] }))
                  x))
              (sym same) (append_entry-IsLogged buf r (rw r.long room)))

    enqueue_record-IsLogged : Ends Kept Fails (enqueue_record P m c)
    unfolding enqueue_record
    enqueue_record-IsLogged =
        Ends-bind (encode_into_scratch P m) _ c Encoded Kept Fails encode_into_scratch-Encoded
          λ sized d (same, r).
            subst
              (λ (x : Ctx Flash).
                Ends Kept Fails ((ensure_space_locked P (length sized) >> encode_and_write m) x))
              (sym same)
              (Ends-bind (ensure_space_locked P (length sized)) _ c
                (λ a d. (d ≡ c) × (length sized ≤ free_bytes c)) Kept Fails
                (ensure_space_locked-roomy P (length sized) c (rw r.long w.roomy))
                (λ a d (same', room).
                  subst (λ (x : Ctx Flash). Ends Kept Fails (encode_and_write m x)) (sym same')
                    (write_entry-IsLogged (room_of _ v.placed (rw r.long at room)))))

  pub enqueue-IsLogged :
      (m : Message) (c : Ctx Flash)
      → IsLogged P size byte c
      → IsNew m c
      → Ends (λ a d. IsLogged P size byte d) Fails (enqueue P m c)
  unfolding enqueue
  enqueue-IsLogged m c v w =
      Ends-if (leb c.index_capacity (length c.index)) _ _ (λ a d. IsLogged P size byte d) Fails
        (λ full. tt) (λ free. enqueue_record-IsLogged m c v w (leb→lt _ _ free))
