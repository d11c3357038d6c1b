-- ===== src/Flashq/Enqueue.antt =====
-- The branches of op_enqueue (edgesync_storage_flashq.c).
use mathlib.Core.Option.{some-injective}
use mathlib.Core.Path.{subst}
use edgesync_espidf.Prelude.{
  ℕ, ◌+◌, ◌%◌, ◌^◌, ◌≤◌, ◌<◌, ◌≡◌, refl, sym, ◌∙◌, ap, ◌⊎◌, inl, inr, some, List, [], ◌∷◌, ◌++◌,
  length, leb, leb→lt, arith,
}
use edgesync_espidf.Types.{EspErr, Message, state_pending}
use edgesync_espidf.Format.{Header, new_fields, copied, encode_message, rec_message}
use edgesync_espidf.Format.RoundTrip.{IsReadable}
use edgesync_espidf.Format.Size.{max_body_len}
use edgesync_espidf.Format.Records.{IsRecord}
use edgesync_espidf.Format.Encode.{encode_message_full_outcome}
use edgesync_espidf.Flashq.Partition.{Partition}
use edgesync_espidf.Flashq.Context.{Entry, Ctx, ◌>>◌, modify}
use edgesync_espidf.Action.Outcome.{Ends, Ends-bind, Ends-map, Ends-if, Ends-option, Ends-both}
use edgesync_espidf.Action.Keeps.{IsFailure, KeptIn-from}
use edgesync_espidf.Flashq.Helpers.{region_offset, append_locked}
use edgesync_espidf.Flashq.Append.{ensure_space_locked}
use edgesync_espidf.Flashq.Frame.{cores, Frame, Frame-refl, Frame-trans, framed}
use edgesync_espidf.Flashq.Frame.Compact.{ensure_space_locked-Frames, append_locked-Frames}
use edgesync_espidf.Flashq.Written.{Stored, IsAppended, append_locked-Ends}
use edgesync_espidf.Flashq.Ops.{new_entry, encode_into_scratch, enqueue_record, enqueue}

-- A message as edgesync_publish builds it: the fields fit, and the payload is there.
pub record IsMessage (m : Message) : Type 0 where
  pub id_fits : m.id < 2 ^ 64
  pub created_fits : m.created_at_us < 2 ^ 64
  pub payload_len_fits : m.payload_len ≤ max_body_len
  pub payload_there : IsReadable m.payload_len m.payload

-- The header of the record of a message that was not attempted yet.
pub record IsHeaderOf (m : Message) (seq : ℕ) (hdr : Header) : Type 0 where
  pub type_is : hdr.type ≡ rec_message
  pub seq_is : hdr.seq ≡ seq
  pub id_is : hdr.message_id ≡ m.id
  pub priority_is : hdr.priority ≡ m.priority % 2 ^ 8
  pub state_is : hdr.state ≡ state_pending
  pub created_at_us_is : hdr.created_at_us ≡ m.created_at_us
  pub attempt_count_is : hdr.attempt_count ≡ 0
  pub last_attempt_at_us_is : hdr.last_attempt_at_us ≡ 0
  pub next_retry_at_us_is : hdr.next_retry_at_us ≡ 0
  pub last_error_is : hdr.last_error ≡ 0
  pub destination_len_is : hdr.destination_len ≡ length m.destination
  pub body_len_is : hdr.body_len ≡ m.payload_len

-- The entry of such a message, with its record at `offset`.
pub record IsEntryOf (m : Message) (offset : ℕ) (e : Entry) : Type 0 where
  pub id_is : e.id ≡ m.id
  pub state_is : e.state ≡ state_pending
  pub priority_is : e.priority ≡ m.priority % 2 ^ 8
  pub destination_len_is : e.destination_len ≡ length m.destination
  pub attempt_count_is : e.attempt_count ≡ 0
  pub payload_len_is : e.payload_len ≡ m.payload_len
  pub message_offset_is : e.message_offset ≡ offset
  pub created_at_us_is : e.created_at_us ≡ m.created_at_us
  pub last_attempt_at_us_is : e.last_attempt_at_us ≡ 0
  pub next_retry_at_us_is : e.next_retry_at_us ≡ 0
  pub last_error_is : e.last_error ≡ 0

-- What a buffer that edgesync_flashq_encode_message filled can be decoded to: the message, its destination
-- and its payload.
pub record IsEncoded (m : Message) (seq : ℕ) (buf : List ℕ) : Type 0 where
  pub hdr : Header
  pub short : length m.destination ≤ 63
  pub decoded : IsRecord buf hdr m.destination (copied m.payload_len m.payload)
  pub described : IsHeaderOf m seq hdr

new_entry-IsEntryOf :
    (m : Message) (offset : ℕ) → length m.destination ≤ 63 → IsEntryOf m offset (new_entry m offset)
new_entry-IsEntryOf m offset short = record {
  id_is = refl;
  state_is = refl;
  priority_is = refl;
  destination_len_is = omega (arith, short);
  attempt_count_is = refl;
  payload_len_is = refl;
  message_offset_is = refl;
  created_at_us_is = refl;
  last_attempt_at_us_is = refl;
  next_retry_at_us_is = refl;
  last_error_is = refl;
}

encode_message-IsEncoded :
    (buf_cap : ℕ) (m : Message) (seq : ℕ) (buf : List ℕ)
    → IsMessage m
    → seq < 2 ^ 32
    → encode_message buf_cap m seq ≡ some buf
    → IsEncoded m seq buf
unfolding encode_message
encode_message-IsEncoded buf_cap m seq buf v fits e =
    elim (encode_message_full_outcome buf_cap (new_fields m) m.destination m.payload m.payload_len
      seq (omega arith) fits v.payload_len_fits v.payload_there) [
        | inl (why, failed) ↦ absurd (cc)
        | inr (short, room, (buf', hdr, e', len, rec, des, created, priority)) ↦
            let same : buf' ≡ buf = some-injective _ _ (sym e' ∙ e) in
            record {
              hdr = hdr;
              short = short;
              decoded =
                  subst
                    (λ (b : List ℕ). IsRecord b hdr m.destination (copied m.payload_len m.payload))
                    same rec;
              described = record {
                type_is = des.type_is;
                seq_is = des.seq_is;
                id_is = des.id_is;
                priority_is = priority;
                state_is = des.state_is;
                created_at_us_is = created;
                attempt_count_is = des.attempt_count_is;
                last_attempt_at_us_is = des.last_attempt_at_us_is;
                next_retry_at_us_is = des.next_retry_at_us_is;
                last_error_is = des.last_error_is;
                destination_len_is = des.destination_len_is;
                body_len_is = des.body_len_is;
              };
            }
      ]

module _ (P : Partition) where
  open P use {Flash}

  -- The state after ESP_OK: the index has one more entry, with the message's fields, and the flash holds at
  -- its offset in the active region a record from which the message is read back.
  pub record IsEnqueued (c c' : Ctx Flash) (m : Message) : Type 0 where
    pub earlier : List Entry
    pub offset : ℕ
    pub buf : List ℕ
    pub seq : ℕ
    pub entry : Entry
    pub encoded : IsEncoded m seq buf
    pub entry_is : IsEntryOf m offset entry
    pub next_seq_is : c'.next_seq ≡ (seq + 1) % 2 ^ 32
    pub earlier_same : cores earlier ≡ cores c.index
    pub index_is : c'.index ≡ earlier ++ entry ∷ []
    pub durable : Stored P c' (region_offset P c' c'.active_region + offset) buf

  encode_into_scratch-Ends :
      (m : Message) (c : Ctx Flash)
      → Ends
          (λ buf c'. (c' ≡ c) × (encode_message c.scratch_size m c.next_seq ≡ some buf))
          (λ e c'. Frame c c' × IsFailure e)
          (encode_into_scratch P m c)
  unfolding encode_into_scratch
  encode_into_scratch-Ends m c =
      Ends-option (encode_message c.scratch_size m c.next_seq) _ _
        (λ buf c'. (c' ≡ c) × (encode_message c.scratch_size m c.next_seq ≡ some buf))
        (λ e c'. Frame c c' × IsFailure e) (λ e. (Frame-refl c, tt)) (λ buf e. (refl, e))

  -- The last two steps, from a state with room for the record.
  IsEnqueued-append :
      (c c₁ c₂ : Ctx Flash) (m : Message) (buf : List ℕ)
      → Frame c c₁
      → IsEncoded m c₁.next_seq buf
      → IsAppended P c₁ c₂ buf
      → IsEnqueued c (record c₂ { index = c₂.index ++ new_entry m c₁.cursor ∷ [] }) m
  IsEnqueued-append c c₁ c₂ m buf p enc a = record {
    earlier = c₁.index;
    offset = c₁.cursor;
    buf = buf;
    seq = c₁.next_seq;
    entry = new_entry m c₁.cursor;
    encoded = enc;
    entry_is = new_entry-IsEntryOf m c₁.cursor enc.short;
    next_seq_is = ap (λ (d : Ctx Flash). d.next_seq) a.only;
    earlier_same = p.same_index;
    index_is = ap (λ (d : Ctx Flash). d.index ++ new_entry m c₁.cursor ∷ []) a.only;
    durable =
        subst (λ (d : Ctx Flash). Stored P d (region_offset P d d.active_region + c₁.cursor) buf)
          (sym (
            ap (λ (d : Ctx Flash). record d { index = d.index ++ new_entry m c₁.cursor ∷ [] })
              a.only))
          a.stored;
  }

  abbrev Grows : Ctx Flash → Message → Unit {0} → Ctx Flash → Type 0
  Grows c m a c' = IsEnqueued c c' m

  abbrev Kept : Ctx Flash → EspErr → Ctx Flash → Type 0
  Kept c e c' = Frame c c' × IsFailure e

  -- The write, and the entry behind it.
  append_entry-Ends :
      (m : Message) (c c₁ : Ctx Flash) (buf : List ℕ)
      → Frame c c₁
      → IsEncoded m c₁.next_seq buf
      → Ends (Grows c m) (Kept c) (
          (append_locked P buf
              >> modify (λ c. record c { index = c.index ++ new_entry m c₁.cursor ∷ [] }))
            c₁)
  append_entry-Ends m c c₁ buf p enc =
      Ends-bind (append_locked P buf) _ c₁ (λ a d. IsAppended P c₁ d buf × Frame c d) (Grows c m)
        (Kept c)
        (Ends-both (append_locked P buf c₁) _ _ _ _ (append_locked-Ends P buf c₁)
          (KeptIn-from framed (append_locked P buf) c c₁ p (append_locked-Frames P buf)))
        (λ a c₂ w. IsEnqueued-append c c₁ c₂ m buf p enc w.0)

  enqueue_record-Ends :
      (m : Message) (c : Ctx Flash)
      → IsMessage m
      → c.next_seq < 2 ^ 32
      → Ends (Grows c m) (Kept c) (enqueue_record P m c)
  unfolding enqueue_record
  enqueue_record-Ends m c v fits =
      Ends-bind (encode_into_scratch P m) _ c
        (λ buf d. (d ≡ c) × (encode_message c.scratch_size m c.next_seq ≡ some buf)) (Grows c m)
        (Kept c) (encode_into_scratch-Ends m c)
        λ sized c₀ (same, e).
          Ends-bind (ensure_space_locked P (length sized)) _ c₀ (λ a d. Frame c d) (Grows c m)
            (Kept c)
            (KeptIn-from framed (ensure_space_locked P (length sized)) c c₀
              (subst (λ (d : Ctx Flash). Frame c d) (sym same) (Frame-refl c))
              (ensure_space_locked-Frames P (length sized)))
            λ b c₁ p.
              Ends-bind (encode_into_scratch P m) _ c₁
                (λ buf d. (d ≡ c₁) × (encode_message c₁.scratch_size m c₁.next_seq ≡ some buf))
                (Grows c m) (Kept c)
                (Ends-map (encode_into_scratch P m c₁) _ _ (λ e' d. Frame c₁ d × IsFailure e')
                  (Kept c) (encode_into_scratch-Ends m c₁) (λ buf d h. h)
                  (λ e' d q. (Frame-trans p q.0, q.1)))
                λ buf c₁' (same', e').
                  subst
                    (λ (d : Ctx Flash). Ends (Grows c m) (Kept c) (
                      (append_locked P buf
                          >> modify
                              (λ x. record x { index = x.index ++ new_entry m d.cursor ∷ [] }))
                        d))
                    (sym same')
                    (append_entry-Ends m c c₁ buf p (
                      encode_message-IsEncoded c₁.scratch_size m c₁.next_seq buf v (p.seq_fits fits)
                        e'))

  -- op_enqueue of the flash queue, for a message whose fields fit and whose payload is there: if it
  -- returns ESP_OK, the index had room and has one more entry, at its end, that is PENDING and has
  -- the message's id, priority (its low byte), lengths and creation time; the other entries are the
  -- same but for the offsets of their records; and at the new entry's offset in the active region
  -- the flash holds a record with both CRCs right that decodes to the id, the priority, the
  -- creation time, the destination and the payload of the message, PENDING and without attempts,
  -- and to the sequence number before the next one. If it fails, the index has the same entries but
  -- for those offsets; and unless the index had room, the error is EDGESYNC_ERR_QUEUE_FULL and the
  -- whole state is the same.
  pub enqueue_outcome :
      (m : Message) (c : Ctx Flash)
      → IsMessage m
      → c.next_seq < 2 ^ 32
      → Ends
          (λ a c'. (length c.index < c.index_capacity) × IsEnqueued c c' m)
          (λ e c'.
            Frame c c'
            × ((length c.index < c.index_capacity) ⊎ ((e ≡ EspErr.queue_full) × (c' ≡ c))))
          (enqueue P m c)
  unfolding enqueue
  enqueue_outcome m c v fits =
      Ends-if (leb c.index_capacity (length c.index)) _ _ _ _
        (λ full. (Frame-refl c, inr (refl, refl)))
        (λ free.
          let room : length c.index < c.index_capacity = leb→lt _ _ free in
          Ends-map (enqueue_record P m c) (Grows c m) _ (Kept c) _ (enqueue_record-Ends m c v fits)
            (λ a d g. (room, g)) (λ e d p. (p.0, inl room)))
