-- ===== src/Nvs/Retry.antt =====
-- What a rewrite of a blob through the scratch buffer leaves of the payload.
pub mod Zeros
use mathlib.Core.Path.{subst}
use mathlib.Core.List.{append_assoc}
use mathlib.Core.Option.{some-injective}
use edgesync_espidf.Prelude.{
  ℕ, zero, suc, ◌+◌, ◌-◌, ◌^◌, ◌≤◌, ◌<◌, ◌≡◌, refl, sym, ◌∙◌, ap, ◌⊎◌, inl, inr, Bool, some, none,
  Option, List, [], ◌∷◌, ◌++◌, length, take, drop, replicate, take-length, drop-append_of,
  drop-append_before, take-append_before, length-drop, length-append, length-replicate, le→ltb,
  arith, u16,
}
use edgesync_espidf.Types.{EspErr}
use edgesync_espidf.Format.{
  Header, RecordFields, hdr_size, max_destination_len, record_total_size, header_bytes,
  sealed_header, message_header, copied, encode_message_full, rec_message,
}
use edgesync_espidf.Format.RoundTrip.{IsReadable, length-header_bytes}
use edgesync_espidf.Format.Size.{max_body_len, record_total_size_bounds}
use edgesync_espidf.Format.Records.{IsRecord, IsFitFields}
use edgesync_espidf.Format.Encode.{Describes, encode_message_full_outcome}
use edgesync_espidf.Action.{ok, Res}
use edgesync_espidf.Action.Outcome.{Ends, Ends-map, Ends-if, Ends-none, Ends-some, Ends-known}
use edgesync_espidf.Flashq.Helpers.{find_entry, entry_at, update_at}
use edgesync_espidf.Flashq.Ids.{find_entry-ids}
use edgesync_espidf.Flashq.Positions.{entry_at-update_at}
use edgesync_espidf.Flashq.Compaction.{fields_of, until_nul}
use edgesync_espidf.Nvs.{Nvs, Ctx, NvsEntry, slot_of, slot_key}
use edgesync_espidf.Nvs.Entries.{
  Source, over, scratch_at_copy, payload_read, put_blob, write_entry, verify_blob, read_and_verify,
}
use edgesync_espidf.Nvs.Retry.Zeros.{scratch_at_copy-zeros}
use edgesync_espidf.Nvs.Ops.{retried, retry_slot, schedule_retry}

module _ (N : Nvs) where
  open N use {Store, get_length, get_blob, set_blob, commit}

  -- The slot was given a record of the entry whose payload is all zeros.
  pub record IsZeroed (e : NvsEntry) (destination : List ℕ) (store store' : Store) : Type 0 where
    pub buf : List ℕ
    pub hdr : Header
    pub decoded : IsRecord buf hdr destination (replicate e.payload_len 0)
    pub described : Describes hdr rec_message (fields_of e) 0 (length destination) e.payload_len
    pub written : store' ≡ (commit (set_blob store (slot_key (slot_of e)) buf).1).1

  abbrev pub Fails : EspErr → Type 0
  Fails e = (e ≡ EspErr.storage_err) ⊎ (e ≡ EspErr.serialization)

  put_blob-Ends :
      (slot : ℕ) (buf : List ℕ) (c : Ctx Store)
      → Ends
          (λ a c'.
            (c'.store ≡ (commit (set_blob c.store (slot_key slot) buf).1).1) × (c'.index ≡ c.index))
          (λ x c'. Fails x)
          (put_blob N slot buf c)
  unfolding put_blob
  put_blob-Ends slot buf c =
      let (was_set, s₁) = set_blob c.store (slot_key slot) buf in
      Ends-if was_set _ _ _ (λ x c'. Fails x)
        (λ h. Ends-if (commit s₁).0 _ _ _ (λ x c'. Fails x) (λ h. (refl, refl)) (λ h. inl refl))
        (λ h. inl refl)

  write_entry-IsZeroed :
      (e : NvsEntry) (destination : List ℕ) (c : Ctx Store)
      → IsFitFields (fields_of e)
      → e.payload_len ≤ max_body_len
      → length destination ≤ max_destination_len
      → Ends
          (λ a c'. IsZeroed e destination c.store c'.store × (c'.index ≡ c.index))
          (λ x c'. Fails x)
          (write_entry N e destination (Source.in_scratch (hdr_size + length destination)) c)
  unfolding write_entry payload_read
  write_entry-IsZeroed e destination c v b d =
      let (zeros, room) = scratch_at_copy-zeros e destination c.scratch d b in
      let seen : List ℕ =
        drop (hdr_size + length destination) (scratch_at_copy e destination c.scratch) in
      elim (encode_message_full_outcome c.scratch_size (fields_of e) destination (some seen)
        e.payload_len 0 v (omega arith) b room) [
          | inl (why, failed) ↦ Ends-none _ _ _ _ (λ x c'. Fails x) failed (inr refl)
          | inr (short, large, (buf, hdr, e', len, rec, des, created, priority)) ↦
              Ends-some _ buf _ _ _ (λ x c'. Fails x) e'
                (Ends-map (put_blob N (slot_of e) buf (record c { scratch = over buf c.scratch })) _
                  _ _ (λ x c'. Fails x)
                  (put_blob-Ends (slot_of e) buf (record c { scratch = over buf c.scratch }))
                  (λ a c' w. (
                    record {
                      buf = buf;
                      hdr = hdr;
                      decoded = rw zeros at rec;
                      described = des;
                      written = w.0;
                    },
                    w.1,
                  ))
                  (λ x c' h. h))
        ]

  -- The slot of the entry has a record that reads back with this header and destination.
  pub record HasBlob (c : Ctx Store) (e : NvsEntry) (hdr : Header) (destination payload : List ℕ)
      : Type 0 where
    pub bytes : List ℕ
    pub found : get_length c.store (slot_key (slot_of e)) ≡ some (length bytes)
    pub fits : length bytes ≤ c.scratch_size
    pub given : get_blob c.store (slot_key (slot_of e)) (length bytes) ≡ some bytes
    pub readable : IsRecord bytes hdr destination payload
    pub long : hdr_size + hdr.destination_len ≤ length bytes
    pub same_length : hdr.destination_len ≡ length destination
    pub no_nul : until_nul destination ≡ destination
    pub short : length destination ≤ max_destination_len

  pub read_and_verify-ok :
      (c : Ctx Store) (e : NvsEntry) (hdr : Header) (destination payload : List ℕ)
      (h : HasBlob c e hdr destination payload)
      → read_and_verify N (slot_of e) c ≡ ok hdr (record c { scratch = over h.bytes c.scratch })
  unfolding read_and_verify verify_blob
  read_and_verify-ok c e hdr destination payload h =
      rw
        (
          h.found,
          le→ltb c.scratch_size (length h.bytes) h.fits,
          h.given,
          h.readable.accepted,
          h.readable.intact,
          read_and_verify,
          verify_blob,
        )
        refl

  destination-over :
      (c : Ctx Store) (e : NvsEntry) (hdr : Header) (destination payload : List ℕ)
      (h : HasBlob c e hdr destination payload)
      → until_nul (take hdr.destination_len (drop hdr_size (over h.bytes c.scratch))) ≡ destination
  destination-over c e hdr destination payload h =
      let old : List ℕ = drop (length h.bytes) c.scratch in
      rw (drop-append_before hdr_size h.bytes old (omega (arith, h.long))) (
        rw
          (take-append_before hdr.destination_len (drop hdr_size h.bytes) old
            (omega (arith, h.long, length-drop hdr_size h.bytes)))
          (rw h.readable.destination_read h.no_nul))

  -- The call that op_schedule_retry makes, with what it reads in the places of the terms.
  write_entry-same :
      (e e' : NvsEntry) (destination destination' : List ℕ) (len : ℕ) (c : Ctx Store)
      (Q : Unit {0} → Ctx Store → Type 0) (E : EspErr → Ctx Store → Type 0)
      → e ≡ e'
      → destination ≡ destination'
      → len ≡ length destination'
      → Ends Q E
          (write_entry N e' destination' (Source.in_scratch (hdr_size + length destination')) c)
      → Ends Q E (write_entry N e destination (Source.in_scratch (hdr_size + len)) c)
  write_entry-same e e' destination destination' len c Q E p q r h =
      subst (λ (res : Res (Ctx Store) (Unit {0})). Ends Q E res) (cc) h

  -- op_schedule_retry for a message whose blob is intact and whose destination has no NUL: if it
  -- returns ESP_OK, the entry is retried or dead-lettered as asked, but the record that its slot was given
  -- has zeros in place of its payload, with both CRCs right; otherwise the error is
  -- EDGESYNC_ERR_STORAGE or EDGESYNC_ERR_SERIALIZATION.
  pub schedule_retry-IsZeroed :
      (id t pos : ℕ) (dead : Bool) (x : EspErr) (c : Ctx Store) (hdr : Header)
      (destination payload : List ℕ)
      → find_entry c.index id ≡ some pos
      → HasBlob c (entry_at c.index pos) hdr destination payload
      → IsFitFields (fields_of (retried t dead x (entry_at c.index pos)))
      → (entry_at c.index pos).payload_len ≤ max_body_len
      → Ends
          (λ a c'.
            IsZeroed (retried t dead x (entry_at c.index pos)) destination c.store c'.store
            × (c'.index ≡ update_at c.index pos (retried t dead x)))
          (λ err c'. Fails err)
          (schedule_retry N id t dead x c)
  unfolding schedule_retry retry_slot
  schedule_retry-IsZeroed id t pos dead x c hdr destination payload found h v b =
      let e = entry_at c.index pos in
      let (there, bound) = find_entry-ids c.index id pos found in
      let c₂ : Ctx Store = record c {
        scratch = over h.bytes c.scratch;
        index = update_at c.index pos (retried t dead x);
      } in
      Ends-some (find_entry c.index id) pos _ _ _ (λ err c'. Fails err) found
        (Ends-known (read_and_verify N (slot_of e)) _ c _ hdr _ (λ err c'. Fails err)
          (read_and_verify-ok c e hdr destination payload h)
          (write_entry-same _ (retried t dead x e) _ destination hdr.destination_len c₂ _ _
            (entry_at-update_at c.index pos (retried t dead x) bound)
            (destination-over c e hdr destination payload h) h.same_length
            (write_entry-IsZeroed (retried t dead x e) destination c₂ v b h.short)))
