-- ===== src/Flashq/Compaction.antt =====
-- compact_locked: the live messages are copied to the spare region, which then becomes active.
use edgesync_espidf.Prelude.{
  ℕ, ◌+◌, ◌-◌, Option, none, some, List, [], ◌∷◌, ◌++◌, length, take, drop, ◌==◌, if◌then◌else◌,
  u32,
}
use edgesync_espidf.Types.{EspErr}
use edgesync_espidf.Format.{RecordFields, encode_message_full, encode_end, hdr_size, hdr_magic}
use edgesync_espidf.Flashq.Partition.{Partition}
use edgesync_espidf.Flashq.Context.{Entry, ok, fail, M, pure, ◌>>=◌, ◌>>◌, gets, modify}
use edgesync_espidf.Flashq.Helpers.{
  region_header_bytes, region_offset, status_offset, status_compacting, status_active, status_stale,
  partition_write_verify, ensure_region_erased,
}

-- The fields of an entry that a record carries.
abbrev pub fields_of : Entry → RecordFields
fields_of e = record {
  id = e.id;
  priority = e.priority;
  state = e.state;
  attempt_count = e.attempt_count;
  created_at_us = e.created_at_us;
  last_attempt_at_us = e.last_attempt_at_us;
  next_retry_at_us = e.next_retry_at_us;
  last_error = e.last_error;
}

-- What `strlen` and the encoder see of a char array: the bytes before the first NUL.
abbrev pub until_nul : List ℕ → List ℕ
until_nul [] = []
until_nul (b ∷ bs) = if b == 0 then [] else b ∷ until_nul bs

-- The record that the encoder left in the scratch buffer; a failed encoder left its length at 0.
abbrev pub scratch_of : Option (List ℕ) → List ℕ
scratch_of none = []
scratch_of (some buf) = buf

module _ (P : Partition) where
  open P use {Flash, read}

  -- `esp_partition_read` of the source record's header, destination and payload.
  unfoldable pub read_source : ℕ → Entry → M Flash (List ℕ)
  read_source source e ctx =
      elim (read ctx.flash (region_offset P ctx source + e.message_offset)
        (hdr_size + (e.destination_len + e.payload_len))) [
          | none ↦ fail EspErr.storage_err ctx
          | some bytes ↦ ok bytes ctx
        ]

  -- The record of an entry, encoded anew from the bytes of the source record.
  unfoldable pub reencode : Entry → List ℕ → ℕ → M Flash (List ℕ)
  reencode e bytes seq ctx =
      let destination = until_nul (take e.destination_len (drop hdr_size bytes)) in
      let payload = drop e.destination_len (drop hdr_size bytes) in
      elim (encode_message_full ctx.scratch_size (fields_of e) destination (some payload)
        e.payload_len seq) [ none ↦ fail EspErr.serialization ctx | some buf ↦ ok buf ctx ]

  -- The body of the loop over `i` up to its write; returns the length of the record.
  unfoldable pub write_copy : ℕ → ℕ → Entry → ℕ → ℕ → M Flash ℕ
  write_copy source target e new_cursor seq = do
    bytes ← read_source source e
    buf ← reencode e bytes seq
    base ← gets (λ c. region_offset P c target)
    partition_write_verify P (base + new_cursor) buf
    pure (length buf)

  -- The loop over `i`: `done` are the entries before it, whose offsets are new already. It returns
  -- `new_cursor` and `seq`.
  unfoldable pub copy_entries : ℕ → ℕ → List Entry → List Entry → ℕ → ℕ → M Flash (ℕ × ℕ)
  copy_entries source target done [] new_cursor seq = pure (new_cursor, seq)
  copy_entries source target done (e ∷ rest) new_cursor seq = do
    enc_len ← write_copy source target e new_cursor seq
    let moved : Entry = record e { message_offset = new_cursor }
    modify (λ c. record c { index = done ++ moved ∷ rest })
    copy_entries source target (done ++ moved ∷ []) rest (new_cursor + enc_len) (u32 (seq + 1))

  -- `ensure_region_erased(ctx, target)`, and the header of the new region.
  unfoldable pub begin_region : ℕ → ℕ → M Flash (Unit {0})
  begin_region target new_generation = do
    ensure_region_erased P target
    base ← gets (λ c. region_offset P c target)
    partition_write_verify P base (
        region_header_bytes (record {
          magic = hdr_magic;
          generation = new_generation;
          status = status_compacting;
          reserved = 0 ∷ 0 ∷ 0 ∷ [];
        }))

  -- The END marker, and the flip of the new region to ACTIVE; returns the cursor behind the marker.
  unfoldable pub finish_region : ℕ → ℕ → ℕ → M Flash ℕ
  finish_region target new_cursor seq = do
    base ← gets (λ c. region_offset P c target)
    marker ← gets (λ c. scratch_of (encode_end c.scratch_size seq))
    partition_write_verify P (base + new_cursor) marker
    partition_write_verify P (base + status_offset) (status_active ∷ [])
    pure (new_cursor + length marker)

  -- A step whose failure is not fatal: the state that it reached goes on.
  abbrev pub best_effort : M Flash (Unit {0}) → M Flash (Unit {0})
  best_effort m ctx = elim (m ctx) [ ok a c ↦ ok tt c | fail e c ↦ ok tt c ]

  -- The old region is marked STALE and erased.
  unfoldable pub retire_region : ℕ → M Flash (Unit {0})
  retire_region source = do
    base ← gets (λ c. region_offset P c source)
    best_effort (partition_write_verify P (base + status_offset) (status_stale ∷ []))
    best_effort (ensure_region_erased P source)

  -- compact_locked
  unfoldable pub compact_locked : M Flash (Unit {0})
  compact_locked = do
    source ← gets (λ c. c.active_region)
    let target : ℕ = 1 - source
    new_generation ← gets (λ c. u32 (c.active_generation + 1))
    begin_region target new_generation
    index ← gets (λ c. c.index)
    start ← gets (λ c. c.data_start)
    first_seq ← gets (λ c. c.next_seq)
    (copied_to, seq) ← copy_entries source target [] index start first_seq
    new_cursor ← finish_region target copied_to seq
    retire_region source
    modify (λ c. record c {
      active_region = target;
      active_generation = new_generation;
      cursor = new_cursor;
      next_seq = u32 (seq + 1);
      compactions_total = u32 (c.compactions_total + 1);
      updates_since_compaction = 0;
      awaiting_gc_count = 0;
    })
