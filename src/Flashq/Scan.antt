-- ===== src/Flashq/Scan.antt =====
-- scan_region: the log of a region is read from its start and replayed into the index.
pub mod Stops
use edgesync_espidf.Prelude.{
  ℕ, zero, suc, ◌+◌, true, false, ◌||◌, Option, none, some, List, [], ◌∷◌, ◌++◌, length, ltb, leb,
  ◌==◌, if◌then◌else◌, u32,
}
use edgesync_espidf.Types.{state_pending, state_in_flight, state_delivered, state_removed}
use edgesync_espidf.Format.{
  Header, decode_header, verify_body, hdr_size, round4, rec_message, rec_update,
}
use edgesync_espidf.Flashq.Partition.{Partition}
use edgesync_espidf.Flashq.Context.{Entry, Ctx, ok, M, pure, ◌>>=◌, ◌>>◌, gets, modify}
use edgesync_espidf.Flashq.Helpers.{region_offset, find_entry, entry_at, update_at, remove_entry_at}
use edgesync_espidf.Flashq.Append.{append_state_update_locked}

-- What the loop changes: `max_seq_seen`, `off`, and two fields of the context.
pub record ScanState : Type 0 where
  pub off : ℕ
  pub max_seq_seen : ℕ
  pub index : List Entry
  pub awaiting_gc_count : ℕ

-- The bytes of a record before its padding.
abbrev pub total_needed : Header → ℕ
total_needed hdr = u32 (hdr_size + u32 (hdr.destination_len + hdr.body_len) + 4)

-- The entry that a MESSAGE record at `off` stands for.
abbrev pub entry_of : Header → ℕ → Entry
entry_of hdr off = record {
  id = hdr.message_id;
  state = hdr.state;
  priority = hdr.priority;
  destination_len = hdr.destination_len;
  attempt_count = hdr.attempt_count;
  payload_len = hdr.body_len;
  message_offset = off;
  created_at_us = hdr.created_at_us;
  last_attempt_at_us = hdr.last_attempt_at_us;
  next_retry_at_us = hdr.next_retry_at_us;
  last_error = hdr.last_error;
}

-- What an UPDATE record sets in its entry.
abbrev pub updated : Header → Entry → Entry
updated hdr e = record e {
  state = hdr.state;
  attempt_count = hdr.attempt_count;
  last_attempt_at_us = hdr.last_attempt_at_us;
  next_retry_at_us = hdr.next_retry_at_us;
  last_error = hdr.last_error;
}

-- The branch of a MESSAGE record.
unfoldable pub apply_message : ℕ → Header → ScanState → ScanState
apply_message index_capacity hdr s =
    if leb index_capacity (length s.index)
    then s
    else record s { index = s.index ++ entry_of hdr s.off ∷ [] }

-- The branch of an UPDATE record for the entry at `pos`.
unfoldable pub apply_update_at : Header → ℕ → ScanState → ScanState
apply_update_at hdr pos s =
    let index : List Entry = update_at s.index pos (updated hdr) in
    if (hdr.state == state_delivered) || (hdr.state == state_removed)
    then record s {
      index = remove_entry_at index pos;
      awaiting_gc_count = u32 (s.awaiting_gc_count + 1);
    }
    else record s { index = index }

-- The branch of an UPDATE record.
unfoldable pub apply_update : Header → ScanState → ScanState
apply_update hdr s = elim (find_entry s.index hdr.message_id) [
  | none ↦ s
  | some pos ↦ apply_update_at hdr pos s
]

-- The body of the loop for a valid record.
unfoldable pub apply_record : ℕ → Header → ScanState → ScanState
apply_record index_capacity hdr s =
    let seen : ScanState = record s {
      max_seq_seen = if ltb s.max_seq_seen hdr.seq then hdr.seq else s.max_seq_seen;
    } in
    let next : ScanState =
      if hdr.type == rec_message
      then apply_message index_capacity hdr seen
      else if hdr.type == rec_update
      then apply_update hdr seen
      else seen in
    record next { off = next.off + round4 (total_needed hdr) }

module _ (P : Partition) where
  open P use {Flash, read}

  -- The body of the record whose header was read, if it lies in the region and its CRC is right.
  unfoldable pub checked_record : Ctx Flash → ℕ → ℕ → Header → Option Header
  checked_record ctx region off hdr =
      if ltb ctx.region_size (u32 (off + total_needed hdr))
      then none
      else elim (read ctx.flash (region_offset P ctx region + off + hdr_size)
          (u32 (u32 (hdr.destination_len + hdr.body_len) + 4))) [
            | none ↦ none
            | some body ↦ if verify_body hdr body then some hdr else none
          ]

  -- The valid record at `off`; `none` is a `break` of the loop.
  unfoldable pub record_at : Ctx Flash → ℕ → ℕ → Option Header
  record_at ctx region off = elim (read ctx.flash (region_offset P ctx region + off) hdr_size) [
    | none ↦ none
    | some hdr_buf ↦ elim (decode_header hdr_buf) [
      | none ↦ none
      | some hdr ↦ checked_record ctx region off hdr
    ]
  ]

  -- The loop. `off` grows by at least 64 each time, so `region_size` rounds are enough.
  unfoldable pub scan_loop : ℕ → Ctx Flash → ℕ → ScanState → ScanState
  scan_loop zero ctx region s = s
  scan_loop (suc fuel) ctx region s = elim (leb (s.off + hdr_size) ctx.region_size) [
    | false ↦ s
    | true ↦ elim (record_at ctx region s.off) [
      | none ↦ s
      | some hdr ↦ scan_loop fuel ctx region (apply_record ctx.index_capacity hdr s)
    ]
  ]

  -- The body of the last loop: an IN_FLIGHT entry becomes PENDING again, durably.
  unfoldable pub requeue_entry : ℕ → M Flash (Unit {0})
  requeue_entry pos ctx =
      if (entry_at ctx.index pos).state == state_in_flight
      then append_state_update_locked P pos state_pending
          (record ctx { index = update_at ctx.index pos (λ e. record e { next_retry_at_us = 0 }) })
      else ok tt ctx

  -- The last loop, from `pos` with `left` entries to go.
  unfoldable pub requeue_in_flight : ℕ → ℕ → M Flash (Unit {0})
  requeue_in_flight zero pos = pure tt
  requeue_in_flight (suc left) pos = do requeue_entry pos; requeue_in_flight left (pos + 1)

  -- The first part of scan_region: the context with the log replayed into it.
  unfoldable pub load_region : ℕ → ℕ → Ctx Flash → Ctx Flash
  load_region region generation ctx =
      let s =
        scan_loop ctx.region_size ctx region
          (record { off = ctx.data_start; max_seq_seen = 0; index = []; awaiting_gc_count = 0 }) in
      record ctx {
        active_region = region;
        active_generation = generation;
        index = s.index;
        awaiting_gc_count = s.awaiting_gc_count;
        cursor = s.off;
        next_seq = u32 (s.max_seq_seen + 1);
      }

  -- scan_region
  unfoldable pub scan_region : ℕ → ℕ → M Flash (Unit {0})
  scan_region region generation = do
    modify (load_region region generation)
    count ← gets (λ c. length c.index)
    requeue_in_flight count 0
