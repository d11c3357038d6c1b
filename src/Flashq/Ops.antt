-- ===== src/Flashq/Ops.antt =====
-- The operations table of the backend, and its constructor. Every operation holds the backend's lock
-- from its first access to its last, so that it is one step.
use edgesync_espidf.Prelude.{
  ℕ, ◌+◌, Bool, Option, none, some, List, [], ◌∷◌, ◌++◌, length, take, drop, leb, if◌then◌else◌, u8,
  u16, u32,
}
use edgesync_espidf.Types.{
  EspErr, err_code, Message, zero_message, OverflowPolicy, state_pending, state_in_flight,
  state_delivered, state_dead_letter, state_removed,
}
use edgesync_espidf.Format.{
  decode_header, verify_body, encode_message, encode_update, record_total_size, hdr_size,
}
use edgesync_espidf.Flashq.Partition.{Partition}
use edgesync_espidf.Flashq.Context.{Entry, Ctx, ok, fail, M, pure, ◌>>=◌, ◌>>◌, gets, modify}
use edgesync_espidf.Flashq.Helpers.{
  region_offset, find_entry, entry_at, update_at, remove_entry_at, append_locked,
}
use edgesync_espidf.Flashq.Compaction.{fields_of, scratch_of, until_nul}
use edgesync_espidf.Flashq.Append.{ensure_space_locked, append_state_update_locked}
use edgesync_espidf.Flashq.Select.{pick_claim, pick_drop}

-- The entry that op_enqueue appends to the index.
abbrev pub new_entry : Message → ℕ → Entry
new_entry message offset = record {
  id = message.id;
  state = state_pending;
  priority = u8 message.priority;
  destination_len = u16 (length message.destination);
  attempt_count = 0;
  payload_len = message.payload_len;
  message_offset = offset;
  created_at_us = message.created_at_us;
  last_attempt_at_us = 0;
  next_retry_at_us = 0;
  last_error = 0;
}

-- What op_claim_next reports with a message: ESP_OK, or EDGESYNC_ERR_STORAGE_CORRUPT.
pub data Claim : Type 0 where
  claimed : Message → Claim
  corrupt : Message → Claim

module _ (P : Partition) where
  open P use {Flash, read}

  -- edgesync_flashq_encode_message into the scratch buffer, with the current sequence number.
  unfoldable pub encode_into_scratch : Message → M Flash (List ℕ)
  encode_into_scratch message ctx = elim (encode_message ctx.scratch_size message ctx.next_seq) [
    | none ↦ fail EspErr.serialization ctx
    | some buf ↦ ok buf ctx
  ]

  -- op_enqueue after the check of the capacity.
  unfoldable pub enqueue_record : Message → M Flash (Unit {0})
  enqueue_record message = do
    sized ← encode_into_scratch message
    ensure_space_locked P (length sized)
    buf ← encode_into_scratch message
    offset ← gets (λ c. c.cursor)
    append_locked P buf
    modify (λ c. record c { index = c.index ++ new_entry message offset ∷ [] })

  -- op_enqueue
  unfoldable pub enqueue : Message → M Flash (Unit {0})
  enqueue message ctx =
      if leb ctx.index_capacity (length ctx.index)
      then fail EspErr.queue_full ctx
      else enqueue_record message ctx

  -- The message of an entry, if its record can be read back and both CRCs are right.
  unfoldable pub read_claimed : Ctx Flash → Entry → Option (List ℕ)
  read_claimed ctx best =
      elim (read ctx.flash (region_offset P ctx ctx.active_region + best.message_offset)
        (hdr_size + (best.destination_len + best.payload_len) + 4)) [
          | none ↦ none
          | some bytes ↦ elim (decode_header bytes) [
            | none ↦ none
            | some hdr ↦ if verify_body hdr (drop hdr_size bytes) then some bytes else none
          ]
        ]

  -- The branch of a corrupt record: the message is dead-lettered, and only its id is reported.
  unfoldable pub claim_corrupt : ℕ → M Flash Claim
  claim_corrupt pos = do
    modify (λ c. record c {
      index =
          update_at c.index pos (λ e. record e { last_error = err_code EspErr.storage_corrupt });
    })
    append_state_update_locked P pos state_dead_letter
    best ← gets (λ c. entry_at c.index pos)
    pure (corrupt (record zero_message { id = best.id }))

  -- The UPDATE record of a claim.
  unfoldable pub write_claim : ℕ → ℕ → ℕ → M Flash (Unit {0})
  write_claim pos new_attempt_count now_us = do
    ensure_space_locked P (record_total_size 0 0)
    buf ← gets (λ c. scratch_of (
        encode_update c.scratch_size
          (record (fields_of (entry_at c.index pos)) {
            state = state_in_flight;
            attempt_count = new_attempt_count;
            last_attempt_at_us = now_us;
          })
          c.next_seq))
    append_locked P buf
    modify (λ c. record c {
      index = update_at c.index pos (λ e. record e {
        state = state_in_flight;
        attempt_count = new_attempt_count;
        last_attempt_at_us = now_us;
      });
      updates_since_compaction = u32 (c.updates_since_compaction + 1);
    })

  -- `out_message`, from the index and the bytes that were read.
  abbrev pub claimed_message : Entry → ℕ → List ℕ → Message
  claimed_message best now_us bytes = record {
    id = best.id;
    destination = until_nul (take best.destination_len (drop hdr_size bytes));
    priority = best.priority;
    state = state_in_flight;
    attempt_count = best.attempt_count;
    created_at_us = best.created_at_us;
    last_attempt_at_us = now_us;
    next_retry_at_us = best.next_retry_at_us;
    last_error = best.last_error;
    payload_len = best.payload_len;
    payload = some (drop best.destination_len (drop hdr_size bytes));
  }

  -- The branch of an intact record.
  unfoldable pub claim_intact : ℕ → ℕ → List ℕ → M Flash Claim
  claim_intact pos now_us bytes = do
    attempts ← gets (λ c. u32 ((entry_at c.index pos).attempt_count + 1))
    write_claim pos attempts now_us
    best ← gets (λ c. entry_at c.index pos)
    pure (claimed (claimed_message best now_us bytes))

  unfoldable pub claim_at : ℕ → ℕ → Entry → M Flash Claim
  claim_at now_us pos best ctx = elim (read_claimed ctx best) [
    | none ↦ claim_corrupt pos ctx
    | some bytes ↦ claim_intact pos now_us bytes ctx
  ]

  -- op_claim_next
  unfoldable pub claim_next : ℕ → M Flash Claim
  claim_next now_us ctx = elim (pick_claim now_us ctx.index) [
    | none ↦ fail EspErr.not_found ctx
    | some (pos, best) ↦ claim_at now_us pos best ctx
  ]

  -- op_mark_delivered and op_remove for the entry at `pos`: the last state, and the end of the entry.
  unfoldable pub finish_entry : ℕ → ℕ → M Flash (Unit {0})
  finish_entry last_state pos = do
    append_state_update_locked P pos last_state
    modify (λ c. record c {
      index = remove_entry_at c.index pos;
      awaiting_gc_count = u32 (c.awaiting_gc_count + 1);
    })

  -- op_mark_delivered
  unfoldable pub mark_delivered : ℕ → M Flash (Unit {0})
  mark_delivered id ctx = elim (find_entry ctx.index id) [
    | none ↦ fail EspErr.not_found ctx
    | some pos ↦ finish_entry state_delivered pos ctx
  ]

  -- op_remove; `remove` elsewhere in the table.
  unfoldable pub remove_message : ℕ → M Flash (Unit {0})
  remove_message id ctx = elim (find_entry ctx.index id) [
    | none ↦ fail EspErr.not_found ctx
    | some pos ↦ finish_entry state_removed pos ctx
  ]

  -- op_schedule_retry for the entry at `pos`.
  unfoldable pub retry_entry : ℕ → Bool → EspErr → ℕ → M Flash (Unit {0})
  retry_entry next_retry_time_us dead_letter last_error pos = do
    modify (λ c. record c {
      index = update_at c.index pos (λ e. record e {
        next_retry_at_us = if dead_letter then 0 else next_retry_time_us;
        last_error = err_code last_error;
      });
    })
    append_state_update_locked P pos (if dead_letter then state_dead_letter else state_pending)

  -- op_schedule_retry
  unfoldable pub schedule_retry : ℕ → ℕ → Bool → EspErr → M Flash (Unit {0})
  schedule_retry id next_retry_time_us dead_letter last_error ctx = elim (find_entry ctx.index id) [
    | none ↦ fail EspErr.not_found ctx
    | some pos ↦ retry_entry next_retry_time_us dead_letter last_error pos ctx
  ]

  -- op_find_drop_candidate
  unfoldable pub find_drop_candidate : OverflowPolicy → M Flash ℕ
  find_drop_candidate policy ctx = elim (pick_drop policy ctx.index) [
    | none ↦ fail EspErr.not_found ctx
    | some (pos, best) ↦ ok best.id ctx
  ]
