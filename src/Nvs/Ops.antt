-- ===== src/Nvs/Ops.antt =====
-- The operations of the backend but for recovery. Every operation holds the backend's lock from its first access to
-- its last, so that it is one step.
use edgesync_espidf.Prelude.{
  ℕ, ◌+◌, ◌*◌, Bool, none, some, List, [], ◌∷◌, ◌++◌, length, take, drop, set, leb, true,
  if◌then◌else◌, u8, u16, u32,
}
use edgesync_espidf.Types.{
  EspErr, err_code, Message, zero_message, OverflowPolicy, Stats, state_in_flight,
  state_dead_letter, state_pending,
}
use edgesync_espidf.Format.{Header, hdr_size}
use edgesync_espidf.Action.{ok, fail, M, pure, raise, ◌>>=◌, ◌>>◌, gets, modify}
use edgesync_espidf.Flashq.Helpers.{find_entry, entry_at, update_at}
use edgesync_espidf.Flashq.Compaction.{until_nul}
use edgesync_espidf.Flashq.Select.{pick_claim, pick_drop}
use edgesync_espidf.Flashq.Stats.{count_entries}
use edgesync_espidf.Nvs.{Nvs, Ctx, NvsEntry, slot_of, free_entry_at, find_free_slot}
use edgesync_espidf.Nvs.Entries.{Source, write_entry, read_and_verify, discard, erase_blob}

-- The entry that op_enqueue appends to the index.
abbrev pub new_slot_entry : Message → ℕ → NvsEntry
new_slot_entry message slot = record {
  id = message.id;
  state = state_pending;
  priority = u8 message.priority;
  destination_len = u16 (length message.destination);
  attempt_count = 0;
  payload_len = message.payload_len;
  message_offset = slot;
  created_at_us = message.created_at_us;
  last_attempt_at_us = 0;
  next_retry_at_us = 0;
  last_error = 0;
}

-- What op_claim_next reports with a message: ESP_OK, or EDGESYNC_ERR_STORAGE_CORRUPT.
pub data NvsClaim : Type 0 where
  taken : Message → NvsClaim
  corrupted : Message → NvsClaim

-- `out_message`, from the entry and claim_scratch.
abbrev pub taken_message : NvsEntry → ℕ → List ℕ → Message
taken_message best now_us claim_scratch = record {
  id = best.id;
  destination = until_nul (take best.destination_len claim_scratch);
  priority = best.priority;
  state = state_in_flight;
  attempt_count = best.attempt_count;
  created_at_us = best.created_at_us;
  last_attempt_at_us = now_us;
  next_retry_at_us = best.next_retry_at_us;
  last_error = best.last_error;
  payload_len = best.payload_len;
  payload = some (drop best.destination_len claim_scratch);
}

-- The fields of an entry that op_schedule_retry sets.
abbrev pub retried : ℕ → Bool → EspErr → NvsEntry → NvsEntry
retried next_retry_time_us dead_letter last_error e = record e {
  state = if dead_letter then state_dead_letter else state_pending;
  next_retry_at_us = if dead_letter then 0 else next_retry_time_us;
  last_error = err_code last_error;
}

module _ (N : Nvs) where
  open N use {Store, get_usage}

  -- op_enqueue behind the search for a slot.
  unfoldable pub enqueue_at : Message → ℕ → M (Ctx Store) (Unit {0})
  enqueue_at message slot = do
    write_entry N (new_slot_entry message slot) message.destination (Source.outside message.payload)
    modify (λ c. record c {
      index = c.index ++ new_slot_entry message slot ∷ [];
      slot_used = set c.slot_used slot true;
    })

  -- op_enqueue
  unfoldable pub enqueue : Message → M (Ctx Store) (Unit {0})
  enqueue message ctx =
      if leb ctx.index_capacity (length ctx.index)
      then fail EspErr.queue_full ctx
      else elim (find_free_slot ctx) [
        | none ↦ fail EspErr.queue_full ctx
        | some slot ↦ enqueue_at message slot ctx
      ]

  -- The branch of a corrupt blob: the message is dead-lettered in the index, its blob erased.
  unfoldable pub claim_broken : ℕ → M (Ctx Store) NvsClaim
  claim_broken pos = do
    modify (λ c. record c {
      index = update_at c.index pos (λ e. record e {
        last_error = err_code EspErr.storage_corrupt;
        state = state_dead_letter;
      });
    })
    best ← gets (λ c. entry_at c.index pos)
    discard N (slot_of best)
    pure (NvsClaim.corrupted (record zero_message { id = best.id }))

  -- The branch of an intact blob with the header `hdr`.
  unfoldable pub claim_read : ℕ → ℕ → Header → M (Ctx Store) NvsClaim
  claim_read pos now_us hdr = do
    claim_scratch ← gets (λ c. take (hdr.destination_len + hdr.body_len) (drop hdr_size c.scratch))
    modify (λ c. record c {
      index = update_at c.index pos (λ e. record e {
        attempt_count = u32 (e.attempt_count + 1);
        state = state_in_flight;
        last_attempt_at_us = now_us;
      });
    })
    best ← gets (λ c. entry_at c.index pos)
    write_entry N best (until_nul (take best.destination_len claim_scratch))
        (Source.outside (some (drop best.destination_len claim_scratch)))
    pure (NvsClaim.taken (taken_message best now_us claim_scratch))

  -- What follows a failed read_and_verify.
  unfoldable pub claim_unread : ℕ → EspErr → M (Ctx Store) NvsClaim
  claim_unread pos EspErr.storage_corrupt = claim_broken pos
  claim_unread pos e = raise e

  unfoldable pub claim_slot : ℕ → ℕ → NvsEntry → M (Ctx Store) NvsClaim
  claim_slot now_us pos best ctx = elim (read_and_verify N (slot_of best) ctx) [
    | fail e ctx' ↦ claim_unread pos e ctx'
    | ok hdr ctx' ↦ claim_read pos now_us hdr ctx'
  ]

  -- op_claim_next
  unfoldable pub claim_next : ℕ → M (Ctx Store) NvsClaim
  claim_next now_us ctx = elim (pick_claim now_us ctx.index) [
    | none ↦ fail EspErr.not_found ctx
    | some (pos, best) ↦ claim_slot now_us pos best ctx
  ]

  -- op_mark_delivered and op_remove for the entry at `pos`.
  unfoldable pub erase_entry : ℕ → M (Ctx Store) (Unit {0})
  erase_entry pos = do
    slot ← gets (λ c. slot_of (entry_at c.index pos))
    erase_blob N slot
    modify (λ c. free_entry_at c pos)

  -- op_mark_delivered, which op_remove calls.
  unfoldable pub mark_delivered : ℕ → M (Ctx Store) (Unit {0})
  mark_delivered id ctx = elim (find_entry ctx.index id) [
    | none ↦ fail EspErr.not_found ctx
    | some pos ↦ erase_entry pos ctx
  ]

  -- op_schedule_retry for the entry at `pos`: the payload that write_entry is given lies in the
  -- scratch buffer.
  unfoldable pub retry_slot : ℕ → Bool → EspErr → ℕ → M (Ctx Store) (Unit {0})
  retry_slot next_retry_time_us dead_letter last_error pos = do
    slot ← gets (λ c. slot_of (entry_at c.index pos))
    hdr ← read_and_verify N slot
    destination ← gets (λ c. until_nul (take hdr.destination_len (drop hdr_size c.scratch)))
    modify (λ c. record c {
      index = update_at c.index pos (retried next_retry_time_us dead_letter last_error);
    })
    e ← gets (λ c. entry_at c.index pos)
    write_entry N e destination (Source.in_scratch (hdr_size + hdr.destination_len))

  -- op_schedule_retry
  unfoldable pub schedule_retry : ℕ → ℕ → Bool → EspErr → M (Ctx Store) (Unit {0})
  schedule_retry id next_retry_time_us dead_letter last_error ctx = elim (find_entry ctx.index id) [
    | none ↦ fail EspErr.not_found ctx
    | some pos ↦ retry_slot next_retry_time_us dead_letter last_error pos ctx
  ]

  -- op_find_drop_candidate
  unfoldable pub find_drop_candidate : OverflowPolicy → M (Ctx Store) ℕ
  find_drop_candidate policy ctx = elim (pick_drop policy ctx.index) [
    | none ↦ fail EspErr.not_found ctx
    | some (pos, best) ↦ ok best.id ctx
  ]

  -- op_get_stats; it always returns ESP_OK.
  unfoldable pub get_stats : Ctx Store → Stats → Stats
  get_stats ctx stats =
      let counted : Stats = record (count_entries ctx.index stats) {
        queue_capacity = u32 ctx.index_capacity;
      } in
      elim (get_usage ctx.store) [
        | none ↦ counted
        | some (total_entries, used_entries) ↦ record counted {
          storage_bytes_capacity = u32 (u32 total_entries * 32);
          storage_bytes_used = u32 (u32 used_entries * 32);
        }
      ]
