-- ===== src/Nvs/Recovery.antt =====
-- op_recover: the index is built from the blobs, and messages that were in flight are pending again.
pub mod Requeued
use edgesync_espidf.Prelude.{
  ℕ, zero, suc, ◌+◌, true, false, [], ◌∷◌, ◌++◌, length, take, drop, set, replicate, leb, ◌==◌,
  if◌then◌else◌,
}
use edgesync_espidf.Types.{EspErr, state_in_flight, state_pending}
use edgesync_espidf.Format.{Header, hdr_size}
use edgesync_espidf.Action.{ok, fail, M, pure, raise, ◌>>=◌, ◌>>◌, gets, modify}
use edgesync_espidf.Flashq.Helpers.{entry_at, update_at}
use edgesync_espidf.Flashq.Compaction.{until_nul}
use edgesync_espidf.Nvs.{Nvs, Ctx, NvsEntry, slot_of}
use edgesync_espidf.Nvs.Entries.{Source, write_entry, read_and_verify, discard}

-- The entry of a blob with the header `hdr`.
abbrev pub entry_of_blob : Header → ℕ → NvsEntry
entry_of_blob hdr slot = record {
  id = hdr.message_id;
  state = hdr.state;
  priority = hdr.priority;
  destination_len = hdr.destination_len;
  attempt_count = hdr.attempt_count;
  payload_len = hdr.body_len;
  message_offset = slot;
  created_at_us = hdr.created_at_us;
  last_attempt_at_us = hdr.last_attempt_at_us;
  next_retry_at_us = hdr.next_retry_at_us;
  last_error = hdr.last_error;
}

module _ (N : Nvs) where
  open N use {Store}

  -- The end of the first loop's body: the entry, unless the index is full.
  unfoldable pub add_entry : ℕ → Header → M (Ctx Store) (Unit {0})
  add_entry slot hdr ctx =
      if leb ctx.index_capacity (length ctx.index)
      then ok tt ctx
      else ok tt (record ctx {
        index = ctx.index ++ entry_of_blob hdr slot ∷ [];
        slot_used = set ctx.slot_used slot true;
      })

  -- What the first loop does where read_and_verify fails.
  unfoldable pub skip_slot : ℕ → EspErr → M (Ctx Store) (Unit {0})
  skip_slot slot EspErr.not_found = pure tt
  skip_slot slot EspErr.storage_corrupt = discard N slot
  skip_slot slot e = raise e

  -- The body of the first loop.
  unfoldable pub load_slot : ℕ → M (Ctx Store) (Unit {0})
  load_slot slot ctx = elim (read_and_verify N slot ctx) [
    | fail e ctx' ↦ skip_slot slot e ctx'
    | ok hdr ctx' ↦ add_entry slot hdr ctx'
  ]

  -- The first loop, from `slot` with `n` slots left.
  unfoldable pub load_slots : ℕ → ℕ → M (Ctx Store) (Unit {0})
  load_slots zero slot = pure tt
  load_slots (suc n) slot = load_slot slot >>= λ a. load_slots n (slot + 1)

  -- The body of the second loop for an entry that is IN_FLIGHT.
  unfoldable pub requeue_slot : ℕ → M (Ctx Store) (Unit {0})
  requeue_slot pos = do
    slot ← gets (λ c. slot_of (entry_at c.index pos))
    hdr ← read_and_verify N slot
    destination ← gets (λ c. until_nul (take hdr.destination_len (drop hdr_size c.scratch)))
    modify (λ c. record c {
      index = update_at c.index pos (λ e. record e { state = state_pending; next_retry_at_us = 0 });
    })
    e ← gets (λ c. entry_at c.index pos)
    write_entry N e destination (Source.in_scratch (hdr_size + hdr.destination_len))

  unfoldable pub requeue_at : ℕ → M (Ctx Store) (Unit {0})
  requeue_at pos ctx =
      if (entry_at ctx.index pos).state == state_in_flight then requeue_slot pos ctx else ok tt ctx

  -- The second loop, from `pos` with `n` entries left.
  unfoldable pub requeue_slots : ℕ → ℕ → M (Ctx Store) (Unit {0})
  requeue_slots zero pos = pure tt
  requeue_slots (suc n) pos = requeue_at pos >>= λ a. requeue_slots n (pos + 1)

  -- op_recover
  unfoldable pub recover : M (Ctx Store) (Unit {0})
  recover = do
    slots ← gets (λ c. c.max_messages)
    modify (λ c. record c { index = []; slot_used = replicate slots false })
    load_slots slots 0
    count ← gets (λ c. length c.index)
    requeue_slots count 0
