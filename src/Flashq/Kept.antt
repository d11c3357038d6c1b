-- ===== src/Flashq/Kept.antt =====
-- edgesync_storage_flashq.c against the contract on which the queue and the worker rely.
pub mod Calls
use mathlib.Core.Path.{subst}
use edgesync_espidf.Prelude.{
  ℕ, ◌+◌, ◌≡◌, refl, sym, ◌∙◌, ◌⊎◌, inl, inr, Bool, some, List, [], ◌∷◌, ◌++◌, length, leb,
  if◌then◌else◌, u8, u32,
}
use edgesync_espidf.Types.{
  EspErr, Message, OverflowPolicy, state_in_flight, state_dead_letter, state_pending,
  state_delivered, state_removed, err_code,
}
use edgesync_espidf.Queue.Contract.{KeepsMessages}
use edgesync_espidf.Flashq.Partition.{Partition}
use edgesync_espidf.Flashq.Context.{Entry, Ctx, Res, ok, fail, M, ◌>>=◌, modify}
use edgesync_espidf.Action.Outcome.{Ends, Ends-bind, Ends-map, Ends-if, Ends-option}
use edgesync_espidf.Action.Keeps.{IsFailure, IsFailure-ne}
use edgesync_espidf.Flashq.Helpers.{find_entry, update_at, append_locked}
use edgesync_espidf.Format.{encode_message}
use edgesync_espidf.Flashq.Append.{append_state_update_locked}
use edgesync_espidf.Flashq.Frame.Compact.{ensure_space_locked-Frames, append_locked-Frames}
use edgesync_espidf.Flashq.Ids.{
  ids, same_ids-at, same_ids-bound, Has, Has-append, Has-last, ids-update_at, find_entry-ids,
  Has-remove_entry_at, Same, SameEnds,
}
use edgesync_espidf.Flashq.Select.{pick_claim, pick_drop}
use edgesync_espidf.Flashq.Ops.{
  Claim, new_entry, encode_into_scratch, enqueue_record, enqueue, claim_corrupt, write_claim,
  claim_intact, claim_at, claim_next, read_claimed, finish_entry, mark_delivered, remove_message,
  retry_entry, schedule_retry, find_drop_candidate,
}
use edgesync_espidf.Flashq.Table.{code_of, claim_code, found_code, flashq_ops}
use edgesync_espidf.Flashq.Kept.Calls.{
  But, Added, enqueue-Ends, claim_next-SameEnds, schedule_retry-SameEnds,
  find_drop_candidate-SameEnds, mark_delivered-Ends, remove_message-Ends,
}

-- The index after a call, from what the call ends in.
code_of_ends :
    {F : Type 0} (r : Res F (Unit {0})) (R : Ctx F → Type 0)
    → Ends (λ a c. R c) (λ e c. R c) r
    → R (code_of r).1
unfolding code_of
code_of_ends (ok a c) R h = h
code_of_ends (fail e c) R h = h

claim_code_ends :
    {F : Type 0} (r : Res F Claim) (R : Ctx F → Type 0)
    → Ends (λ a c. R c) (λ e c. R c) r
    → R (claim_code r).1
unfolding claim_code
claim_code_ends (ok (Claim.claimed m) c) R h = h
claim_code_ends (ok (Claim.corrupt m) c) R h = h
claim_code_ends (fail e c) R h = h

found_code_ends :
    {F : Type 0} (r : Res F ℕ) (R : Ctx F → Type 0)
    → Ends (λ a c. R c) (λ e c. R c) r
    → R (found_code r).1
unfolding found_code
found_code_ends (ok a c) R h = h
found_code_ends (fail e c) R h = h

module _ (P : Partition) where
  open P use {Flash}

  -- The ids that the index of the backend has.
  abbrev pub FlashqHolds : Ctx Flash → ℕ → Type 0
  FlashqHolds c i = Has i (ids c.index)

  moved : (i : ℕ) (c c' : Ctx Flash) → Same c c' → FlashqHolds c i → FlashqHolds c' i
  moved i c c' q h = subst (λ (is : List ℕ). Has i is) (sym q) h

  same_holds :
      {A : Type 0} (r : Res Flash A) (i : ℕ) (c : Ctx Flash)
      → SameEnds c r
      → FlashqHolds c i
      → Ends (λ a d. FlashqHolds d i) (λ e d. FlashqHolds d i) r
  same_holds r i c s h =
      Ends-map r _ _ (λ e d. Same c d × IsFailure e) _ s (λ a d q. moved i c d q h)
        (λ e d q. moved i c d q.0 h)

  Added-holds :
      (m : Message) (i : ℕ) (c d : Ctx Flash) → Added P m c d → FlashqHolds c i → FlashqHolds d i
  Added-holds m i c d (earlier, offset, same, e) h = rw e (
      Has-append i earlier (new_entry m offset ∷ [])
        (subst (λ (is : List ℕ). Has i is) (sym same) h))

  Added-last : (m : Message) (c d : Ctx Flash) → Added P m c d → FlashqHolds d m.id
  Added-last m c d (earlier, offset, same, e) = rw e (Has-last (new_entry m offset) earlier)

  enqueue_code_adds :
      (m : Message) (c : Ctx Flash) (r : Res Flash (Unit {0}))
      → Ends (λ a d. Added P m c d) (λ e d. Same c d × IsFailure e) r
      → (code_of r).0 ≡ EspErr.esp_ok
      → FlashqHolds (code_of r).1 m.id
  unfolding code_of
  enqueue_code_adds m c (ok a d) h e = Added-last m c d h
  enqueue_code_adds m c (fail x d) h e = absurd (IsFailure-ne x h.1 e)

  -- The flash queue, over any partition, keeps the contract: an enqueue that succeeds adds the message's id to its index, no enqueue, claim, scheduled retry or
  -- search takes an id out of its index, and mark_delivered and remove take out the given id only, even when
  -- a write, a read or a compaction fails half-way.
  pub flashq_KeepsMessages : (has_mutex : Bool) → KeepsMessages (flashq_ops P has_mutex) FlashqHolds
  unfolding flashq_ops
  flashq_KeepsMessages has_mutex = record {
    enqueue_keeps = λ m c i h.
        code_of_ends (enqueue P m c) (λ d. FlashqHolds d i)
          (Ends-map (enqueue P m c) _ _ (λ e d. Same c d × IsFailure e) _ (enqueue-Ends P m c)
            (λ a d q. Added-holds m i c d q h) (λ e d q. moved i c d q.0 h));
    enqueue_adds = λ m c e. enqueue_code_adds m c (enqueue P m c) (enqueue-Ends P m c) e;
    claim_keeps = λ t c i h.
        claim_code_ends (claim_next P t c) (λ d. FlashqHolds d i)
          (same_holds (claim_next P t c) i c (claim_next-SameEnds P t c) h);
    retry_keeps = λ id t dead e c i h.
        code_of_ends (schedule_retry P id t dead e c) (λ d. FlashqHolds d i)
          (same_holds (schedule_retry P id t dead e c) i c (schedule_retry-SameEnds P id t dead e c)
            h);
    find_keeps = λ p c i h.
        found_code_ends (find_drop_candidate P p c) (λ d. FlashqHolds d i)
          (same_holds (find_drop_candidate P p c) i c (find_drop_candidate-SameEnds P p c) h);
    delivered_keeps = λ id c i h.
        code_of_ends (mark_delivered P id c) (λ d. But P i id d) (mark_delivered-Ends P id i c h);
    remove_keeps = λ id c i h.
        code_of_ends (remove_message P id c) (λ d. But P i id d) (remove_message-Ends P id i c h);
  }
