-- ===== src/Flashq/Table.antt =====
-- s_flashq_ops: the backend as the queue calls it.
use edgesync_espidf.Prelude.{ℕ, Bool, if◌then◌else◌}
use edgesync_espidf.Types.{EspErr, Message, zero_message, id_invalid}
use edgesync_espidf.Queue.{StorageOps}
use edgesync_espidf.Flashq.Partition.{Partition}
use edgesync_espidf.Flashq.Context.{Ctx, Res, ok, fail}
use edgesync_espidf.Flashq.Recovery.{recover}
use edgesync_espidf.Flashq.Stats.{get_stats}
use edgesync_espidf.Flashq.Ops.{
  Claim, enqueue, claim_next, mark_delivered, remove_message, schedule_retry, find_drop_candidate,
}

-- The code that a call returns.
unfoldable pub code_of : {F : Type 0} → Res F (Unit {0}) → EspErr × Ctx F
code_of (ok a c) = (EspErr.esp_ok, c)
code_of (fail e c) = (e, c)

-- The code and `out_message` of a claim; where a claim fails with another code, no
-- caller reads `out_message`.
unfoldable pub claim_code : {F : Type 0} → Res F Claim → (EspErr × Message) × Ctx F
claim_code (ok (Claim.claimed m) c) = ((EspErr.esp_ok, m), c)
claim_code (ok (Claim.corrupt m) c) = ((EspErr.storage_corrupt, m), c)
claim_code (fail e c) = ((e, zero_message), c)

-- The code and `out_id`; a failed search leaves `out_id` at EDGESYNC_MESSAGE_ID_INVALID.
unfoldable pub found_code : {F : Type 0} → Res F ℕ → (EspErr × ℕ) × Ctx F
found_code (ok id c) = ((EspErr.esp_ok, id), c)
found_code (fail e c) = ((e, id_invalid), c)

module _ (P : Partition) where
  open P use {Flash}

  -- s_flashq_ops; `has_mutex` is whether op_init gets a mutex.
  unfoldable pub flashq_ops : Bool → StorageOps (Ctx Flash)
  flashq_ops has_mutex = record {
    init = λ c. (if has_mutex then EspErr.esp_ok else EspErr.no_mem, c);
    recover = λ c. code_of (recover P c);
    enqueue = λ m c. code_of (enqueue P m c);
    claim_next = λ t c. claim_code (claim_next P t c);
    mark_delivered = λ id c. code_of (mark_delivered P id c);
    schedule_retry = λ id t dead e c. code_of (schedule_retry P id t dead e c);
    remove = λ id c. code_of (remove_message P id c);
    find_drop_candidate = λ p c. found_code (find_drop_candidate P p c);
    get_stats = λ s c. ((EspErr.esp_ok, get_stats c s), c);
  }
