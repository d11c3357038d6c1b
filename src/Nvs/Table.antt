-- ===== src/Nvs/Table.antt =====
-- s_nvs_ops: the backend as the queue calls it.
use edgesync_espidf.Prelude.{ℕ, Bool, if◌then◌else◌}
use edgesync_espidf.Types.{EspErr, Message, zero_message, id_invalid}
use edgesync_espidf.Action.{Res, ok, fail}
use edgesync_espidf.Queue.{StorageOps}
use edgesync_espidf.Nvs.{Nvs, Ctx}
use edgesync_espidf.Nvs.Recovery.{recover}
use edgesync_espidf.Nvs.Ops.{
  NvsClaim, enqueue, claim_next, mark_delivered, schedule_retry, find_drop_candidate, get_stats,
}

module _ {S A : Type 0} where
  -- The code that a call returns.
  unfoldable pub err_of : Res S A → EspErr × S
  err_of (ok a c) = (EspErr.esp_ok, c)
  err_of (fail e c) = (e, c)

module _ {S : Type 0} where
  -- The code and `out_message` of a claim; where a claim fails with another code, no caller reads
  -- `out_message`.
  unfoldable pub taken_code : Res S NvsClaim → (EspErr × Message) × S
  taken_code (ok (NvsClaim.taken m) c) = ((EspErr.esp_ok, m), c)
  taken_code (ok (NvsClaim.corrupted m) c) = ((EspErr.storage_corrupt, m), c)
  taken_code (fail e c) = ((e, zero_message), c)

  -- The code and `out_id`; a failed search leaves `out_id` at EDGESYNC_MESSAGE_ID_INVALID.
  unfoldable pub candidate_code : Res S ℕ → (EspErr × ℕ) × S
  candidate_code (ok id c) = ((EspErr.esp_ok, id), c)
  candidate_code (fail e c) = ((e, id_invalid), c)

module _ (N : Nvs) where
  open N use {Store}

  -- s_nvs_ops; `has_mutex` is whether op_init gets a mutex.
  unfoldable pub nvs_ops : Bool → StorageOps (Ctx Store)
  nvs_ops has_mutex = record {
    init = λ c. (if has_mutex then EspErr.esp_ok else EspErr.no_mem, c);
    recover = λ c. err_of (recover N c);
    enqueue = λ m c. err_of (enqueue N m c);
    claim_next = λ t c. taken_code (claim_next N t c);
    mark_delivered = λ id c. err_of (mark_delivered N id c);
    schedule_retry = λ id t dead e c. err_of (schedule_retry N id t dead e c);
    remove = λ id c. err_of (mark_delivered N id c);
    find_drop_candidate = λ p c. candidate_code (find_drop_candidate N p c);
    get_stats = λ s c. ((EspErr.esp_ok, get_stats N c s), c);
  }
