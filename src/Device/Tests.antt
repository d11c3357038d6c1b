-- ===== src/Device/Tests.antt =====
-- A run of the queue and the worker over the partition in memory.
use edgesync_espidf.Prelude.{ℕ, ◌≡◌, ◌⊎◌, refl, inl, true, false, some, List, [], ◌∷◌}
use edgesync_espidf.Types.{EspErr, EventId, DeliveryResult, Message, OverflowPolicy, zero_message}
use edgesync_espidf.Format.{encode_message_full, encode_common, record_total_size, round4}
use edgesync_espidf.Queue.{Queue, publish, store_message}
use edgesync_espidf.Queue.NoLoss.{Notified, publish_keeps, publish_accepts}
use edgesync_espidf.Worker.{Worker, worker_round}
use edgesync_espidf.Worker.AtLeastOnce.{Step, run, worker_round_keeps}
use edgesync_espidf.Flashq.Context.{Ctx}
use edgesync_espidf.Flashq.Memory.{memory, second, one_entry}
use edgesync_espidf.Flashq.Table.{flashq_ops}
use edgesync_espidf.Flashq.Kept.{FlashqHolds, flashq_KeepsMessages}
use edgesync_espidf.Flashq.Ids.{Has}
use edgesync_espidf.Nvs
use edgesync_espidf.Nvs.Memory
use edgesync_espidf.Nvs.Memory.{Blobs}
use edgesync_espidf.Nvs.{find_free_slot, free_slot_loop}
use edgesync_espidf.Nvs.Entries.{write_entry, put_blob, payload_read}
use edgesync_espidf.Nvs.Ops.{enqueue, enqueue_at}
use edgesync_espidf.Nvs.Table.{nvs_ops, err_of}
use edgesync_espidf.Nvs.Kept.{NvsHolds, nvs_KeepsMessages}
use edgesync_espidf.Device.{flashq_run_keeps, nvs_run_keeps}

abbrev worker : Worker
worker = record {
  retry_cfg = record {
    initial_delay_ms = 1000;
    max_delay_ms = 60000;
    multiplier = 2;
    jitter = false;
    max_attempts = 5;
  };
  has_event_cb = true;
}

abbrev queue : Queue (Ctx (ℕ → ℕ))
queue = record {
  storage = one_entry;
  overflow_policy = OverflowPolicy.drop_oldest;
  has_event_cb = true;
  wake_cb = some 1;
  successful_deliveries = 0;
  failed_deliveries = 0;
}

abbrev refuses : Message → DeliveryResult
refuses m = DeliveryResult.retryable_failure

abbrev accepts : Message → DeliveryResult
accepts m = DeliveryResult.success

abbrev steps : List Step
steps =
    Step.publishes second
    ∷ Step.claims 5000
    ∷ Step.settles refuses 6000 0 EspErr.esp_ok (record zero_message { id = 7 })
    ∷ []

has_first : FlashqHolds memory one_entry 7
unfolding Has
has_first = inl refl

flashq_run_keeps_example :
    FlashqHolds memory (run (flashq_ops memory true) worker steps queue).1.storage 7
    ⊎ Notified EventId.delivered 7 (run (flashq_ops memory true) worker steps queue).0
    ⊎ Notified EventId.full 7 (run (flashq_ops memory true) worker steps queue).0
flashq_run_keeps_example = flashq_run_keeps memory true worker steps queue 7 refl refl has_first

worker_round_keeps_example :
    FlashqHolds memory
      (worker_round (flashq_ops memory true) worker accepts 5000 6000 0 queue).1.storage
      7
    ⊎ ((7 ≡ ((flashq_ops memory true).claim_next 5000 one_entry).0.1.id)
        × (accepts ((flashq_ops memory true).claim_next 5000 one_entry).0.1
            ≡ DeliveryResult.success)
        × Notified EventId.delivered 7
            (worker_round (flashq_ops memory true) worker accepts 5000 6000 0 queue).0.0)
worker_round_keeps_example =
    worker_round_keeps (flashq_ops memory true) (FlashqHolds memory)
      (flashq_KeepsMessages memory true) worker accepts 5000 6000 0 queue 7 refl has_first

publish_keeps_example :
    FlashqHolds memory (publish (flashq_ops memory true) queue second).1.storage 7
    ⊎ Notified EventId.full 7 (publish (flashq_ops memory true) queue second).0.1
publish_keeps_example =
    publish_keeps (flashq_ops memory true) (FlashqHolds memory) (flashq_KeepsMessages memory true)
      queue second 7 refl has_first

abbrev nvs_queue : Queue (Nvs.Ctx Blobs)
nvs_queue = record {
  storage = Nvs.Memory.one_entry;
  overflow_policy = OverflowPolicy.drop_oldest;
  has_event_cb = true;
  wake_cb = some 1;
  successful_deliveries = 0;
  failed_deliveries = 0;
}

nvs_has_first : NvsHolds nvs_queue.storage 7
unfolding Has
nvs_has_first = inl refl

nvs_run_keeps_example :
    NvsHolds (run (nvs_ops Nvs.Memory.memory true) worker steps nvs_queue).1.storage 7
    ⊎ Notified EventId.delivered 7 (run (nvs_ops Nvs.Memory.memory true) worker steps nvs_queue).0
    ⊎ Notified EventId.full 7 (run (nvs_ops Nvs.Memory.memory true) worker steps nvs_queue).0
nvs_run_keeps_example =
    nvs_run_keeps Nvs.Memory.memory true worker steps nvs_queue 7 refl refl nvs_has_first

stored_second : (publish (nvs_ops Nvs.Memory.memory true) nvs_queue second).0.0 ≡ EspErr.esp_ok
unfolding publish store_message nvs_ops err_of enqueue enqueue_at find_free_slot free_slot_loop
    write_entry put_blob payload_read encode_message_full encode_common record_total_size round4
stored_second = refl

publish_accepts_example :
    NvsHolds (publish (nvs_ops Nvs.Memory.memory true) nvs_queue second).1.storage 9
    × Notified EventId.queued 9 (publish (nvs_ops Nvs.Memory.memory true) nvs_queue second).0.1
publish_accepts_example =
    publish_accepts (nvs_ops Nvs.Memory.memory true) NvsHolds
      (nvs_KeepsMessages Nvs.Memory.memory true) nvs_queue second refl stored_second
