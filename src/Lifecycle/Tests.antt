-- ===== src/Lifecycle/Tests.antt =====
-- A publish on a started handle over the flash queue, and a start-up that fails.
use edgesync_espidf.Prelude.{ℕ, true, false, Option, none, some, List, [], ◌∷◌, arith}
use edgesync_espidf.Types.{EspErr, OverflowPolicy}
use edgesync_espidf.Flashq.Context.{Ctx}
use edgesync_espidf.Flashq.Memory.{memory, blank}
use edgesync_espidf.Flashq.Table.{flashq_ops}
use edgesync_espidf.Lifecycle.{Handle, PublishOptions, publish_handle}
use edgesync_espidf.Lifecycle.Init.{Config, Answers, StorageType, init}
use edgesync_espidf.Lifecycle.Init.Cleanup.{IsClean, init-IsClean}
use edgesync_espidf.Lifecycle.Validation.{IsAnswered, publish_handle_outcome}

abbrev handle : Handle (Ctx (ℕ → ℕ))
handle = record {
  queue = record {
    storage = blank;
    overflow_policy = OverflowPolicy.reject_new;
    has_event_cb = true;
    wake_cb = none;
    successful_deliveries = 0;
    failed_deliveries = 0;
  };
  max_message_size = 128;
  started = true;
}

abbrev destination : List ℕ
destination = 97 ∷ 47 ∷ 98 ∷ []

abbrev payload : Option (List ℕ)
payload = some (1 ∷ 2 ∷ [])

abbrev urgent : Option PublishOptions
urgent = some (record { message_id = 0; priority = 2 })

publish_handle_outcome_example :
    IsAnswered
      (flashq_ops memory true)
      handle
      (some destination)
      payload
      2
      urgent
      77
      5000
      (publish_handle (flashq_ops memory true) handle (some destination) payload 2 urgent 77 5000)
publish_handle_outcome_example =
    publish_handle_outcome (flashq_ops memory true) handle payload 2 urgent 77 5000 (omega arith)
      (omega arith) (omega arith) (omega arith) (omega arith) (some destination)

abbrev config : Config
config = record {
  storage = StorageType.flashq;
  has_storage_ops = false;
  max_queue_size = 0;
  max_message_size = 0;
  overflow_policy = OverflowPolicy.reject_new;
  retry_initial_ms = 0;
  retry_max_ms = 0;
  retry_multiplier = 0;
  retry_jitter = true;
  retry_max_attempts = 0;
  has_transport_ops = false;
}

-- The recovery fails.
abbrev answers : Answers
answers = record {
  has_memory = true;
  flashq_create = EspErr.esp_ok;
  nvs_create = EspErr.esp_ok;
  http_create = EspErr.esp_ok;
  transport_init = none;
  queue_create = EspErr.esp_ok;
  recover = EspErr.storage_err;
}

init-IsClean_example : IsClean (init config answers)
init-IsClean_example = init-IsClean config answers
