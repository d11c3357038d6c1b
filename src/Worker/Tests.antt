-- ===== src/Worker/Tests.antt =====
-- The retry of a concrete message.
use edgesync_espidf.Prelude.{ℕ, ◌+◌, ◌*◌, ◌/◌, ◌≤◌, ◌<◌, ◌≡◌, ◌≢◌, ◌⊎◌, true, false, none, arith}
use edgesync_espidf.Types.{EspErr, Message, zero_message, OverflowPolicy}
use edgesync_espidf.Retry.{RetryConfig}
use edgesync_espidf.Retry.Delay.{curve}
use edgesync_espidf.Queue.{StorageOps, Queue}
use edgesync_espidf.Worker.{Worker, handle_retryable_failure}
use edgesync_espidf.Worker.RetryTime.{handle_retryable_failure_outcome}

-- A backend that keeps the time of the last scheduled retry.
abbrev clock_ops : StorageOps ℕ
clock_ops = record {
  init = λ s. (EspErr.esp_ok, s);
  recover = λ s. (EspErr.esp_ok, s);
  enqueue = λ m s. (EspErr.esp_ok, s);
  claim_next = λ t s. ((EspErr.not_found, zero_message), s);
  mark_delivered = λ id s. (EspErr.esp_ok, s);
  schedule_retry = λ id t dead e s. (EspErr.esp_ok, t);
  remove = λ id s. (EspErr.esp_ok, s);
  find_drop_candidate = λ p s. ((EspErr.not_found, 0), s);
  get_stats = λ stats s. ((EspErr.esp_ok, stats), s);
}

abbrev cfg : RetryConfig
cfg = record {
  initial_delay_ms = 1000;
  max_delay_ms = 60000;
  multiplier = 2;
  jitter = true;
  max_attempts = 5;
}

abbrev worker : Worker
worker = record { retry_cfg = cfg; has_event_cb = true }

abbrev msg : Message
msg = record zero_message { id = 7; attempt_count = 3 }

abbrev queue : Queue ℕ
queue = record {
  storage = 0;
  overflow_policy = OverflowPolicy.reject_new;
  has_event_cb = true;
  wake_cb = none;
  successful_deliveries = 0;
  failed_deliveries = 0;
}

handle_retryable_failure_outcome_example :
    (((cfg.max_attempts ≡ 0) ⊎ (msg.attempt_count < cfg.max_attempts))
      × ((at_us : ℕ) × (5000 + curve cfg msg.attempt_count / 2 * 1000 ≤ at_us)
          × (at_us ≤ 5000 + curve cfg msg.attempt_count * 1000)
          × ((handle_retryable_failure clock_ops worker msg 5000 99 queue).1.storage
              ≡ (clock_ops.schedule_retry msg.id at_us false EspErr.transport queue.storage).1)))
    ⊎ ((cfg.max_attempts ≢ 0)
        × (cfg.max_attempts ≤ msg.attempt_count)
        × ((handle_retryable_failure clock_ops worker msg 5000 99 queue).1.storage
            ≡ (clock_ops.schedule_retry msg.id 0 true EspErr.transport queue.storage).1))
handle_retryable_failure_outcome_example =
    handle_retryable_failure_outcome clock_ops worker msg 5000 99 queue
      (record {
        initial_fits = omega arith;
        max_fits = omega arith;
        multiplier_fits = omega arith;
        multiplier_grows = omega arith;
      })
      (omega arith) (omega arith) (omega arith)
