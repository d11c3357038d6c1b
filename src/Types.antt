-- ===== src/Types.antt =====
-- components/edgesync/include/edgesync/edgesync_types.h, edgesync_events.h, edgesync_transport.h and the error codes of
-- edgesync.h: the types that all parts of the program share.
use edgesync_espidf.Prelude.{ℕ, ◌+◌, Option, none, List, []}

-- esp_err_t: ESP_OK, the codes that the component returns, and any other code of a callee.
pub data EspErr : Type 0 where
  esp_ok no_mem invalid_arg queue_full storage_err serialization not_initialized : EspErr
  already_started invalid_state message_too_large storage_corrupt not_found transport : EspErr
  other : ℕ → EspErr

abbrev pub edgesync_base : ℕ
edgesync_base = 0x8A00

-- The number that a code stands for, as an int32_t bit pattern.
unfoldable pub err_code : EspErr → ℕ
err_code EspErr.esp_ok = 0
err_code EspErr.no_mem = 0x101
err_code EspErr.invalid_arg = 0x102
err_code EspErr.queue_full = edgesync_base + 1
err_code EspErr.storage_err = edgesync_base + 2
err_code EspErr.serialization = edgesync_base + 3
err_code EspErr.not_initialized = edgesync_base + 4
err_code EspErr.already_started = edgesync_base + 5
err_code EspErr.invalid_state = edgesync_base + 6
err_code EspErr.message_too_large = edgesync_base + 7
err_code EspErr.storage_corrupt = edgesync_base + 8
err_code EspErr.not_found = edgesync_base + 9
err_code EspErr.transport = edgesync_base + 10
err_code (EspErr.other n) = n

-- EDGESYNC_MESSAGE_ID_INVALID
abbrev pub id_invalid : ℕ
id_invalid = 0

-- edgesync_priority_t
abbrev pub priority_normal : ℕ
priority_normal = 1

-- edgesync_flashq_state_t, whose first four values are those of edgesync_message_state_t.
abbrev pub state_pending : ℕ
state_pending = 0

abbrev pub state_in_flight : ℕ
state_in_flight = 1

abbrev pub state_delivered : ℕ
state_delivered = 2

abbrev pub state_dead_letter : ℕ
state_dead_letter = 3

abbrev pub state_removed : ℕ
state_removed = 4

-- edgesync_overflow_policy_t
pub data OverflowPolicy : Type 0 where
  reject_new drop_oldest drop_lowest_priority : OverflowPolicy

-- edgesync_message_t. Times are int64_t bit patterns; `destination` is a C string.
pub record Message : Type 0 where
  pub id : ℕ
  pub destination : List ℕ
  pub priority : ℕ
  pub state : ℕ
  pub attempt_count : ℕ
  pub created_at_us : ℕ
  pub last_attempt_at_us : ℕ
  pub next_retry_at_us : ℕ
  pub last_error : ℕ
  pub payload_len : ℕ
  pub payload : Option (List ℕ)

-- `edgesync_message_t message = {0};`
abbrev pub zero_message : Message
zero_message = record {
  id = 0;
  destination = [];
  priority = 0;
  state = 0;
  attempt_count = 0;
  created_at_us = 0;
  last_attempt_at_us = 0;
  next_retry_at_us = 0;
  last_error = 0;
  payload_len = 0;
  payload = none;
}

-- edgesync_stats_t
pub record Stats : Type 0 where
  pub pending_messages : ℕ
  pub in_flight_messages : ℕ
  pub retrying_messages : ℕ
  pub dead_letter_messages : ℕ
  pub delivered_awaiting_gc : ℕ
  pub bytes_queued : ℕ
  pub successful_deliveries : ℕ
  pub failed_deliveries : ℕ
  pub queue_capacity : ℕ
  pub storage_bytes_used : ℕ
  pub storage_bytes_capacity : ℕ
  pub compactions_total : ℕ

-- edgesync_event_id_t
pub data EventId : Type 0 where
  queued delivered retry failed full dead_letter : EventId

-- edgesync_delivery_result_t
pub data DeliveryResult : Type 0 where
  success retryable_failure permanent_failure : DeliveryResult
