-- ===== src/Lifecycle.antt =====
-- components/edgesync/src/edgesync.c: the handle, and the validation of what the application publishes.
pub mod Validation
pub mod Init
mod Tests
use edgesync_espidf.Prelude.{
  ℕ, Bool, true, false, ◌&&◌, ◌||◌, not, Option, none, some, List, [], ◌∷◌, length, ltb, ◌==◌,
  if◌then◌else◌, u32,
}
use edgesync_espidf.Types.{
  EspErr, Message, Stats, zero_message, id_invalid, priority_normal, state_pending,
}
use edgesync_espidf.Format.{max_destination_len}
use edgesync_espidf.Queue.{StorageOps, Queue, Effect, is_ok, publish, get_stats}

-- struct edgesync_ctx: what publish, start, stop and deinit use of it.
pub record Handle (S : Type 0) : Type 0 where
  pub queue : Queue S
  pub max_message_size : ℕ
  pub started : Bool

-- edgesync_publish_options_t
pub record PublishOptions : Type 0 where
  pub message_id : ℕ
  pub priority : ℕ

abbrev pub chosen_id : Option PublishOptions → ℕ → ℕ
chosen_id none generated = generated
chosen_id (some options) generated =
    if not (options.message_id == id_invalid) then options.message_id else generated

abbrev pub chosen_priority : Option PublishOptions → ℕ
chosen_priority none = priority_normal
chosen_priority (some options) = options.priority

-- The message that edgesync_publish builds.
unfoldable pub message_of : List ℕ → Option (List ℕ) → ℕ → Option PublishOptions → ℕ → ℕ → Message
message_of destination bytes data_len options generated now_us = record zero_message {
  id = chosen_id options generated;
  destination = destination;
  priority = chosen_priority options;
  state = state_pending;
  created_at_us = now_us;
  last_error = 0;
  payload_len = u32 data_len;
  payload = bytes;
}

abbrev pub is_null : Option (List ℕ) → Bool
is_null none = true
is_null (some b) = false

-- The argument checks: `none` if they pass.
unfoldable pub check_arguments : ℕ → List ℕ → Option (List ℕ) → ℕ → Option EspErr
check_arguments max_message_size destination bytes data_len =
    if ltb 0 data_len && is_null bytes
    then some EspErr.invalid_arg
    else if length destination == 0
        || (ltb max_destination_len (length destination) || ltb max_message_size data_len)
    then some EspErr.message_too_large
    else none

module _ {S : Type 0} (ops : StorageOps S) where
  -- The call of edgesync_queue_publish.
  unfoldable pub queue_message : Handle S → Message → (EspErr × List Effect) × Handle S
  queue_message h m = let (answer, q) = publish ops h.queue m in (answer, record h { queue = q })

  -- edgesync_publish for a destination that is not NULL. `generated` is what edgesync_id_generate
  -- gives, `now_us` what esp_timer_get_time gives.
  unfoldable pub publish_checked :
      Handle S
      → List ℕ
      → Option (List ℕ)
      → ℕ
      → Option PublishOptions
      → ℕ
      → ℕ
      → (EspErr × List Effect) × Handle S
  publish_checked h destination bytes data_len options generated now_us =
      elim (check_arguments h.max_message_size destination bytes data_len) [
        | some err ↦ ((err, []), h)
        | none ↦ queue_message h (message_of destination bytes data_len options generated now_us)
      ]

  -- edgesync_publish, for a handle that is not NULL.
  unfoldable pub publish_handle :
      Handle S
      → Option (List ℕ)
      → Option (List ℕ)
      → ℕ
      → Option PublishOptions
      → ℕ
      → ℕ
      → (EspErr × List Effect) × Handle S
  publish_handle h destination bytes data_len options generated now_us =
      if not h.started then ((EspErr.not_initialized, []), h) else elim destination [
        | none ↦ ((EspErr.invalid_arg, []), h)
        | some d ↦ publish_checked h d bytes data_len options generated now_us
      ]

  -- edgesync_get_stats, for a handle that is not NULL; `has_stats` says whether `stats` is not NULL.
  unfoldable pub get_stats_handle : Handle S → Bool → (EspErr × Option Stats) × Handle S
  get_stats_handle h has_stats =
      let ((err, stats), q) = get_stats ops h.queue in
      if has_stats
      then ((err, some stats), record h { queue = q })
      else ((EspErr.invalid_arg, none), h)

module _ {S : Type 0} where
  -- edgesync_start, for a handle that is not NULL; `worker` is what edgesync_worker_start returns.
  unfoldable pub start : EspErr → Handle S → EspErr × Handle S
  start worker h =
      if h.started
      then (EspErr.already_started, h)
      else if is_ok worker
      then (EspErr.esp_ok, record h { started = true })
      else (worker, h)

  -- edgesync_stop, for a handle that is not NULL.
  unfoldable pub stop : Handle S → EspErr × Handle S
  stop h =
      if not h.started
      then (EspErr.invalid_state, h)
      else (EspErr.esp_ok, record h { started = false })

  -- edgesync_deinit, for a handle that is not NULL: `none` behind the free of the handle.
  unfoldable pub deinit : Handle S → EspErr × Option (Handle S)
  deinit h = if h.started then (EspErr.invalid_state, some h) else (EspErr.esp_ok, none)
