-- ===== src/Worker.antt =====
-- components/edgesync/src/edgesync_worker.c: what the worker task does with one claim and one result.
pub mod AtLeastOnce
pub mod RetryTime
mod Tests
use edgesync_espidf.Prelude.{
  ℕ, ◌+◌, ◌*◌, Bool, true, false, Option, none, some, List, [], ◌∷◌, ◌++◌, if◌then◌else◌, u64,
}
use edgesync_espidf.Types.{EspErr, EventId, DeliveryResult, Message}
use edgesync_espidf.Retry.{RetryConfig, compute_delay_ms, should_retry}
use edgesync_espidf.Queue.{
  StorageOps, Queue, Effect, fire, claim_next, mark_delivered, schedule_retry,
}

-- edgesync_worker_t, without the task and its semaphore.
pub record Worker : Type 0 where
  pub retry_cfg : RetryConfig
  pub has_event_cb : Bool

-- What one round of the loop of worker_task waits for at its end.
pub data Wait : Type 0 where
  no_wait idle_poll error_pause : Wait

module _ {S : Type 0} (ops : StorageOps S) where
  -- The two calls that give a message up, and their events.
  unfoldable pub give_up : Worker → Message → Queue S → List Effect × Queue S
  give_up w msg q =
      let (ignored, q') = schedule_retry ops msg.id 0 true EspErr.transport q in
      (fire w.has_event_cb EventId.failed msg ++ fire w.has_event_cb EventId.dead_letter msg, q')

  -- handle_retryable_failure; `random_u32` is what esp_random returns.
  unfoldable pub handle_retryable_failure :
      Worker → Message → ℕ → ℕ → Queue S → List Effect × Queue S
  handle_retryable_failure w msg now_us random_u32 q =
      if should_retry w.retry_cfg msg.attempt_count
      then (let delay_ms = compute_delay_ms w.retry_cfg msg.attempt_count random_u32 in
          let next_retry_at_us = u64 (now_us + delay_ms * 1000) in
          let (ignored, q') = schedule_retry ops msg.id next_retry_at_us false EspErr.transport q in
          (fire w.has_event_cb EventId.failed msg ++ fire w.has_event_cb EventId.retry msg, q'))
      else give_up w msg q

  -- handle_delivery_result; `now_us` is what esp_timer_get_time returns.
  unfoldable pub handle_delivery_result :
      Worker → Message → DeliveryResult → ℕ → ℕ → Queue S → List Effect × Queue S
  handle_delivery_result w msg DeliveryResult.success now_us random_u32 q =
      let (ignored, q') = mark_delivered ops msg.id q in
      (fire w.has_event_cb EventId.delivered msg, q')
  handle_delivery_result w msg DeliveryResult.permanent_failure now_us random_u32 q =
      give_up w msg q
  handle_delivery_result w msg DeliveryResult.retryable_failure now_us random_u32 q =
      handle_retryable_failure w msg now_us random_u32 q

  -- The round of worker_task behind the claim, for the result that the transport's `deliver` gives.
  unfoldable pub after_claim :
      Worker
      → (Message → DeliveryResult)
      → ℕ
      → ℕ
      → EspErr
      → Message
      → Queue S
      → (List Effect × Wait) × Queue S
  after_claim w deliver now_us random_u32 EspErr.esp_ok msg q =
      let (effects, q') = handle_delivery_result w msg (deliver msg) now_us random_u32 q in
      ((effects, Wait.no_wait), q')
  after_claim w deliver now_us random_u32 EspErr.not_found msg q = (([], Wait.idle_poll), q)
  after_claim w deliver now_us random_u32 EspErr.storage_corrupt msg q =
      ((fire w.has_event_cb EventId.dead_letter msg, Wait.no_wait), q)
  after_claim w deliver now_us random_u32 err msg q = (([], Wait.error_pause), q)

  -- One round of the loop of worker_task: `claim_us` is the time of the claim, `now_us` that of the
  -- result.
  unfoldable pub worker_round :
      Worker → (Message → DeliveryResult) → ℕ → ℕ → ℕ → Queue S → (List Effect × Wait) × Queue S
  worker_round w deliver claim_us now_us random_u32 q =
      let ((err, msg), q') = claim_next ops claim_us q in
      after_claim w deliver now_us random_u32 err msg q'
