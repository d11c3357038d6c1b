-- ===== src/Worker/RetryTime.antt =====
-- When the worker lets a failed message be delivered again.
use edgesync_espidf.Prelude.{
  ℕ, ◌+◌, ◌*◌, ◌/◌, ◌^◌, ◌≤◌, ◌<◌, ◌≡◌, ◌≢◌, refl, ◌⊎◌, inl, inr, true, false, Bool-cases, arith,
  u64,
}
use edgesync_espidf.Types.{EspErr, Message}
use edgesync_espidf.Retry.{RetryConfig, IsDefaulted, compute_delay_ms, should_retry}
use edgesync_espidf.Retry.Delay.{curve, compute_delay_ms-eq_curve, compute_delay_ms_jitter}
use edgesync_espidf.Queue.{StorageOps, Queue, schedule_retry}
use edgesync_espidf.Worker.{Worker, give_up, handle_retryable_failure}

-- With and without jitter, a delay lies between half of the curve and the curve.
delay_bounds :
    (cfg : RetryConfig) (attempt_count random_u32 : ℕ)
    → IsDefaulted cfg
    → 1 ≤ attempt_count
    → attempt_count < 2 ^ 32
    → (curve cfg attempt_count / 2 ≤ compute_delay_ms cfg attempt_count random_u32)
      × (compute_delay_ms cfg attempt_count random_u32 ≤ curve cfg attempt_count)
delay_bounds cfg attempt_count random_u32 v pos fits = elim (Bool-cases cfg.jitter) [
  | inl on ↦ compute_delay_ms_jitter cfg attempt_count v pos fits random_u32 on
  | inr off ↦
      let e = compute_delay_ms-eq_curve cfg attempt_count v pos fits random_u32 off in
      (omega arith, omega arith)
]

should_retry-false :
    (cfg : RetryConfig) (n : ℕ)
    → should_retry cfg n ≡ false
    → (cfg.max_attempts ≢ 0) × (cfg.max_attempts ≤ n)
unfolding should_retry
should_retry-false cfg n e = (ground arith, ground arith)

should_retry-true :
    (cfg : RetryConfig) (n : ℕ)
    → should_retry cfg n ≡ true
    → (cfg.max_attempts ≡ 0) ⊎ (n < cfg.max_attempts)
unfolding should_retry
should_retry-true cfg n e = ground arith

module _ {S : Type 0} (ops : StorageOps S) where
  -- For a configuration with its defaults applied, an attempt count of 1 to 2^32 - 1 and a clock that stays
  -- below 2^63: either another attempt is allowed, and handle_retryable_failure leaves the backend as its
  -- schedule_retry does for no dead letter and a time between now plus half of the backoff curve and
  -- now plus the backoff curve; or the attempts are used up, and it leaves the backend as
  -- schedule_retry does for a dead letter.
  pub handle_retryable_failure_outcome :
      (w : Worker) (msg : Message) (now_us random_u32 : ℕ) (q : Queue S)
      → IsDefaulted w.retry_cfg
      → 1 ≤ msg.attempt_count
      → msg.attempt_count < 2 ^ 32
      → now_us + w.retry_cfg.max_delay_ms * 1000 < 2 ^ 63
      → (((w.retry_cfg.max_attempts ≡ 0) ⊎ (msg.attempt_count < w.retry_cfg.max_attempts))
          × ((at_us : ℕ) × (now_us + curve w.retry_cfg msg.attempt_count / 2 * 1000 ≤ at_us)
              × (at_us ≤ now_us + curve w.retry_cfg msg.attempt_count * 1000)
              × ((handle_retryable_failure ops w msg now_us random_u32 q).1.storage
                  ≡ (ops.schedule_retry msg.id at_us false EspErr.transport q.storage).1)))
        ⊎ ((w.retry_cfg.max_attempts ≢ 0)
            × (w.retry_cfg.max_attempts ≤ msg.attempt_count)
            × ((handle_retryable_failure ops w msg now_us random_u32 q).1.storage
                ≡ (ops.schedule_retry msg.id 0 true EspErr.transport q.storage).1))
  unfolding handle_retryable_failure give_up schedule_retry
  handle_retryable_failure_outcome w msg now_us random_u32 q v pos fits clock =
      elim (Bool-cases (should_retry w.retry_cfg msg.attempt_count)) [
        | inl more ↦
            let (low, high) = delay_bounds w.retry_cfg msg.attempt_count random_u32 v pos fits in
            let capped : curve w.retry_cfg msg.attempt_count ≤ w.retry_cfg.max_delay_ms =
              omega arith in
            let delay_ms = compute_delay_ms w.retry_cfg msg.attempt_count random_u32 in
            inl (
              should_retry-true w.retry_cfg msg.attempt_count more,
              (u64 (now_us + delay_ms * 1000), omega arith, omega arith, rw more refl),
            )
        | inr none_left ↦
            let (limit, spent) = should_retry-false w.retry_cfg msg.attempt_count none_left in
            inr (limit, spent, rw none_left refl)
      ]
