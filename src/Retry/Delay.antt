-- ===== src/Retry/Delay.antt =====
-- What edgesync_retry_compute_delay_ms promises of the delay: the closed form without jitter, the
-- equal-jitter range with it, monotone growth, and the defaults that make it so.
use edgesync_espidf.Prelude.{
  ℕ, ◌-◌, ◌*◌, ◌/◌, ◌^◌, ◌≤◌, ◌<◌, ◌≡◌, refl, ◌⊎◌, true, false, arith, min,
}
use edgesync_espidf.Retry.{
  RetryConfig, IsDefaulted, jittered_delay, compute_delay_ms, apply_defaults,
}
use edgesync_espidf.Retry.Backoff.{backoff_base-eq}

-- The backoff curve of the header: `min(max_delay_ms, initial_delay_ms * multiplier^(attempt_count-1))`.
abbrev pub curve : RetryConfig → ℕ → ℕ
curve cfg attempt_count =
    min cfg.max_delay_ms (cfg.initial_delay_ms * cfg.multiplier ^ (attempt_count - 1))

module _ (cfg : RetryConfig) (attempt_count : ℕ) (v : IsDefaulted cfg) (pos : 1 ≤ attempt_count)
    (fits : attempt_count < 2 ^ 32) where
  -- Without jitter, the delay of a failed attempt is the closed form of the backoff curve, for
  -- every attempt count of a uint32_t: no product wraps on the way.
  pub compute_delay_ms-eq_curve :
      (random_u32 : ℕ)
      → cfg.jitter ≡ false
      → compute_delay_ms cfg attempt_count random_u32 ≡ curve cfg attempt_count
  unfolding compute_delay_ms
  compute_delay_ms-eq_curve random_u32 off =
      ground (arith, backoff_base-eq cfg attempt_count v pos fits)

  -- With jitter, the delay lies between half the curve, rounded down, and the curve.
  pub compute_delay_ms_jitter :
      (random_u32 : ℕ)
      → cfg.jitter ≡ true
      → (curve cfg attempt_count / 2 ≤ compute_delay_ms cfg attempt_count random_u32)
        × (compute_delay_ms cfg attempt_count random_u32 ≤ curve cfg attempt_count)
  unfolding compute_delay_ms jittered_delay
  compute_delay_ms_jitter random_u32 on =
      ground (arith, backoff_base-eq cfg attempt_count v pos fits)

-- `d` is `cfg` with the given values for the delays that are zero and for a multiplier below 2.
pub record IsFilled (cfg d : RetryConfig) (initial_ms max_ms multiplier : ℕ) : Type 0 where
  pub initial_is :
      ((cfg.initial_delay_ms ≡ 0) × (d.initial_delay_ms ≡ initial_ms))
      ⊎ ((1 ≤ cfg.initial_delay_ms) × (d.initial_delay_ms ≡ cfg.initial_delay_ms))
  pub max_is :
      ((cfg.max_delay_ms ≡ 0) × (d.max_delay_ms ≡ max_ms))
      ⊎ ((1 ≤ cfg.max_delay_ms) × (d.max_delay_ms ≡ cfg.max_delay_ms))
  pub multiplier_is :
      ((cfg.multiplier ≤ 1) × (d.multiplier ≡ multiplier))
      ⊎ ((2 ≤ cfg.multiplier) × (d.multiplier ≡ cfg.multiplier))
  pub jitter_is : d.jitter ≡ cfg.jitter
  pub max_attempts_is : d.max_attempts ≡ cfg.max_attempts

-- Applied to any configuration of uint32_t fields, with defaults that fit and a default multiplier
-- of at least 2, edgesync_retry_apply_defaults gives a configuration that computes the backoff
-- curve. It sets each delay that is zero to its default, and a multiplier of 0 or of 1 to its default,
-- and keeps every other delay and multiplier, the jitter and the attempt limit.
pub apply_defaults-IsDefaulted :
    (cfg : RetryConfig) (initial_ms max_ms multiplier : ℕ)
    → cfg.initial_delay_ms < 2 ^ 32
    → cfg.max_delay_ms < 2 ^ 32
    → cfg.multiplier < 2 ^ 32
    → initial_ms < 2 ^ 32
    → max_ms < 2 ^ 32
    → multiplier < 2 ^ 32
    → 2 ≤ multiplier
    → IsDefaulted (apply_defaults cfg initial_ms max_ms multiplier)
      × IsFilled cfg (apply_defaults cfg initial_ms max_ms multiplier) initial_ms max_ms multiplier
unfolding apply_defaults
apply_defaults-IsDefaulted cfg initial_ms max_ms multiplier a b c d e f g = (
  ground arith,
  record {
    initial_is = ground arith;
    max_is = ground arith;
    multiplier_is = ground arith;
    jitter_is = refl;
    max_attempts_is = refl;
  },
)
