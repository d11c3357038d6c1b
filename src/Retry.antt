-- ===== src/Retry.antt =====
-- components/edgesync/src/edgesync_retry.c: exponential backoff with jitter, as a pure function.
-- Every number is a uint32_t, except `base`, `half` and `jittered`, which are uint64_t.
pub mod Backoff
pub mod Delay
mod Tests
use edgesync_espidf.Prelude.{
  ℕ, zero, suc, ◌+◌, ◌*◌, ◌/◌, ◌%◌, ◌^◌, ◌≤◌, ◌<◌, Bool, true, false, not, ◌||◌, ltb, leb, ◌==◌,
  if◌then◌else◌, u32, u64, sub32,
}

-- edgesync_retry_config_t
pub record RetryConfig : Type 0 where
  pub initial_delay_ms : ℕ
  pub max_delay_ms : ℕ
  pub multiplier : ℕ
  pub jitter : Bool
  pub max_attempts : ℕ

-- edgesync_retry_apply_defaults
unfoldable pub apply_defaults : RetryConfig → ℕ → ℕ → ℕ → RetryConfig
apply_defaults cfg default_initial_ms default_max_ms default_multiplier = record cfg {
  initial_delay_ms = if cfg.initial_delay_ms == 0 then default_initial_ms else cfg.initial_delay_ms;
  max_delay_ms = if cfg.max_delay_ms == 0 then default_max_ms else cfg.max_delay_ms;
  multiplier = if ltb cfg.multiplier 2 then default_multiplier else cfg.multiplier;
}

-- The loop over `i`, with `rounds` left; `base *= multiplier` wraps in uint64_t.
pub backoff_loop : RetryConfig → ℕ → ℕ → ℕ
backoff_loop cfg zero base = base
backoff_loop cfg (suc rounds) base =
    let rest = backoff_loop cfg rounds (u64 (base * cfg.multiplier)) in
    if leb cfg.max_delay_ms base then cfg.max_delay_ms else rest

-- The clamped base of edgesync_retry_compute_delay_ms, for `attempt_count` at least 1.
unfoldable pub backoff_base : RetryConfig → ℕ → ℕ
backoff_base cfg attempt_count =
    let base = backoff_loop cfg (sub32 attempt_count 1) cfg.initial_delay_ms in
    if ltb cfg.max_delay_ms base then cfg.max_delay_ms else base

-- The equal jitter of edgesync_retry_compute_delay_ms.
unfoldable pub jittered_delay : RetryConfig → ℕ → ℕ → ℕ
jittered_delay cfg base random_u32 =
    let half = base / 2 in
    let jittered = u64 (half + random_u32 % u64 (half + 1)) in
    if ltb cfg.max_delay_ms jittered then u32 cfg.max_delay_ms else u32 jittered

-- edgesync_retry_compute_delay_ms
unfoldable pub compute_delay_ms : RetryConfig → ℕ → ℕ → ℕ
compute_delay_ms cfg attempt_count random_u32 =
    if attempt_count == 0
    then 0
    else (let base = backoff_base cfg attempt_count in
        if not cfg.jitter || base == 0 then u32 base else jittered_delay cfg base random_u32)

-- edgesync_retry_should_retry
unfoldable pub should_retry : RetryConfig → ℕ → Bool
should_retry cfg attempt_count =
    if cfg.max_attempts == 0 then true else ltb attempt_count cfg.max_attempts

-- A configuration as edgesync_init leaves it: every field fits its type, and the multiplier is
-- at least 2.
pub record IsDefaulted (cfg : RetryConfig) : Type 0 where
  pub initial_fits : cfg.initial_delay_ms < 2 ^ 32
  pub max_fits : cfg.max_delay_ms < 2 ^ 32
  pub multiplier_fits : cfg.multiplier < 2 ^ 32
  pub multiplier_grows : 2 ≤ cfg.multiplier
