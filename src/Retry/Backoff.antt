-- ===== src/Retry/Backoff.antt =====
-- The loop of edgesync_retry_compute_delay_ms against the closed form that its header gives.
use native.Mathlib.Nat.{pow-suc, pow-zero, mul_assoc, mul_comm, one-le-pow, mul-le-mul_left}
use edgesync_espidf.Prelude.{
  ℕ, zero, suc, ◌-◌, ◌*◌, ◌^◌, ◌≤◌, ◌<◌, ◌≡◌, ◌∙◌, ap, inl, inr, arith, leb, leb→le, leb→lt, min,
  u64, sub32, Bool-cases,
}
use edgesync_espidf.Retry.{RetryConfig, IsDefaulted, backoff_loop, backoff_base}

-- A product of two uint32_t does not wrap in uint64_t.
product_fits : (a b : ℕ) → a < 2 ^ 32 → b < 2 ^ 32 → u64 (a * b) ≡ a * b
product_fits a b ha hb = let bound : a * b ≤ 2 ^ 32 * 2 ^ 32 - 1 = grind arith in omega arith

-- A power of a multiplier at least 1 is at least 1.
le-mul-pow : (a m k : ℕ) → 1 ≤ m → a ≤ a * m ^ k
le-mul-pow a m k h = omega (arith, mul-le-mul_left a (one-le-pow k m h))

regroup : (a m k : ℕ) → a * m * m ^ k ≡ a * m ^ suc k
regroup a m k = rw pow-suc (rw mul_assoc (ap (λ (t : ℕ). a * t) (mul_comm m (m ^ k))))

backoff_loop-min :
    (cfg : RetryConfig)
    → IsDefaulted cfg
    → (rounds base : ℕ)
    → min cfg.max_delay_ms (backoff_loop cfg rounds base)
      ≡ min cfg.max_delay_ms (base * cfg.multiplier ^ rounds)
unfolding backoff_loop
backoff_loop-min cfg v zero base = rw pow-zero (omega arith)
backoff_loop-min cfg v (suc rounds) base = elim (Bool-cases (leb cfg.max_delay_ms base)) [
  | inl capped ↦ rw capped (
      omega (
        arith,
        leb→le cfg.max_delay_ms base capped,
        le-mul-pow base cfg.multiplier (suc rounds) (omega arith),
      ))
  | inr below ↦
      let fits : base < 2 ^ 32 = omega (arith, leb→lt cfg.max_delay_ms base below) in
      rw below (
        rw (product_fits base cfg.multiplier fits v.multiplier_fits) (
          backoff_loop-min cfg v rounds (base * cfg.multiplier)
          ∙ ap (min cfg.max_delay_ms) (regroup base cfg.multiplier rounds)))
]

-- Before the final clamp is over, the base is the closed form.
pub backoff_base-eq :
    (cfg : RetryConfig) (attempt_count : ℕ)
    → IsDefaulted cfg
    → 1 ≤ attempt_count
    → attempt_count < 2 ^ 32
    → backoff_base cfg attempt_count
      ≡ min cfg.max_delay_ms (cfg.initial_delay_ms * cfg.multiplier ^ (attempt_count - 1))
unfolding backoff_base
backoff_base-eq cfg n v pos fits =
    let rounds : sub32 n 1 ≡ n - 1 = omega arith in
    rw rounds (ground (arith, backoff_loop-min cfg v (n - 1) cfg.initial_delay_ms))
