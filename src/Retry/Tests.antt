-- ===== src/Retry/Tests.antt =====
-- Delays of a concrete configuration.
use edgesync_espidf.Prelude.{ℕ, ◌/◌, ◌≤◌, ◌≡◌, refl, true, false, arith}
use edgesync_espidf.Retry.{
  RetryConfig, IsDefaulted, apply_defaults, compute_delay_ms, backoff_base, backoff_loop,
}
use edgesync_espidf.Retry.Delay.{
  IsFilled, curve, compute_delay_ms-eq_curve, compute_delay_ms_jitter, apply_defaults-IsDefaulted,
}

abbrev fixed : RetryConfig
fixed = record {
  initial_delay_ms = 1000;
  max_delay_ms = 60000;
  multiplier = 2;
  jitter = false;
  max_attempts = 5;
}

abbrev jittered : RetryConfig
jittered = record fixed { jitter = true }

-- What an application that sets nothing passes.
abbrev unset : RetryConfig
unset = record {
  initial_delay_ms = 0;
  max_delay_ms = 0;
  multiplier = 0;
  jitter = true;
  max_attempts = 0;
}

fixed-IsDefaulted : IsDefaulted fixed
fixed-IsDefaulted = record {
  initial_fits = omega arith;
  max_fits = omega arith;
  multiplier_fits = omega arith;
  multiplier_grows = omega arith;
}

jittered-IsDefaulted : IsDefaulted jittered
jittered-IsDefaulted = record {
  initial_fits = omega arith;
  max_fits = omega arith;
  multiplier_fits = omega arith;
  multiplier_grows = omega arith;
}

compute_delay_ms-eq_curve_example : compute_delay_ms fixed 4 17 ≡ curve fixed 4
compute_delay_ms-eq_curve_example =
    compute_delay_ms-eq_curve fixed 4 fixed-IsDefaulted (omega arith) (omega arith) 17 refl

compute_delay_ms_jitter_example :
    (curve jittered 4 / 2 ≤ compute_delay_ms jittered 4 17)
    × (compute_delay_ms jittered 4 17 ≤ curve jittered 4)
compute_delay_ms_jitter_example =
    compute_delay_ms_jitter jittered 4 jittered-IsDefaulted (omega arith) (omega arith) 17 refl

abbrev initial_ms : ℕ
initial_ms = 1000

abbrev max_ms : ℕ
max_ms = 60000

apply_defaults-IsDefaulted_example :
    IsDefaulted (apply_defaults unset initial_ms max_ms 2)
    × IsFilled unset (apply_defaults unset initial_ms max_ms 2) initial_ms max_ms 2
apply_defaults-IsDefaulted_example =
    apply_defaults-IsDefaulted unset initial_ms max_ms 2 (omega arith) (omega arith) (omega arith)
      (omega arith) (omega arith) (omega arith) (omega arith)

-- The fourth attempt waits eight times the first delay.
delay_of_fourth : compute_delay_ms fixed 4 17 ≡ 8000
unfolding compute_delay_ms backoff_base backoff_loop
delay_of_fourth = refl
