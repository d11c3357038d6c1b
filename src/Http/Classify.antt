-- ===== src/Http/Classify.antt =====
-- default_classify against the table of status codes.
use edgesync_espidf.Prelude.{ℕ, ◌≤◌, ◌<◌, ◌≡◌, inl, inr, ◌⊎◌, arith}
use edgesync_espidf.Types.{DeliveryResult}
use edgesync_espidf.Http.{default_classify}

-- Codes after which the same request may succeed: no response at all, and the codes that ask to come back.
abbrev pub IsTransient : ℕ → Type 0
IsTransient status = (status ≡ 0) ⊎ (status ≡ 408) ⊎ (status ≡ 429) ⊎ (500 ≤ status)

module _ (status : ℕ) where
  classify_success : 200 ≤ status → status < 300 → default_classify status ≡ DeliveryResult.success
  unfolding default_classify
  classify_success low high = ground arith

  classify_server_error : 500 ≤ status → default_classify status ≡ DeliveryResult.retryable_failure
  unfolding default_classify
  classify_server_error low = ground arith

  classify_permanent :
      0 < status
      → (status < 200 ⊎ 300 ≤ status)
      → status < 500
      → ¬ (status ≡ 408)
      → ¬ (status ≡ 429)
      → default_classify status ≡ DeliveryResult.permanent_failure
  unfolding default_classify
  classify_permanent low out high no_timeout no_limit = ground arith

  classify_transient :
      IsTransient status → default_classify status ≡ DeliveryResult.retryable_failure
  unfolding default_classify
  classify_transient h = ground arith

status_cases :
    (status : ℕ)
    → ((200 ≤ status) × (status < 300))
      ⊎ IsTransient status
      ⊎ ((0 < status)
          × (status < 200 ⊎ 300 ≤ status)
          × (status < 500)
          × (¬ (status ≡ 408))
          × (¬ (status ≡ 429)))
status_cases status = ground arith

-- edgesync_http's default_classify, for every int: it is a success exactly for 200 to 299,
-- retryable exactly for no response (0 or negative), 408, 429 and everything from 500 on, and permanent for all the rest.
pub default_classify_lem :
    (status : ℕ)
    → ((200 ≤ status) × (status < 300) × (default_classify status ≡ DeliveryResult.success))
      ⊎ (IsTransient status × (default_classify status ≡ DeliveryResult.retryable_failure))
      ⊎ ((0 < status)
          × (status < 200 ⊎ 300 ≤ status)
          × (status < 500)
          × (¬ (status ≡ 408))
          × (¬ (status ≡ 429))
          × (default_classify status ≡ DeliveryResult.permanent_failure))
default_classify_lem status = elim (status_cases status) [
  | inl (low, high) ↦ inl (low, high, classify_success status low high)
  | inr (inl h) ↦ inr (inl (h, classify_transient status h))
  | inr (inr (low, out, high, n, m)) ↦
      inr (inr (low, out, high, n, m, classify_permanent status low out high n m))
]
