-- ===== src/Http.antt =====
-- components/edgesync/src/edgesync_http.c: the classification of HTTP status codes.
pub mod Classify
pub mod Deliver
mod Tests
use edgesync_espidf.Prelude.{
  ℕ, ◌+◌, ◌^◌, Bool, true, false, ◌&&◌, ◌||◌, ltb, leb, ◌==◌, if◌then◌else◌,
}
use edgesync_espidf.Types.{DeliveryResult}

-- The unlisted codes.
abbrev pub unlisted : ℕ → DeliveryResult
unlisted status =
    if leb 500 status then DeliveryResult.retryable_failure else DeliveryResult.permanent_failure

-- The cases of the switch.
abbrev pub listed_permanent : ℕ → Bool
listed_permanent status =
    status == 400 || status == 401 || status == 403 || status == 404 || status == 422

abbrev pub listed_retryable : ℕ → Bool
listed_retryable status =
    status == 408
    || status == 429
    || status == 500
    || status == 502
    || status == 503
    || status == 504

-- default_classify; `status` is an int, here its 32-bit pattern.
unfoldable pub default_classify : ℕ → DeliveryResult
default_classify status =
    if status == 0 || leb (2 ^ 31) status
    then DeliveryResult.retryable_failure
    else if leb 200 status && ltb status 300
    then DeliveryResult.success
    else if listed_permanent status
    then DeliveryResult.permanent_failure
    else if listed_retryable status
    then DeliveryResult.retryable_failure
    else unlisted status
