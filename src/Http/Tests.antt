-- ===== src/Http/Tests.antt =====
-- Status codes, and a delivery.
use edgesync_espidf.Prelude.{
  ℕ, ◌≡◌, refl, ◌⊎◌, inr, ◌≤◌, ◌<◌, true, false, none, some, Option, List, [], ◌∷◌, ◌++◌, length,
  arith,
}
use edgesync_espidf.Types.{DeliveryResult, Message, zero_message}
use edgesync_espidf.Id.Hex.{hex_value}
use edgesync_espidf.Http.{default_classify}
use edgesync_espidf.Http.Deliver.{
  Config, Ctx, Request, url_of, is_set, request_of, classify, perform_request, deliver,
  content_type_name, octet_stream, destination_name, idempotency_key, create, max_url_len,
}
use edgesync_espidf.Http.Deliver.Sent.{Accepts, deliver_success, deliver_key, create_verifies}
use edgesync_espidf.Http.Classify.{IsTransient, default_classify_lem}

abbrev too_many_requests : ℕ
too_many_requests = 429

default_classify_lem_example :
    ((200 ≤ too_many_requests)
      × (too_many_requests < 300)
      × (default_classify too_many_requests ≡ DeliveryResult.success))
    ⊎ (IsTransient too_many_requests
        × (default_classify too_many_requests ≡ DeliveryResult.retryable_failure))
    ⊎ ((0 < too_many_requests)
        × (too_many_requests < 200 ⊎ 300 ≤ too_many_requests)
        × (too_many_requests < 500)
        × (¬ (too_many_requests ≡ 408))
        × (¬ (too_many_requests ≡ too_many_requests))
        × (default_classify too_many_requests ≡ DeliveryResult.permanent_failure))
default_classify_lem_example = default_classify_lem too_many_requests

abbrev config : Config
config = record {
  no_append_destination = false;
  timeout_ms = 0;
  content_type = none;
  idempotency_header = none;
  auth_header_name = none;
  auth_header_value = none;
  extra_headers = [];
  use_cert_bundle = false;
  cert_pem = none;
  skip_cert_common_name_check = false;
  classify_status = none;
}

abbrev base_url : List ℕ
base_url = 104 ∷ 116 ∷ 116 ∷ 112 ∷ 115 ∷ 58 ∷ 47 ∷ 47 ∷ 97 ∷ []

abbrev ctx : Ctx
ctx = record { config = record config { use_cert_bundle = true }; base_url = base_url }

abbrev message : Message
message = record zero_message {
  id = 7;
  destination = 98 ∷ [];
  payload_len = 1;
  payload = some (9 ∷ []);
}

abbrev accepts : Request → Option ℕ
accepts r = some 204

abbrev url : List ℕ
url = base_url ++ 47 ∷ 98 ∷ []

answered : (deliver true accepts ctx message).1 ≡ DeliveryResult.success
unfolding deliver url_of perform_request classify default_classify
answered = refl

deliver_success_example :
    (url : List ℕ) × (status : ℕ) × (length url < max_url_len)
    × ((deliver true accepts ctx message).0 ≡ some (request_of ctx message url))
    × ((request_of ctx message url).body ≡ message.payload)
    × (accepts (request_of ctx message url) ≡ some status)
    × Accepts ctx.config status
deliver_success_example = deliver_success true accepts ctx message answered

sent : (deliver true accepts ctx message).0 ≡ some (request_of ctx message url)
unfolding deliver url_of perform_request
sent = refl

deliver_key_example :
    (value : List ℕ) × (others : List (List ℕ × List ℕ)) × ((request_of ctx message url).headers
      ≡ (content_type_name, octet_stream)
        ∷ (destination_name, message.destination)
        ∷ (idempotency_key, value)
        ∷ others)
    × (hex_value (value ++ 0 ∷ []) 0 ≡ message.id)
deliver_key_example =
    deliver_key true accepts ctx message (request_of ctx message url) 73 _ sent refl (omega arith)

created : create true (some base_url) config ≡ inr ctx
unfolding create
created = refl

create_verifies_example :
    (is_set (request_of ctx message url).cert_pem ≡ true)
    ⊎ ((request_of ctx message url).attaches_bundle ≡ true)
create_verifies_example = create_verifies true base_url config ctx message url created refl
