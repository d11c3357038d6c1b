-- ===== src/Http/Deliver.antt =====
-- edgesync_http.c: the request of a delivery, over the HTTP client as a parameter, and the constructor.
pub mod Sent
use edgesync_espidf.Prelude.{
  ℕ, ◌-◌, Bool, true, false, not, ◌&&◌, Option, none, some, List, [], ◌∷◌, ◌++◌, length, take, leb,
  ◌==◌, ◌⊎◌, inl, inr, if◌then◌else◌, starts_with,
}
use edgesync_espidf.Types.{DeliveryResult, EspErr, Message}
use edgesync_espidf.Id.{id_to_hex}
use edgesync_espidf.Http.{default_classify}

-- EDGESYNC_HTTP_MAX_URL_LEN, and the Kconfig default of the timeout.
abbrev pub max_url_len : ℕ
max_url_len = 256

abbrev pub default_timeout_ms : ℕ
default_timeout_ms = 30000

-- edgesync_http_transport_config_t but for its URL; `none` is NULL. The two parallel arrays of
-- extra headers are one list of pairs, and a negative answer of classify_status is `none`.
pub record Config : Type 0 where
  pub no_append_destination : Bool
  pub timeout_ms : ℕ
  pub content_type : Option (List ℕ)
  pub idempotency_header : Option (List ℕ)
  pub auth_header_name : Option (List ℕ)
  pub auth_header_value : Option (List ℕ)
  pub extra_headers : List (List ℕ × List ℕ)
  pub use_cert_bundle : Bool
  pub cert_pem : Option (List ℕ)
  pub skip_cert_common_name_check : Bool
  pub classify_status : Option (ℕ → Option DeliveryResult)

-- edgesync_http_ctx_t
pub record Ctx : Type 0 where
  pub config : Config
  pub base_url : List ℕ

-- What the client is configured with: esp_http_client_config_t, the headers that are set, in order, and the
-- post field.
pub record Request : Type 0 where
  pub url : List ℕ
  pub timeout_ms : ℕ
  pub skip_cert_common_name_check : Bool
  pub cert_pem : Option (List ℕ)
  pub attaches_bundle : Bool
  pub headers : List (List ℕ × List ℕ)
  pub body : Option (List ℕ)
  pub body_len : ℕ

abbrev pub or_default : {A : Type 0} → Option A → A → A
or_default none d = d
or_default (some x) d = x

-- The URL, or `none` where it is too long. `strlcpy` keeps one byte for the NUL.
unfoldable pub url_of : Ctx → Message → Option (List ℕ)
url_of ctx message =
    if ctx.config.no_append_destination
    then some (take (max_url_len - 1) ctx.base_url)
    else (let url = ctx.base_url ++ 47 ∷ message.destination in
        if leb max_url_len (length url) then none else some url)

-- "application/octet-stream", "Content-Type", "X-EdgeSync-Destination" and "Idempotency-Key".
abbrev pub octet_stream : List ℕ
octet_stream =
    97 ∷ 112 ∷ 112 ∷ 108 ∷ 105 ∷ 99 ∷ 97 ∷ 116 ∷ 105 ∷ 111 ∷ 110 ∷ 47 ∷ 111 ∷ 99 ∷ 116 ∷ 101 ∷ 116
    ∷ 45 ∷ 115 ∷ 116 ∷ 114 ∷ 101 ∷ 97 ∷ 109 ∷ []

abbrev pub content_type_name : List ℕ
content_type_name = 67 ∷ 111 ∷ 110 ∷ 116 ∷ 101 ∷ 110 ∷ 116 ∷ 45 ∷ 84 ∷ 121 ∷ 112 ∷ 101 ∷ []

abbrev pub destination_name : List ℕ
destination_name =
    88 ∷ 45 ∷ 69 ∷ 100 ∷ 103 ∷ 101 ∷ 83 ∷ 121 ∷ 110 ∷ 99 ∷ 45 ∷ 68 ∷ 101 ∷ 115 ∷ 116 ∷ 105 ∷ 110
    ∷ 97 ∷ 116 ∷ 105 ∷ 111 ∷ 110 ∷ []

abbrev pub idempotency_key : List ℕ
idempotency_key =
    73 ∷ 100 ∷ 101 ∷ 109 ∷ 112 ∷ 111 ∷ 116 ∷ 101 ∷ 110 ∷ 99 ∷ 121 ∷ 45 ∷ 75 ∷ 101 ∷ 121 ∷ []

-- The header with the id, unless the configured name is empty. The value is the C string in `hex`.
unfoldable pub key_header : List ℕ → ℕ → List (List ℕ × List ℕ)
key_header [] id = []
key_header (c ∷ name) id = (c ∷ name, take 16 (id_to_hex id)) ∷ []

-- The header for authorization, if both its parts are set.
unfoldable pub auth_header : Option (List ℕ) → Option (List ℕ) → List (List ℕ × List ℕ)
auth_header none value = []
auth_header (some name) none = []
auth_header (some name) (some value) = (name, value) ∷ []

-- The calls of esp_http_client_set_header.
unfoldable pub headers_of : Config → Message → List (List ℕ × List ℕ)
headers_of config message =
    (content_type_name, or_default config.content_type octet_stream)
    ∷ (destination_name, message.destination)
    ∷ (key_header (or_default config.idempotency_header idempotency_key) message.id
        ++ (auth_header config.auth_header_name config.auth_header_value ++ config.extra_headers))

abbrev pub is_set : Option (List ℕ) → Bool
is_set none = false
is_set (some x) = true

-- The request for a URL.
unfoldable pub request_of : Ctx → Message → List ℕ → Request
request_of ctx message url = record {
  url = url;
  timeout_ms = if ctx.config.timeout_ms == 0 then default_timeout_ms else ctx.config.timeout_ms;
  skip_cert_common_name_check = ctx.config.skip_cert_common_name_check;
  cert_pem = ctx.config.cert_pem;
  attaches_bundle = not (is_set ctx.config.cert_pem) && ctx.config.use_cert_bundle;
  headers = headers_of ctx.config message;
  body = message.payload;
  body_len = message.payload_len;
}

-- The result for a status code: classify_status is asked first, if it is set.
unfoldable pub classify : Config → ℕ → DeliveryResult
classify config status = elim config.classify_status [
  | none ↦ default_classify status
  | some f ↦ or_default (f status) (default_classify status)
]

-- op_deliver behind esp_http_client_init. `perform` is what the client does: `none` is an error, `some` the status code.
unfoldable pub perform_request :
    (Request → Option ℕ) → Config → Request → Option Request × DeliveryResult × ℕ
perform_request perform config r = elim (perform r) [
  | none ↦ (some r, DeliveryResult.retryable_failure, 0)
  | some status ↦ (some r, classify config status, status)
]

-- op_deliver: the request that was performed, the result, and the status code. `has_client` is whether
-- esp_http_client_init gives a client.
unfoldable pub deliver :
    Bool → (Request → Option ℕ) → Ctx → Message → Option Request × DeliveryResult × ℕ
deliver has_client perform ctx message = elim (url_of ctx message) [
  | none ↦ (none, DeliveryResult.permanent_failure, 0)
  | some url ↦
      if has_client
      then perform_request perform ctx.config (request_of ctx message url)
      else (none, DeliveryResult.retryable_failure, 0)
]

-- "https://"
abbrev pub https_prefix : List ℕ
https_prefix = 104 ∷ 116 ∷ 116 ∷ 112 ∷ 115 ∷ 58 ∷ 47 ∷ 47 ∷ []

-- edgesync_http_transport_create, for a configuration that is not NULL, with its URL. `allocated` is whether
-- calloc gives memory.
unfoldable pub create : Bool → Option (List ℕ) → Config → EspErr ⊎ Ctx
create allocated none config = inl EspErr.transport
create allocated (some url) config =
    let base_url = take (max_url_len - 1) url in
    if not allocated
    then inl EspErr.no_mem
    else if not config.use_cert_bundle
        && (not (is_set config.cert_pem) && starts_with https_prefix base_url)
    then inr (record { config = record config { use_cert_bundle = true }; base_url = base_url })
    else inr (record { config = config; base_url = base_url })
