-- ===== src/Http/Deliver/Sent.antt =====
-- What a delivery over HTTP sends, and when it counts as a success.
use edgesync_espidf.Prelude.{
  ℕ, ◌^◌, ◌≤◌, ◌<◌, ◌≡◌, refl, sym, ◌∙◌, ap, ◌≢◌, ◌⊎◌, inl, inr, Bool, true, false, Bool-cases, not,
  ◌&&◌, Option, Option-cases, none, some, List, [], ◌∷◌, ◌++◌, length, take, leb, leb→lt,
  length-take, starts_with, arith,
}
use mathlib.Core.Option.{some-injective}
use edgesync_espidf.Types.{DeliveryResult, Message}
use edgesync_espidf.Id.{id_to_hex}
use edgesync_espidf.Id.Hex.{hex_value, hex_value-id_to_hex, take-id_to_hex}
use edgesync_espidf.Http.{default_classify}
use edgesync_espidf.Http.Classify.{default_classify_lem}
use edgesync_espidf.Http.Deliver.{
  Config, Ctx, Request, or_default, url_of, key_header, auth_header, headers_of, is_set, request_of,
  classify, perform_request, deliver, content_type_name, octet_stream, destination_name,
  idempotency_key, https_prefix, create, max_url_len,
}

-- A call of op_deliver that did send its request.
abbrev pub Sends :
    (Request → Option ℕ) → Ctx → Message → Option Request × DeliveryResult × ℕ → Type 0
Sends perform ctx m r =
    (url : List ℕ) × (url_of ctx m ≡ some url)
    × (r ≡ perform_request perform ctx.config (request_of ctx m url))

deliver_cases :
    (has_client : Bool) (perform : Request → Option ℕ) (ctx : Ctx) (m : Message)
    → (((deliver has_client perform ctx m).0 ≡ none)
        × ((deliver has_client perform ctx m).1 ≢ DeliveryResult.success))
      ⊎ Sends perform ctx m (deliver has_client perform ctx m)
unfolding deliver
deliver_cases has_client perform ctx m = elim (Option-cases (url_of ctx m)) [
  | inl long ↦ inl (rw (long, deliver) (refl, λ e. absurd (cc)))
  | inr (url, fits) ↦ elim (Bool-cases has_client) [
    | inl made ↦ inr (url, fits, rw (fits, made, deliver) refl)
    | inr missing ↦ inl (rw (fits, missing, deliver) (refl, λ e. absurd (cc)))
  ]
]

nothing_is : {A : Type 0} {x : A} → ¬ (none ≡ some x)
nothing_is e = absurd (cc)

url_of-fits :
    (ctx : Ctx) (m : Message) (url : List ℕ) → url_of ctx m ≡ some url → length url < max_url_len
unfolding url_of
url_of-fits ctx m url e = elim (Bool-cases ctx.config.no_append_destination) [
  | inl base ↦
      let same : take 255 ctx.base_url ≡ url = some-injective _ _ (rw base at e) in
      rw (sym same) (omega (arith, length-take 255 ctx.base_url))
  | inr appended ↦ elim (Bool-cases (leb 256 (length (ctx.base_url ++ 47 ∷ m.destination)))) [
    | inl long ↦ absurd (nothing_is (rw (appended, long) at e))
    | inr short ↦
        let same : ctx.base_url ++ 47 ∷ m.destination ≡ url =
          some-injective _ _ (rw (appended, short) at e) in
        rw same at (leb→lt 256 (length (ctx.base_url ++ 47 ∷ m.destination)) short)
  ]
]

failed_answer :
    (perform : Request → Option ℕ) (config : Config) (r : Request)
    → perform r ≡ none
    → (perform_request perform config r).1 ≢ DeliveryResult.success
unfolding perform_request
failed_answer perform config r failed = rw (failed, perform_request) (λ e. absurd (cc))

perform_request_lem :
    (perform : Request → Option ℕ) (config : Config) (r : Request) (status : ℕ)
    → perform r ≡ some status
    → perform_request perform config r ≡ (some r, classify config status, status)
unfolding perform_request
perform_request_lem perform config r status answered = rw (answered, perform_request) refl

performed :
    (perform : Request → Option ℕ) (config : Config) (r : Request)
    → (perform_request perform config r).0 ≡ some r
unfolding perform_request
performed perform config r = elim (Option-cases (perform r)) [
  | inl failed ↦ rw (failed, perform_request) refl
  | inr (status, answered) ↦ rw (answered, perform_request) refl
]

default_success :
    (status : ℕ)
    → default_classify status ≡ DeliveryResult.success
    → (200 ≤ status) × (status < 300)
default_success status e = elim (default_classify_lem status) [
  | inl (low, high, same) ↦ (low, high)
  | inr (inl (why, same)) ↦ absurd (cc)
  | inr (inr (low, out, high, n, m, same)) ↦ absurd (cc)
]

-- The answer counts as a success: a 2xx code, or the application's classifier says so.
abbrev pub Accepts : Config → ℕ → Type 0
Accepts config status =
    ((200 ≤ status) × (status < 300))
    ⊎ ((f : (ℕ → Option DeliveryResult)) × (config.classify_status ≡ some f)
        × (f status ≡ some DeliveryResult.success))

classify-Accepts :
    (config : Config) (status : ℕ)
    → classify config status ≡ DeliveryResult.success
    → Accepts config status
unfolding classify
classify-Accepts config status e = elim (Option-cases config.classify_status) [
  | inl unset ↦ inl (default_success status (rw unset at e))
  | inr (f, set) ↦ elim (Option-cases (f status)) [
    | inl asks ↦ inl (default_success status (rw (set, asks) at e))
    | inr (result, gives) ↦ inr (f, set, gives ∙ ap some (rw (set, gives) at e))
  ]
]

-- A delivery is a success only if the request with the message's payload was performed, on a URL that fits its buffer,
-- and the server answered with a code from 200 to 299, or with one for which the classifier of the
-- configuration returned success. So a client that could not be created, and a connection that failed, are
-- never reported as delivered.
pub deliver_success :
    (has_client : Bool) (perform : Request → Option ℕ) (ctx : Ctx) (m : Message)
    → (deliver has_client perform ctx m).1 ≡ DeliveryResult.success
    → (url : List ℕ) × (status : ℕ) × (length url < max_url_len)
      × ((deliver has_client perform ctx m).0 ≡ some (request_of ctx m url))
      × ((request_of ctx m url).body ≡ m.payload)
      × (perform (request_of ctx m url) ≡ some status)
      × Accepts ctx.config status
unfolding request_of
deliver_success has_client perform ctx m e = elim (deliver_cases has_client perform ctx m) [
  | inl (unsent, refused) ↦ absurd (refused e)
  | inr (url, found, same) ↦ elim (Option-cases (perform (request_of ctx m url))) [
    | inl failed ↦ absurd (
        failed_answer perform ctx.config (request_of ctx m url) failed
          (ap (λ r. r.1) (sym same) ∙ e))
    | inr (status, answered) ↦
        let r = perform_request_lem perform ctx.config (request_of ctx m url) status answered in
        (
          url,
          status,
          url_of-fits ctx m url found,
          ap (λ x. x.0) same ∙ ap (λ x. x.0) r,
          refl,
          answered,
          classify-Accepts ctx.config status (sym (ap (λ x. x.1) r) ∙ ap (λ x. x.1) (sym same) ∙ e),
        )
  ]
]

-- The request of a message with a 64-bit id carries, unless the header is disabled, the configured header
-- (Idempotency-Key by default) with a value from which the id is read back as a hexadecimal number: it is the
-- same for every attempt of the message, and another for each other message.
pub deliver_key :
    (has_client : Bool) (perform : Request → Option ℕ) (ctx : Ctx) (m : Message) (r : Request)
    (c : ℕ) (name : List ℕ)
    → (deliver has_client perform ctx m).0 ≡ some r
    → or_default ctx.config.idempotency_header idempotency_key ≡ c ∷ name
    → m.id < 2 ^ 64
    → (value : List ℕ) × (others : List (List ℕ × List ℕ)) × (r.headers
        ≡ (content_type_name, or_default ctx.config.content_type octet_stream)
          ∷ (destination_name, m.destination)
          ∷ (c ∷ name, value)
          ∷ others)
      × (hex_value (value ++ 0 ∷ []) 0 ≡ m.id)
unfolding request_of headers_of key_header
deliver_key has_client perform ctx m r c name sent named fits =
    elim (deliver_cases has_client perform ctx m) [
      | inl (unsent, refused) ↦ absurd (nothing_is (sym unsent ∙ sent))
      | inr (url, found, same) ↦
          let req : request_of ctx m url ≡ r = some-injective _ _ (
            sym (performed perform ctx.config (request_of ctx m url))
            ∙ ap (λ x. x.0) (sym same)
            ∙ sent) in
          let others : List (List ℕ × List ℕ) =
            auth_header ctx.config.auth_header_name ctx.config.auth_header_value
            ++ ctx.config.extra_headers in
          (
            take 16 (id_to_hex m.id),
            others,
            ap (λ (x : Request). x.headers) (sym req)
                ∙ ap
                    (λ (n : List ℕ).
                      (content_type_name, or_default ctx.config.content_type octet_stream)
                      ∷ (destination_name, m.destination)
                      ∷ (key_header n m.id ++ others))
                    named,
            rw (take-id_to_hex m.id) (hex_value-id_to_hex m.id fits).1,
          )
    ]

verified :
    (bundle own tls : Bool)
    → (not bundle && (not own && tls)) ≡ false
    → tls ≡ true
    → (own ≡ true) ⊎ ((not own && bundle) ≡ true)
verified bundle own tls kept over_tls = ground arith

-- TLS is never left unverified: a transport that was created for a base URL with https:// has either a
-- certificate of its own, or every request attaches the certificate bundle.
pub create_verifies :
    (allocated : Bool) (url : List ℕ) (config : Config) (ctx : Ctx) (m : Message) (to : List ℕ)
    → create allocated (some url) config ≡ inr ctx
    → starts_with https_prefix ctx.base_url ≡ true
    → (is_set (request_of ctx m to).cert_pem ≡ true)
      ⊎ ((request_of ctx m to).attaches_bundle ≡ true)
unfolding create request_of
create_verifies false url config ctx m to made https = absurd (cc)
create_verifies true url config ctx m to made https =
    let base : List ℕ = take 255 url in
    elim (Bool-cases (
      not config.use_cert_bundle
      && (not (is_set config.cert_pem) && starts_with https_prefix base))) [
        | inl chosen ↦
            let same : record { config = record config { use_cert_bundle = true }; base_url = base }
                ≡ ctx =
              ap (λ x. elim x [ inl e ↦ ctx | inr c ↦ c ]) (rw chosen at made) in
            rw (sym same) (elim (Bool-cases (is_set config.cert_pem)) [
              | inl own ↦ inl own
              | inr bare ↦ inr (rw bare refl)
            ])
        | inr kept ↦
            let same : record { config = config; base_url = base } ≡ ctx =
              ap (λ x. elim x [ inl e ↦ ctx | inr c ↦ c ]) (rw kept at made) in
            let over_tls : starts_with https_prefix base ≡ true =
              ap (λ (c : Ctx). starts_with https_prefix c.base_url) same ∙ https in
            rw (sym same) (
              verified config.use_cert_bundle (is_set config.cert_pem)
                (starts_with https_prefix base) kept over_tls)
      ]
