-- ===== src/Mqtt.antt =====
-- components/edgesync/src/edgesync_mqtt.c: the transport over MQTT. The acknowledgements arrive from the task of the
-- MQTT client while op_deliver runs in the worker's.
pub mod Acks
mod Tests
use edgesync_espidf.Prelude.{
  ℕ, ◌-◌, ◌^◌, Bool, true, false, not, ◌&&◌, ◌||◌, Option, none, some, List, [], ◌∷◌, ◌++◌, length,
  take, leb, ltb, ◌==◌, if◌then◌else◌, starts_with,
}
use edgesync_espidf.Types.{DeliveryResult, EspErr, Message}

-- EDGESYNC_MQTT_MAX_TOPIC_LEN, and the Kconfig default of the quality of service.
abbrev pub max_topic_len : ℕ
max_topic_len = 256

abbrev pub default_qos : ℕ
default_qos = 1

abbrev pub default_timeout_ms : ℕ
default_timeout_ms = 10000

-- edgesync_mqtt_ctx_t without the client: the parts of the configuration that op_deliver reads, the base topic, and
-- the queue for one acknowledgement. `qos` is an int, here its 32-bit pattern.
pub record Ctx : Type 0 where
  pub no_append_destination : Bool
  pub qos : ℕ
  pub retain : Bool
  pub timeout_ms : ℕ
  pub base_topic : List ℕ
  pub ack_queue : Option ℕ

-- The events of the MQTT client.
pub data Event : Type 0 where
  connected disconnected failed any_other : Event
  published : ℕ → Event

-- mqtt_event_handler: what it leaves in the queue (xQueueOverwrite).
unfoldable pub handle_event : Event → Option ℕ → Option ℕ
handle_event (Event.published msg_id) queue = some msg_id
handle_event event queue = queue

-- The queue behind some events.
unfoldable pub handle_events : List Event → Option ℕ → Option ℕ
handle_events [] queue = queue
handle_events (event ∷ events) queue = handle_events events (handle_event event queue)

-- xQueueReceive: an acknowledgement that is there is taken at once; else the events of the time until the
-- timeout are waited for, one after the other. `none` is the timeout.
unfoldable pub receive : Option ℕ → List Event → Option ℕ
receive (some msg_id) events = some msg_id
receive none [] = none
receive none (event ∷ events) = receive (handle_event event none) events

-- A publish as the client gets it.
pub record Publish : Type 0 where
  pub topic : List ℕ
  pub payload : Option (List ℕ)
  pub payload_len : ℕ
  pub qos : ℕ
  pub retain : Bool

-- The topic, or `none` where it is too long. `strlcpy` keeps one byte for the NUL.
unfoldable pub topic_of : Ctx → Message → Option (List ℕ)
topic_of ctx message =
    if ctx.no_append_destination
    then some (take (max_topic_len - 1) ctx.base_topic)
    else (let topic = ctx.base_topic ++ 47 ∷ message.destination in
        if leb max_topic_len (length topic) then none else some topic)

-- The quality of service, the default if it is out of range.
abbrev pub chosen_qos : ℕ → ℕ
chosen_qos qos = if leb (2 ^ 31) qos || ltb 2 qos then default_qos else qos

abbrev pub is_negative : ℕ → Bool
is_negative msg_id = leb (2 ^ 31) msg_id

abbrev pub publish_of : Ctx → Message → List ℕ → Publish
publish_of ctx message topic = record {
  topic = topic;
  payload = message.payload;
  payload_len = message.payload_len;
  qos = chosen_qos ctx.qos;
  retain = ctx.retain;
}

-- The result for the acknowledgement that was received.
abbrev pub result_of : Option ℕ → ℕ → DeliveryResult
result_of none msg_id = DeliveryResult.retryable_failure
result_of (some acked_id) msg_id =
    if acked_id == msg_id then DeliveryResult.success else DeliveryResult.retryable_failure

-- op_deliver behind the topic. `send` is what esp_mqtt_client_publish returns, an int as its 32-bit
-- pattern; `sending` are the events between xQueueReset and its return, `waiting` those from there to the
-- timeout.
unfoldable pub deliver_on :
    (Publish → ℕ)
    → List Event
    → List Event
    → Ctx
    → Message
    → List ℕ
    → Option Publish × DeliveryResult × ℕ
deliver_on send sending waiting ctx message topic =
    let p = publish_of ctx message topic in
    let reset : Ctx = record ctx { ack_queue = none } in
    let queue = handle_events sending reset.ack_queue in
    let msg_id = send p in
    if is_negative msg_id
    then (some p, DeliveryResult.retryable_failure, msg_id)
    else (some p, result_of (receive queue waiting) msg_id, msg_id)

-- op_deliver: the publish that the client was given, the result, and the status code.
unfoldable pub deliver :
    (Publish → ℕ) → List Event → List Event → Ctx → Message → Option Publish × DeliveryResult × ℕ
deliver send sending waiting ctx message = elim (topic_of ctx message) [
  | none ↦ (none, DeliveryResult.permanent_failure, 0)
  | some topic ↦ deliver_on send sending waiting ctx message topic
]

-- How long op_deliver waits.
abbrev pub wait_ms : Ctx → ℕ
wait_ms ctx = if ctx.timeout_ms == 0 then default_timeout_ms else ctx.timeout_ms

-- The configuration of the client that edgesync_mqtt_transport_create chooses: whether the certificate
-- bundle is attached.
abbrev pub mqtts_prefix : List ℕ
mqtts_prefix = 109 ∷ 113 ∷ 116 ∷ 116 ∷ 115 ∷ 58 ∷ 47 ∷ 47 ∷ []

unfoldable pub attaches_bundle : Bool → Bool → List ℕ → Bool
attaches_bundle use_cert_bundle has_cert_pem broker_uri =
    let chosen : Bool =
      if not use_cert_bundle && (not has_cert_pem && starts_with mqtts_prefix broker_uri)
      then true
      else use_cert_bundle in
    chosen && not has_cert_pem
