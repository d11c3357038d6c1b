-- ===== src/Mqtt/Tests.antt =====
-- Runs of op_deliver of the MQTT transport.
use edgesync_espidf.Prelude.{ℕ, ◌≡◌, refl, ◌⊎◌, false, none, some, List, [], ◌∷◌}
use edgesync_espidf.Types.{DeliveryResult, Message, zero_message}
use edgesync_espidf.Mqtt.{
  Ctx, Event, Publish, handle_event, handle_events, receive, topic_of, publish_of, deliver_on,
  deliver,
}
use edgesync_espidf.Mqtt.Acks.{Delivers, deliver_outcome}

abbrev ctx : Ctx
ctx = record {
  no_append_destination = false;
  qos = 1;
  retain = false;
  timeout_ms = 0;
  base_topic = 116 ∷ [];
  ack_queue = some 41;
}

abbrev message : Message
message = record zero_message { destination = 97 ∷ []; payload_len = 1; payload = some (9 ∷ []) }

abbrev answers : Publish → ℕ
answers p = 42

abbrev waiting : List Event
waiting = Event.connected ∷ Event.published 42 ∷ []

deliver_outcome_example :
    ((topic_of ctx message ≡ none)
      × (deliver answers [] waiting ctx message ≡ (none, DeliveryResult.permanent_failure, 0)))
    ⊎ ((topic : List ℕ) × (topic_of ctx message ≡ some topic)
        × Delivers answers [] waiting
            (publish_of ctx message topic)
            (deliver answers [] waiting ctx message))
deliver_outcome_example = deliver_outcome answers [] waiting ctx message

-- The acknowledgement of an earlier publish that arrives late ends the wait.
late_ack :
    (deliver answers [] (Event.published 41 ∷ Event.published 42 ∷ []) ctx message).1
    ≡ DeliveryResult.retryable_failure
unfolding deliver topic_of deliver_on handle_events receive handle_event
late_ack = refl
