-- ===== src/Mqtt/Acks.antt =====
-- Which acknowledgement counts for a publish.
use edgesync_espidf.Prelude.{
  ℕ, ◌≡◌, refl, sym, ◌∙◌, ap, ◌≢◌, ◌⊎◌, inl, inr, Bool, true, false, Bool-cases, Option,
  Option-cases, none, some, List, [], ◌∷◌, ◌==◌, ==→eq, eq→==,
}
use mathlib.Core.Option.{some-injective}
use edgesync_espidf.Types.{DeliveryResult, Message}
use edgesync_espidf.Mqtt.{
  Ctx, Event, Publish, handle_event, handle_events, receive, topic_of, publish_of, is_negative,
  result_of, deliver_on, deliver,
}

-- The ids of the PUBLISHED events, in order.
unfoldable pub acked : List Event → List ℕ
acked [] = []
acked (Event.published msg_id ∷ events) = msg_id ∷ acked events
acked (event ∷ events) = acked events

abbrev pub or_else : Option ℕ → Option ℕ → Option ℕ
or_else none o = o
or_else (some x) o = some x

-- The last of some ids, and the first.
unfoldable pub last_of : List ℕ → Option ℕ
last_of [] = none
last_of (x ∷ xs) = or_else (last_of xs) (some x)

abbrev pub first_of : List ℕ → Option ℕ
first_of [] = none
first_of (x ∷ xs) = some x

-- The acknowledgement that counts: the last that came before the wait, or else the first during it.
abbrev pub counting : List Event → List Event → Option ℕ
counting sending waiting = or_else (last_of (acked sending)) (first_of (acked waiting))

or_else_assoc : (a b c : Option ℕ) → or_else (or_else a b) c ≡ or_else a (or_else b c)
or_else_assoc none b c = refl
or_else_assoc (some x) b c = refl

handle_events-last :
    (events : List Event) (queue : Option ℕ)
    → handle_events events queue ≡ or_else (last_of (acked events)) queue
unfolding handle_events handle_event acked last_of
handle_events-last [] queue = refl
handle_events-last (Event.published msg_id ∷ events) queue =
    handle_events-last events (some msg_id)
    ∙ sym (or_else_assoc (last_of (acked events)) (some msg_id) queue)
handle_events-last (Event.connected ∷ events) queue = handle_events-last events queue
handle_events-last (Event.disconnected ∷ events) queue = handle_events-last events queue
handle_events-last (Event.failed ∷ events) queue = handle_events-last events queue
handle_events-last (Event.any_other ∷ events) queue = handle_events-last events queue

receive-first :
    (queue : Option ℕ) (events : List Event)
    → receive queue events ≡ or_else queue (first_of (acked events))
unfolding receive handle_event acked
receive-first (some x) events = refl
receive-first none [] = refl
receive-first none (Event.published msg_id ∷ events) = receive-first (some msg_id) events
receive-first none (Event.connected ∷ events) = receive-first none events
receive-first none (Event.disconnected ∷ events) = receive-first none events
receive-first none (Event.failed ∷ events) = receive-first none events
receive-first none (Event.any_other ∷ events) = receive-first none events

receive-counting :
    (sending waiting : List Event)
    → receive (handle_events sending none) waiting ≡ counting sending waiting
receive-counting sending waiting =
    receive-first (handle_events sending none) waiting
    ∙ ap (λ q. or_else q (first_of (acked waiting))) (handle_events-last sending none)
    ∙ or_else_assoc (last_of (acked sending)) none (first_of (acked waiting))

both : {b : Bool} → b ≡ true → b ≡ false → ⊥
both e e' = absurd (cc)

-- The result against the acknowledgement that counts.
result_of_cases :
    (o : Option ℕ) (id : ℕ)
    → ((result_of o id ≡ DeliveryResult.success) × (o ≡ some id))
      ⊎ ((result_of o id ≡ DeliveryResult.retryable_failure) × (o ≢ some id))
result_of_cases none id = inr (refl, λ e. absurd (cc))
result_of_cases (some x) id = elim (Bool-cases (x == id)) [
  | inl same ↦ inl (rw same refl, ap some (==→eq x id same))
  | inr other ↦ inr (rw other refl, λ e. absurd (both (eq→== x id (some-injective x id e)) other))
]

-- What op_deliver does with a topic.
abbrev pub Delivers :
    (Publish → ℕ) → List Event → List Event → Publish → Option Publish × DeliveryResult × ℕ → Type 0
Delivers send sending waiting p r =
    (r.0 ≡ some p)
    × (((r.1 ≡ DeliveryResult.success)
          × (is_negative (send p) ≡ false)
          × (counting sending waiting ≡ some (send p)))
        ⊎ ((r.1 ≡ DeliveryResult.retryable_failure)
            × ((is_negative (send p) ≡ true) ⊎ (counting sending waiting ≢ some (send p)))))

deliver_on-Delivers :
    (send : Publish → ℕ) (sending waiting : List Event) (ctx : Ctx) (m : Message) (topic : List ℕ)
    → Delivers send sending waiting
        (publish_of ctx m topic)
        (deliver_on send sending waiting ctx m topic)
unfolding deliver_on
deliver_on-Delivers send sending waiting ctx m topic =
    let id = send (publish_of ctx m topic) in
    elim (Bool-cases (is_negative id)) [
      | inl bad ↦ rw (bad, deliver_on) (refl, inr (refl, inl refl))
      | inr good ↦
          rw (good, deliver_on, receive-counting sending waiting)
            (
              refl,
              elim (result_of_cases (counting sending waiting) id) [
                | inl (e, same) ↦ inl (e, refl, same)
                | inr (e, other) ↦ inr (e, inr other)
              ],
            )
    ]

-- op_deliver on every branch, whatever the queue held before, and whatever the client does. Where the
-- topic is too long, the failure is permanent and nothing is published. Otherwise the message is published on
-- the topic, and the result is success exactly if the client gave the publish an id that is not negative
-- and the acknowledgement that counts has this id: the last one between the reset of the queue and the return of the
-- publish, or else the first one before the timeout. In every other case the failure is retryable.
pub deliver_outcome :
    (send : Publish → ℕ) (sending waiting : List Event) (ctx : Ctx) (m : Message)
    → ((topic_of ctx m ≡ none)
        × (deliver send sending waiting ctx m ≡ (none, DeliveryResult.permanent_failure, 0)))
      ⊎ ((topic : List ℕ) × (topic_of ctx m ≡ some topic)
          × Delivers send sending waiting
              (publish_of ctx m topic)
              (deliver send sending waiting ctx m))
unfolding deliver
deliver_outcome send sending waiting ctx m = elim (Option-cases (topic_of ctx m)) [
  | inl long ↦ inl (long, rw (long, deliver) refl)
  | inr (topic, fits) ↦
      inr (topic, fits, rw (fits, deliver) (deliver_on-Delivers send sending waiting ctx m topic))
]
