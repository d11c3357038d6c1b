-- ===== src/Worker/AtLeastOnce.antt =====
-- At-least-once delivery: publishing and the worker's rounds, in any order, over any backend that
-- keeps its contract.
use edgesync_espidf.Prelude.{
  ℕ, ◌≡◌, refl, ◌∙◌, ◌⊎◌, inl, inr, Bool, true, false, List, [], ◌∷◌, ◌++◌, if◌then◌else◌,
}
use edgesync_espidf.Types.{EspErr, EventId, DeliveryResult, Message}
use edgesync_espidf.Retry.{should_retry}
use edgesync_espidf.Queue.{
  StorageOps, Effect, Queue, publish, claim_next, mark_delivered, schedule_retry,
}
use edgesync_espidf.Queue.Contract.{KeepsMessages}
use edgesync_espidf.Queue.NoLoss.{
  Notified, Notified-left, Notified-right, fire-Notified, publish_keeps,
}
use edgesync_espidf.Worker.{
  Worker, give_up, handle_retryable_failure, handle_delivery_result, after_claim, worker_round,
}

-- What happens to the queue: the application publishes, or the worker task claims, or it handles the
-- outcome of a claim with what the transport, the clock and the random source give it. A round of worker_task is
-- the last two; publishes of other tasks may stand between them.
pub data Step : Type 0 where
  publishes : Message → Step
  claims : ℕ → Step
  settles : (Message → DeliveryResult) → ℕ → ℕ → EspErr → Message → Step

module _ {S : Type 0} (ops : StorageOps S) where
  pub run_step : Worker → Step → Queue S → List Effect × Queue S
  run_step w (Step.publishes m) q = ((publish ops q m).0.1, (publish ops q m).1)
  run_step w (Step.claims claim_us) q = ([], (claim_next ops claim_us q).1)
  run_step w (Step.settles deliver now_us random_u32 err msg) q = (
    (after_claim ops w deliver now_us random_u32 err msg q).0.0,
    (after_claim ops w deliver now_us random_u32 err msg q).1,
  )

  -- The effects of all steps, and the queue at their end.
  pub run : Worker → List Step → Queue S → List Effect × Queue S
  run w [] q = ([], q)
  run w (step ∷ steps) q =
      let (effects, q') = run_step w step q in
      let (rest, q'') = run w steps q' in (effects ++ rest, q'')

module _ {S : Type 0} (ops : StorageOps S) (holds : S → ℕ → Type 0)
    (k : KeepsMessages ops holds) where
  give_up_keeps :
      (w : Worker) (msg : Message) (q : Queue S) (i : ℕ)
      → holds q.storage i
      → holds (give_up ops w msg q).1.storage i
  unfolding give_up schedule_retry
  give_up_keeps w msg q i h = k.retry_keeps msg.id 0 true EspErr.transport q.storage i h

  holds-if :
      (b : Bool) (r r' : List Effect × Queue S) (i : ℕ)
      → holds r.1.storage i
      → holds r'.1.storage i
      → holds (if b then r else r').1.storage i
  holds-if true r r' i h h' = h
  holds-if false r r' i h h' = h'

  handle_retryable_failure_keeps :
      (w : Worker) (msg : Message) (now_us random_u32 : ℕ) (q : Queue S) (i : ℕ)
      → holds q.storage i
      → holds (handle_retryable_failure ops w msg now_us random_u32 q).1.storage i
  unfolding handle_retryable_failure schedule_retry
  handle_retryable_failure_keeps w msg now_us random_u32 q i h =
      holds-if (should_retry w.retry_cfg msg.attempt_count) _ _ i
        (k.retry_keeps msg.id _ false EspErr.transport q.storage i h) (give_up_keeps w msg q i h)

  -- What is left of a message that was held: it is held, or it was the message that the transport
  -- took with success, and the event for it was fired.
  abbrev pub Settled : (Message → DeliveryResult) → Message → ℕ → List Effect × Queue S → Type 0
  Settled deliver msg i r =
      holds r.1.storage i
      ⊎ ((i ≡ msg.id) × (deliver msg ≡ DeliveryResult.success) × Notified EventId.delivered i r.0)

  handle_delivery_result_keeps :
      (w : Worker) (deliver : Message → DeliveryResult) (msg : Message) (result : DeliveryResult)
      (now_us random_u32 : ℕ) (q : Queue S) (i : ℕ)
      → w.has_event_cb ≡ true
      → deliver msg ≡ result
      → holds q.storage i
      → Settled deliver msg i (handle_delivery_result ops w msg result now_us random_u32 q)
  unfolding handle_delivery_result mark_delivered
  handle_delivery_result_keeps w deliver msg DeliveryResult.success now_us random_u32 q i on e h =
      elim (k.delivered_keeps msg.id q.storage i h) [
        | inl held ↦ inl held
        | inr same ↦ inr (same, e, rw same (fire-Notified w.has_event_cb EventId.delivered msg on))
      ]
  handle_delivery_result_keeps w deliver msg DeliveryResult.permanent_failure now_us random_u32 q i
        on e h =
      inl (give_up_keeps w msg q i h)
  handle_delivery_result_keeps w deliver msg DeliveryResult.retryable_failure now_us random_u32 q i
        on e h =
      inl (handle_retryable_failure_keeps w msg now_us random_u32 q i h)

  after_claim_keeps :
      (w : Worker) (deliver : Message → DeliveryResult) (now_us random_u32 : ℕ) (err : EspErr)
      (msg : Message) (q : Queue S) (i : ℕ)
      → w.has_event_cb ≡ true
      → holds q.storage i
      → Settled deliver msg i (
        (after_claim ops w deliver now_us random_u32 err msg q).0.0,
        (after_claim ops w deliver now_us random_u32 err msg q).1,
      )
  unfolding after_claim
  after_claim_keeps w deliver now_us random_u32 EspErr.esp_ok msg q i on h =
      handle_delivery_result_keeps w deliver msg (deliver msg) now_us random_u32 q i on refl h
  after_claim_keeps w deliver now_us random_u32 err msg q i on h = inl h

  -- Over a backend that keeps its contract, with an event callback set: a message that the queue held
  -- before a round of worker_task is held after it, or it is the message that the round claimed, the
  -- transport's answer to it was success, and a DELIVERED event with its id was fired. So a
  -- failed delivery, a failed claim, or a failed call of the backend loses nothing.
  pub worker_round_keeps :
      (w : Worker) (deliver : Message → DeliveryResult) (claim_us now_us random_u32 : ℕ)
      (q : Queue S) (i : ℕ)
      → w.has_event_cb ≡ true
      → holds q.storage i
      → holds (worker_round ops w deliver claim_us now_us random_u32 q).1.storage i
        ⊎ ((i ≡ (ops.claim_next claim_us q.storage).0.1.id)
            × (deliver (ops.claim_next claim_us q.storage).0.1 ≡ DeliveryResult.success)
            × Notified EventId.delivered i
                (worker_round ops w deliver claim_us now_us random_u32 q).0.0)
  unfolding worker_round claim_next
  worker_round_keeps w deliver claim_us now_us random_u32 q i on h =
      after_claim_keeps w deliver now_us random_u32 (ops.claim_next claim_us q.storage).0.0
        (ops.claim_next claim_us q.storage).0.1 _ i on (k.claim_keeps claim_us q.storage i h)

  -- No step takes the event callback away.
  callback-if :
      (b : Bool) (r r' : List Effect × Queue S) (on : Bool)
      → r.1.has_event_cb ≡ on
      → r'.1.has_event_cb ≡ on
      → (if b then r else r').1.has_event_cb ≡ on
  callback-if true r r' on h h' = h
  callback-if false r r' on h h' = h'

  callback-handle_delivery_result :
      (w : Worker) (msg : Message) (result : DeliveryResult) (now_us random_u32 : ℕ) (q : Queue S)
      → (handle_delivery_result ops w msg result now_us random_u32 q).1.has_event_cb
        ≡ q.has_event_cb
  unfolding handle_delivery_result mark_delivered give_up schedule_retry handle_retryable_failure
  callback-handle_delivery_result w msg DeliveryResult.success now_us random_u32 q = refl
  callback-handle_delivery_result w msg DeliveryResult.permanent_failure now_us random_u32 q = refl
  callback-handle_delivery_result w msg DeliveryResult.retryable_failure now_us random_u32 q =
      callback-if (should_retry w.retry_cfg msg.attempt_count) _ _ q.has_event_cb refl refl

  callback-after_claim :
      (w : Worker) (deliver : Message → DeliveryResult) (now_us random_u32 : ℕ) (err : EspErr)
      (msg : Message) (q : Queue S)
      → (after_claim ops w deliver now_us random_u32 err msg q).1.has_event_cb ≡ q.has_event_cb
  unfolding after_claim
  callback-after_claim w deliver now_us random_u32 EspErr.esp_ok msg q =
      callback-handle_delivery_result w msg (deliver msg) now_us random_u32 q
  callback-after_claim w deliver now_us random_u32 err msg q = refl

  callback-run_step :
      (w : Worker) (step : Step) (q : Queue S)
      → (run_step ops w step q).1.has_event_cb ≡ q.has_event_cb
  unfolding run_step publish claim_next
  callback-run_step w (Step.publishes m) q = refl
  callback-run_step w (Step.claims claim_us) q = refl
  callback-run_step w (Step.settles deliver now_us random_u32 err msg) q =
      callback-after_claim w deliver now_us random_u32 err msg q

  -- The ways in which a message may end.
  abbrev pub Accounted : ℕ → List Effect × Queue S → Type 0
  Accounted i r =
      holds r.1.storage i ⊎ Notified EventId.delivered i r.0 ⊎ Notified EventId.full i r.0

  run_step_keeps :
      (w : Worker) (step : Step) (q : Queue S) (i : ℕ)
      → w.has_event_cb ≡ true
      → q.has_event_cb ≡ true
      → holds q.storage i
      → Accounted i (run_step ops w step q)
  unfolding run_step claim_next
  run_step_keeps w (Step.publishes m) q i on on' h = elim (publish_keeps ops holds k q m i on' h) [
    | inl held ↦ inl held
    | inr told ↦ inr (inr told)
  ]
  run_step_keeps w (Step.claims claim_us) q i on on' h = inl (k.claim_keeps claim_us q.storage i h)
  run_step_keeps w (Step.settles deliver now_us random_u32 err msg) q i on on' h =
      elim (after_claim_keeps w deliver now_us random_u32 err msg q i on h) [
        | inl held ↦ inl held
        | inr (same, ok, told) ↦ inr (inl told)
      ]

  -- Over a backend that keeps its contract, with the event callback set: after any sequence of publishes,
  -- claims and handled outcomes of claims, whatever the transport answers and whichever calls of the backend fail, a
  -- message that the queue held at the start is held still, or a DELIVERED event or a QUEUE_FULL event with its
  -- id was fired on the way.
  pub run_keeps :
      (w : Worker) (steps : List Step) (q : Queue S) (i : ℕ)
      → w.has_event_cb ≡ true
      → q.has_event_cb ≡ true
      → holds q.storage i
      → Accounted i (run ops w steps q)
  unfolding run
  run_keeps w [] q i on on' h = inl h
  run_keeps w (step ∷ steps) q i on on' h =
      let effects = (run_step ops w step q).0 in
      let q' = (run_step ops w step q).1 in
      let rest = (run ops w steps q').0 in
      elim (run_step_keeps w step q i on on' h) [
        | inl held ↦ elim (run_keeps w steps q' i on (callback-run_step w step q ∙ on') held) [
          | inl still ↦ inl still
          | inr (inl told) ↦ inr (inl (Notified-right EventId.delivered i effects rest told))
          | inr (inr told) ↦ inr (inr (Notified-right EventId.full i effects rest told))
        ]
        | inr (inl told) ↦ inr (inl (Notified-left EventId.delivered i effects rest told))
        | inr (inr told) ↦ inr (inr (Notified-left EventId.full i effects rest told))
      ]
