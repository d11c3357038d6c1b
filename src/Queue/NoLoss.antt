-- ===== src/Queue/NoLoss.antt =====
-- The overflow handling of edgesync_queue.c over any backend that keeps its contract.
use edgesync_espidf.Prelude.{
  ℕ, ◌≡◌, refl, sym, ap, ◌⊎◌, inl, inr, Bool, true, false, ◌&&◌, some, List, [], ◌∷◌, ◌++◌,
  if◌then◌else◌,
}
use edgesync_espidf.Types.{EspErr, EventId, Message}
use edgesync_espidf.Action.Keeps.{IsFailure, IsFailure-ne, IsFailure-cases}
use edgesync_espidf.Queue.{
  StorageOps, Effect, Queue, Stored, fire, is_ok, is_full, may_drop, dropped_message, make_room,
  store_message, publish_effects, publish,
}
use edgesync_espidf.Queue.Contract.{KeepsMessages}

-- Whether the effects have an event of a kind for a message with an id.
unfoldable pub Notified : EventId → ℕ → List Effect → Type 0
Notified event id [] = ⊥
Notified event id (Effect.fired e m ∷ rest) = ((e ≡ event) × (m.id ≡ id)) ⊎ Notified event id rest
Notified event id (Effect.woken ctx ∷ rest) = Notified event id rest

module _ {S : Type 0} (ops : StorageOps S) (holds : S → ℕ → Type 0)
    (k : KeepsMessages ops holds) where
  -- A message that the backend held is held still, or it is the one that was dropped.
  abbrev Kept : S → ℕ → Stored S → Type 0
  Kept s i r = holds r.storage i ⊎ (r.dropped ≡ some i)

  Kept-if :
      (b : Bool) (s : S) (i : ℕ) (r r' : Stored S)
      → Kept s i r
      → Kept s i r'
      → Kept s i (if b then r else r')
  Kept-if true s i r r' p p' = p
  Kept-if false s i r r' p p' = p'

  make_room-Kept :
      (q : Queue S) (m : Message) (s : S) (i : ℕ) → holds s i → Kept s i (make_room ops q m s)
  unfolding make_room
  make_room-Kept q m s i h =
      let s₁ = (ops.find_drop_candidate q.overflow_policy s).1 in
      let d = (ops.find_drop_candidate q.overflow_policy s).0.1 in
      let found : holds s₁ i = k.find_keeps q.overflow_policy s i h in
      Kept-if (is_ok (ops.find_drop_candidate q.overflow_policy s).0.0) s i _ _
        (elim (k.remove_keeps d s₁ i found) [
          | inl left ↦ inl (k.enqueue_keeps m (ops.remove d s₁).1 i left)
          | inr same ↦ inr (ap some (sym same))
        ])
        (inl found)

  store_message-Kept :
      (q : Queue S) (m : Message) (i : ℕ)
      → holds q.storage i
      → Kept q.storage i (store_message ops q m)
  unfolding store_message
  store_message-Kept q m i h =
      let s = (ops.enqueue m q.storage).1 in
      let held : holds s i = k.enqueue_keeps m q.storage i h in
      Kept-if (is_full (ops.enqueue m q.storage).0 && may_drop q.overflow_policy) q.storage i _ _
        (make_room-Kept q m s i held) (inl held)

pub Notified-left :
    (event : EventId) (i : ℕ) (xs ys : List Effect)
    → Notified event i xs
    → Notified event i (xs ++ ys)
unfolding Notified
Notified-left event i [] ys h = absurd h
Notified-left event i (Effect.fired e m ∷ xs) ys h = elim h [
  | inl here ↦ inl here
  | inr later ↦ inr (Notified-left event i xs ys later)
]
Notified-left event i (Effect.woken ctx ∷ xs) ys h = Notified-left event i xs ys h

pub Notified-right :
    (event : EventId) (i : ℕ) (xs ys : List Effect)
    → Notified event i ys
    → Notified event i (xs ++ ys)
unfolding Notified
Notified-right event i [] ys h = h
Notified-right event i (Effect.fired e m ∷ xs) ys h = inr (Notified-right event i xs ys h)
Notified-right event i (Effect.woken ctx ∷ xs) ys h = Notified-right event i xs ys h

pub fire-Notified :
    (b : Bool) (event : EventId) (m : Message) → b ≡ true → Notified event m.id (fire b event m)
unfolding Notified fire
fire-Notified b event m e = rw e (inl (refl, refl))

module _ {S : Type 0} (ops : StorageOps S) where
  -- The event of a dropped message.
  dropped_Notified :
      (q : Queue S) (m : Message) (r : Stored S) (i : ℕ)
      → q.has_event_cb ≡ true
      → r.dropped ≡ some i
      → Notified EventId.full i (publish_effects ops q m r)
  unfolding publish_effects
  dropped_Notified q m r i on e = rw e (
      Notified-left EventId.full i _ _
        (fire-Notified q.has_event_cb EventId.full (dropped_message i) on))

module _ {S : Type 0} (ops : StorageOps S) (holds : S → ℕ → Type 0)
    (k : KeepsMessages ops holds) where
  -- Over a backend that keeps its contract, with an event callback set: a message that the queue held
  -- before edgesync_queue_publish is held after it, or a QUEUE_FULL event with its id was fired,
  -- whatever the overflow policy is and whichever calls of the backend fail.
  pub publish_keeps :
      (q : Queue S) (m : Message) (i : ℕ)
      → q.has_event_cb ≡ true
      → holds q.storage i
      → holds (publish ops q m).1.storage i ⊎ Notified EventId.full i (publish ops q m).0.1
  unfolding publish
  publish_keeps q m i on h = elim (store_message-Kept ops holds k q m i h) [
    | inl held ↦ inl held
    | inr dropped ↦ inr (dropped_Notified ops q m (store_message ops q m) i on dropped)
  ]

module _ {S : Type 0} (ops : StorageOps S) (holds : S → ℕ → Type 0)
    (k : KeepsMessages ops holds) where
  -- A critical section that ends in ESP_OK has left the message in the backend.
  abbrev Adds : ℕ → Stored S → Type 0
  Adds id r = IsFailure r.err ⊎ holds r.storage id

  Adds-if :
      (b : Bool) (id : ℕ) (r r' : Stored S) → Adds id r → Adds id r' → Adds id (if b then r else r')
  Adds-if true id r r' p p' = p
  Adds-if false id r r' p p' = p'

  Adds-enqueue :
      (m : Message) (s : S) → IsFailure (ops.enqueue m s).0 ⊎ holds (ops.enqueue m s).1 m.id
  Adds-enqueue m s = elim (IsFailure-cases (ops.enqueue m s).0) [
    | inl ok ↦ inr (k.enqueue_adds m s ok)
    | inr failed ↦ inl failed
  ]

  store_message-Adds : (q : Queue S) (m : Message) → Adds m.id (store_message ops q m)
  unfolding store_message make_room
  store_message-Adds q m =
      let s = (ops.enqueue m q.storage).1 in
      let (searched, s₁) = ops.find_drop_candidate q.overflow_policy s in
      Adds-if (is_full (ops.enqueue m q.storage).0 && may_drop q.overflow_policy) m.id _ _
        (Adds-if (is_ok searched.0) m.id _ _ (Adds-enqueue m (ops.remove searched.1 s₁).1) (inl tt))
        (Adds-enqueue m q.storage)

  queued_Notified :
      (q : Queue S) (m : Message) (r : Stored S)
      → q.has_event_cb ≡ true
      → r.err ≡ EspErr.esp_ok
      → Notified EventId.queued m.id (publish_effects ops q m r)
  unfolding publish_effects
  queued_Notified q m r on e = rw e (
      Notified-right EventId.queued m.id _ _
        (Notified-left EventId.queued m.id _ _ (fire-Notified q.has_event_cb EventId.queued m on)))

  -- Over a backend that keeps its contract, with an event callback set: if edgesync_queue_publish
  -- returns ESP_OK, the backend then holds the message, and a QUEUED event with its id was fired, also where
  -- another message was dropped to make room.
  pub publish_accepts :
      (q : Queue S) (m : Message)
      → q.has_event_cb ≡ true
      → (publish ops q m).0.0 ≡ EspErr.esp_ok
      → holds (publish ops q m).1.storage m.id × Notified EventId.queued m.id (publish ops q m).0.1
  unfolding publish
  publish_accepts q m on e = (
    elim (store_message-Adds q m) [
      | inl failed ↦ absurd (IsFailure-ne _ failed e)
      | inr held ↦ held
    ],
    queued_Notified q m (store_message ops q m) on e,
  )
