-- ===== src/Queue.antt =====
-- components/edgesync/src/edgesync_queue.c: the queue over a storage backend. The queue's lock is held
-- over every call of the backend, so that an operation is one step; the callbacks run behind it.
pub mod Contract
pub mod NoLoss
use edgesync_espidf.Prelude.{
  ℕ, ◌+◌, Bool, true, false, ◌&&◌, not, Option, none, some, List, [], ◌∷◌, ◌++◌, if◌then◌else◌, u64,
}
use edgesync_espidf.Types.{
  EspErr, EventId, Message, OverflowPolicy, Stats, id_invalid, zero_message,
}

-- edgesync_storage_ops_t, for a backend whose context has the type `S`. The values that a call
-- leaves behind its pointers stand beside its code.
pub record StorageOps (S : Type 0) : Type 0 where
  pub init : S → EspErr × S
  pub recover : S → EspErr × S
  pub enqueue : Message → S → EspErr × S
  pub claim_next : ℕ → S → (EspErr × Message) × S
  pub mark_delivered : ℕ → S → EspErr × S
  pub schedule_retry : ℕ → ℕ → Bool → EspErr → S → EspErr × S
  pub remove : ℕ → S → EspErr × S
  pub find_drop_candidate : OverflowPolicy → S → (EspErr × ℕ) × S
  pub get_stats : Stats → S → (EspErr × Stats) × S

-- What the outside sees: a call of the application's event callback, and of the worker's wake callback.
pub data Effect : Type 0 where
  fired : EventId → Message → Effect
  woken : ℕ → Effect

-- edgesync_queue_t. Of the event callback only whether it is set is kept, and of the wake callback
-- its context.
pub record Queue (S : Type 0) : Type 0 where
  pub storage : S
  pub overflow_policy : OverflowPolicy
  pub has_event_cb : Bool
  pub wake_cb : Option ℕ
  pub successful_deliveries : ℕ
  pub failed_deliveries : ℕ

-- edgesync_events_fire
unfoldable pub fire : Bool → EventId → Message → List Effect
fire has_event_cb event message = if has_event_cb then fired event message ∷ [] else []

abbrev pub is_ok : EspErr → Bool
is_ok EspErr.esp_ok = true
is_ok err = false

abbrev pub is_full : EspErr → Bool
is_full EspErr.queue_full = true
is_full err = false

abbrev pub may_drop : OverflowPolicy → Bool
may_drop OverflowPolicy.reject_new = false
may_drop policy = true

-- `wake_cb(wake_ctx)`, if it is set.
abbrev pub wake : Option ℕ → List Effect
wake none = []
wake (some ctx) = woken ctx ∷ []

-- The message of the event for a dropped message: only its id is set.
abbrev pub dropped_message : ℕ → Message
dropped_message dropped_id = record zero_message { id = dropped_id }

-- The result of the critical section of edgesync_queue_publish: `err`, `dropped` with `dropped_id`,
-- and the backend.
pub record Stored (S : Type 0) : Type 0 where
  pub err : EspErr
  pub dropped : Option ℕ
  pub storage : S

-- `memset(stats, 0, sizeof(*stats))`
abbrev pub zero_stats : Stats
zero_stats = record {
  pending_messages = 0;
  in_flight_messages = 0;
  retrying_messages = 0;
  dead_letter_messages = 0;
  delivered_awaiting_gc = 0;
  bytes_queued = 0;
  successful_deliveries = 0;
  failed_deliveries = 0;
  queue_capacity = 0;
  storage_bytes_used = 0;
  storage_bytes_capacity = 0;
  compactions_total = 0;
}

module _ {S : Type 0} (ops : StorageOps S) where
  -- edgesync_queue_recover
  unfoldable pub recover : Queue S → EspErr × Queue S
  recover q =
      let (err, s) = ops.init q.storage in
      if is_ok err
      then (let (err', s') = ops.recover s in (err', record q { storage = s' }))
      else (err, record q { storage = s })

  -- The attempt to make room: the candidate is removed, and the message enqueued again.
  unfoldable pub make_room : Queue S → Message → S → Stored S
  make_room q message s =
      let ((found, dropped_id), s₁) = ops.find_drop_candidate q.overflow_policy s in
      if is_ok found
      then (let (ignored, s₂) = ops.remove dropped_id s₁ in
          let (err, s₃) = ops.enqueue message s₂ in
          record { err = err; dropped = some dropped_id; storage = s₃ })
      else record { err = EspErr.queue_full; dropped = none; storage = s₁ }

  -- edgesync_queue_publish under the lock.
  unfoldable pub store_message : Queue S → Message → Stored S
  store_message q message =
      let (err, s) = ops.enqueue message q.storage in
      if is_full err && may_drop q.overflow_policy
      then make_room q message s
      else record { err = err; dropped = none; storage = s }

  -- The callbacks behind the lock.
  unfoldable pub publish_effects : Queue S → Message → Stored S → List Effect
  publish_effects q message r =
      elim r.dropped [
        | none ↦ []
        | some dropped_id ↦ fire q.has_event_cb EventId.full (dropped_message dropped_id)
      ]
      ++ (if is_ok r.err
          then fire q.has_event_cb EventId.queued message ++ wake q.wake_cb
          else if is_full r.err
          then fire q.has_event_cb EventId.full message
          else [])

  -- edgesync_queue_publish
  unfoldable pub publish : Queue S → Message → (EspErr × List Effect) × Queue S
  publish q message =
      let r = store_message q message in
      ((r.err, publish_effects q message r), record q { storage = r.storage })

  -- edgesync_queue_claim_next
  unfoldable pub claim_next : ℕ → Queue S → (EspErr × Message) × Queue S
  claim_next now_us q =
      let (result, s) = ops.claim_next now_us q.storage in (result, record q { storage = s })

  -- edgesync_queue_mark_delivered
  unfoldable pub mark_delivered : ℕ → Queue S → EspErr × Queue S
  mark_delivered id q =
      let (err, s) = ops.mark_delivered id q.storage in
      (
        err,
        record q {
          storage = s;
          successful_deliveries =
              if is_ok err then u64 (q.successful_deliveries + 1) else q.successful_deliveries;
        },
      )

  -- edgesync_queue_schedule_retry
  unfoldable pub schedule_retry : ℕ → ℕ → Bool → EspErr → Queue S → EspErr × Queue S
  schedule_retry id next_retry_at_us dead_letter last_error q =
      let (err, s) = ops.schedule_retry id next_retry_at_us dead_letter last_error q.storage in
      (
        err,
        record q {
          storage = s;
          failed_deliveries =
              if is_ok err then u64 (q.failed_deliveries + 1) else q.failed_deliveries;
        },
      )

  -- edgesync_queue_get_stats, for `stats` cleared by its memset.
  unfoldable pub get_stats : Queue S → (EspErr × Stats) × Queue S
  get_stats q =
      let ((err, stats), s) = ops.get_stats zero_stats q.storage in
      (
        (
          err,
          record stats {
            successful_deliveries = q.successful_deliveries;
            failed_deliveries = q.failed_deliveries;
          },
        ),
        record q { storage = s },
      )

  -- edgesync_queue_set_wake_cb; `none` is NULL.
  unfoldable pub set_wake_cb : Option ℕ → Queue S → Queue S
  set_wake_cb wake_cb q = record q { wake_cb = wake_cb }
