-- ===== src/Queue/Contract.antt =====
-- What the queue and the worker rely on of a storage backend: which messages it holds, and that an
-- enqueue which succeeds adds one, and only the operations for it take one away.
use edgesync_espidf.Prelude.{ℕ, ◌≡◌, ◌⊎◌, Bool}
use edgesync_espidf.Types.{EspErr, Message, OverflowPolicy}
use edgesync_espidf.Queue.{StorageOps}

module _ {S : Type 0} (ops : StorageOps S) (holds : S → ℕ → Type 0) where
  -- `holds s i`: the backend in the state `s` has the message with the id `i`.
  pub record KeepsMessages : Type 0 where
    pub enqueue_keeps : (m : Message) (s : S) (i : ℕ) → holds s i → holds (ops.enqueue m s).1 i
    pub enqueue_adds :
        (m : Message) (s : S) → (ops.enqueue m s).0 ≡ EspErr.esp_ok → holds (ops.enqueue m s).1 m.id
    pub claim_keeps : (t : ℕ) (s : S) (i : ℕ) → holds s i → holds (ops.claim_next t s).1 i
    pub retry_keeps :
        (id t : ℕ) (dead : Bool) (e : EspErr) (s : S) (i : ℕ)
        → holds s i
        → holds (ops.schedule_retry id t dead e s).1 i
    pub find_keeps :
        (p : OverflowPolicy) (s : S) (i : ℕ) → holds s i → holds (ops.find_drop_candidate p s).1 i
    pub delivered_keeps :
        (id : ℕ) (s : S) (i : ℕ) → holds s i → holds (ops.mark_delivered id s).1 i ⊎ (i ≡ id)
    pub remove_keeps : (id : ℕ) (s : S) (i : ℕ) → holds s i → holds (ops.remove id s).1 i ⊎ (i ≡ id)
