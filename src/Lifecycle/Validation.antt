-- ===== src/Lifecycle/Validation.antt =====
-- Which messages edgesync_publish lets through to the queue.
use mathlib.Core.Path.{subst}
use edgesync_espidf.Prelude.{
  ℕ, ◌^◌, ◌≤◌, ◌<◌, ◌≡◌, refl, sym, ◌⊎◌, inl, inr, Bool, Bool-cases, true, false, not, Option, none,
  some, List, [], ◌∷◌, length, if◌then◌else◌, arith, u32,
}
use edgesync_espidf.Types.{EspErr, Message, state_pending}
use edgesync_espidf.Format.RoundTrip.{IsReadable}
use edgesync_espidf.Format.Size.{max_body_len}
use edgesync_espidf.Queue.{StorageOps, Effect}
use edgesync_espidf.Flashq.Enqueue.{IsMessage}
use edgesync_espidf.Lifecycle.{
  Handle, PublishOptions, chosen_id, chosen_priority, message_of, check_arguments, queue_message,
  publish_checked, publish_handle,
}

-- The options fit their types: a uint64_t id, and LOW, NORMAL or HIGH.
abbrev pub IsFitOptions : Option PublishOptions → Type 0
IsFitOptions none = Unit
IsFitOptions (some options) = (options.message_id < 2 ^ 64) × (options.priority ≤ 2)

-- The caller's id, where it gives one that is not 0, and otherwise the generated one; and the caller's
-- priority, NORMAL without options.
abbrev pub HasOptions : Option PublishOptions → ℕ → Message → Type 0
HasOptions none generated m = (m.id ≡ generated) × (m.priority ≡ 1)
HasOptions (some options) generated m =
    (((options.message_id ≡ 0) × (m.id ≡ generated))
      ⊎ ((1 ≤ options.message_id) × (m.id ≡ options.message_id)))
    × (m.priority ≡ options.priority)

-- The message that the arguments ask for: PENDING, not yet attempted, and one that every backend can
-- store.
pub record IsAskedFor (destination : List ℕ) (bytes : Option (List ℕ)) (data_len : ℕ)
    (options : Option PublishOptions) (generated now_us : ℕ) (m : Message) : Type 0 where
  pub storable : IsMessage m
  pub priority_fits : m.priority < 2 ^ 8
  pub destination_is : m.destination ≡ destination
  pub payload_is : m.payload ≡ bytes
  pub payload_len_is : m.payload_len ≡ data_len
  pub options_are : HasOptions options generated m
  pub created_at_us_is : m.created_at_us ≡ now_us
  pub state_is : m.state ≡ state_pending
  pub attempt_count_is : m.attempt_count ≡ 0
  pub last_attempt_at_us_is : m.last_attempt_at_us ≡ 0
  pub next_retry_at_us_is : m.next_retry_at_us ≡ 0
  pub last_error_is : m.last_error ≡ 0

-- Data that are announced but not there.
abbrev pub IsMissing : Option (List ℕ) → ℕ → Type 0
IsMissing bytes data_len = (bytes ≡ none) × (1 ≤ data_len)

-- A destination of no byte or of more than 63, or data beyond the handle's limit.
abbrev pub IsTooLarge : ℕ → List ℕ → ℕ → Type 0
IsTooLarge max_message_size destination data_len =
    (destination ≡ []) ⊎ (63 < length destination) ⊎ (max_message_size < data_len)

HasOptions-message_of :
    (destination : List ℕ) (bytes : Option (List ℕ)) (data_len : ℕ)
    (options : Option PublishOptions) (generated now_us : ℕ)
    → HasOptions options generated (message_of destination bytes data_len options generated now_us)
unfolding message_of
HasOptions-message_of destination bytes data_len none generated now_us = (refl, refl)
HasOptions-message_of destination bytes data_len (some options) generated now_us =
    (ground arith, refl)

priority-lt :
    (options : Option PublishOptions) → IsFitOptions options → chosen_priority options < 2 ^ 8
priority-lt none h = omega arith
priority-lt (some options) h = omega arith

chosen_id-lt :
    (options : Option PublishOptions) (generated : ℕ)
    → IsFitOptions options
    → generated < 2 ^ 64
    → chosen_id options generated < 2 ^ 64
chosen_id-lt none generated h g = g
chosen_id-lt (some options) generated h g = ground arith

IsAskedFor-message_of :
    (destination : List ℕ) (bytes : Option (List ℕ)) (data_len : ℕ)
    (options : Option PublishOptions) (generated now_us : ℕ)
    → data_len ≤ max_body_len
    → generated < 2 ^ 64
    → now_us < 2 ^ 64
    → IsFitOptions options
    → IsReadable data_len bytes
    → IsAskedFor destination bytes data_len options generated now_us
        (message_of destination bytes data_len options generated now_us)
unfolding message_of
IsAskedFor-message_of destination bytes data_len options generated now_us small gen now opt
      readable =
    let len : u32 data_len ≡ data_len = omega (arith, small) in
    record {
      storable = record {
        id_fits = chosen_id-lt options generated opt gen;
        created_fits = now;
        payload_len_fits = omega (arith, small, len);
        payload_there = rw len readable;
      };
      priority_fits = priority-lt options opt;
      destination_is = refl;
      payload_is = refl;
      payload_len_is = len;
      options_are = HasOptions-message_of destination bytes data_len options generated now_us;
      created_at_us_is = refl;
      state_is = refl;
      attempt_count_is = refl;
      last_attempt_at_us_is = refl;
      next_retry_at_us_is = refl;
      last_error_is = refl;
    }

-- The checks, in their order.
check_arguments-cases :
    (max_message_size : ℕ) (destination : List ℕ) (bytes : Option (List ℕ)) (data_len : ℕ)
    → (IsMissing bytes data_len
        × (check_arguments max_message_size destination bytes data_len ≡ some EspErr.invalid_arg))
      ⊎ (¬ (IsMissing bytes data_len)
          × IsTooLarge max_message_size destination data_len
          × (check_arguments max_message_size destination bytes data_len
              ≡ some EspErr.message_too_large))
      ⊎ (¬ (IsMissing bytes data_len)
          × ¬ (IsTooLarge max_message_size destination data_len)
          × (check_arguments max_message_size destination bytes data_len ≡ none))
unfolding check_arguments
check_arguments-cases max_message_size [] none data_len = ground arith
check_arguments-cases max_message_size (x ∷ xs) none data_len = ground arith
check_arguments-cases max_message_size [] (some b) data_len = ground arith
check_arguments-cases max_message_size (x ∷ xs) (some b) data_len = ground arith

module _ {S : Type 0} (ops : StorageOps S) (h : Handle S) (destination : Option (List ℕ))
    (bytes : Option (List ℕ)) (data_len : ℕ) (options : Option PublishOptions)
    (generated now_us : ℕ) where
  -- Nothing is fired, and the handle is as it was.
  abbrev pub Refuses : EspErr → (EspErr × List Effect) × Handle S → Type 0
  Refuses e r = r ≡ ((e, []), h)

  -- What the caller gets, by the first condition that holds.
  abbrev pub IsAnswered : (EspErr × List Effect) × Handle S → Type 0
  IsAnswered r =
      ((h.started ≡ false) × Refuses EspErr.not_initialized r)
      ⊎ ((h.started ≡ true)
          × ((destination ≡ none) ⊎ IsMissing bytes data_len)
          × Refuses EspErr.invalid_arg r)
      ⊎ ((d : List ℕ) × (h.started ≡ true)
          × (destination ≡ some d)
          × ¬ (IsMissing bytes data_len)
          × IsTooLarge h.max_message_size d data_len
          × Refuses EspErr.message_too_large r)
      ⊎ ((d : List ℕ) × (m : Message) × (h.started ≡ true)
          × (destination ≡ some d)
          × ¬ (IsMissing bytes data_len)
          × ¬ (IsTooLarge h.max_message_size d data_len)
          × IsAskedFor d bytes data_len options generated now_us m
          × (r ≡ queue_message ops h m))

module _ {S : Type 0} (ops : StorageOps S) (h : Handle S) (bytes : Option (List ℕ)) (data_len : ℕ)
    (options : Option PublishOptions) (generated now_us : ℕ)
    (lim : h.max_message_size ≤ max_body_len) (gen : generated < 2 ^ 64) (now : now_us < 2 ^ 64)
    (opt : IsFitOptions options) (readable : IsReadable data_len bytes) where
  publish_checked-IsAnswered :
      (d : List ℕ)
      → h.started ≡ true
      → IsAnswered ops h
          (some d)
          bytes
          data_len
          options
          generated
          now_us
          (publish_checked ops h d bytes data_len options generated now_us)
  unfolding publish_checked
  publish_checked-IsAnswered d on =
      elim (check_arguments-cases h.max_message_size d bytes data_len) [
        | inl (missing, e) ↦ inr (inl (on, inr missing, rw (e, publish_checked) refl))
        | inr (inl (there, large, e)) ↦
            inr (inr (inl (d, on, refl, there, large, rw (e, publish_checked) refl)))
        | inr (inr (there, small, e)) ↦ inr (
            inr (
              inr (
                d,
                message_of d bytes data_len options generated now_us,
                on,
                refl,
                there,
                small,
                IsAskedFor-message_of d bytes data_len options generated now_us
                    (data_len-le h.max_message_size d data_len small lim) gen now opt readable,
                rw (e, publish_checked) refl,
              )))
      ]
    where
      data_len-le :
          (max_message_size : ℕ) (d : List ℕ) (data_len : ℕ)
          → ¬ (IsTooLarge max_message_size d data_len)
          → max_message_size ≤ max_body_len
          → data_len ≤ max_body_len
      data_len-le max_message_size d data_len small lim = ground arith

  -- For a handle whose largest message is within max_body_len, arguments that fit their types, and
  -- data of at least data_len bytes where it is not NULL, edgesync_publish returns NOT_INITIALIZED
  -- exactly if the handle is not started; otherwise INVALID_ARG exactly if the destination is NULL,
  -- or the data is with a length that is not 0; otherwise MESSAGE_TOO_LARGE exactly if the
  -- destination is empty or longer than 63 bytes, or the data exceeds the handle's limit. In these
  -- cases it fires nothing and leaves the handle alone. Otherwise it hands the queue a PENDING
  -- message with the caller's destination, data, length and time, with the caller's id, or the
  -- generated one where the caller gives none or 0, and the caller's priority, or NORMAL without
  -- options; all its fields fit the record format.
  pub publish_handle_outcome :
      (destination : Option (List ℕ))
      → IsAnswered ops h destination bytes data_len options generated now_us
          (publish_handle ops h destination bytes data_len options generated now_us)
  unfolding publish_handle
  publish_handle_outcome destination = elim (Bool-cases h.started) [
    | inr off ↦ inl (off, rw (off, publish_handle) refl)
    | inl on ↦ started_outcome destination on
  ]
    where
      started_outcome :
          (destination : Option (List ℕ))
          → h.started ≡ true
          → IsAnswered ops h destination bytes data_len options generated now_us
              (publish_handle ops h destination bytes data_len options generated now_us)
      started_outcome none on = inr (inl (on, inl refl, rw (on, publish_handle) refl))
      started_outcome (some d) on =
          subst
            (λ (b : Bool). IsAnswered ops h (some d) bytes data_len options generated now_us (
              if not b
              then ((EspErr.not_initialized, []), h)
              else publish_checked ops h d bytes data_len options generated now_us))
            (sym on) (publish_checked-IsAnswered d on)
