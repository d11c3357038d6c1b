-- ===== src/Nvs/Frame/Calls.antt =====
-- What each operation of the backend does to the ids, the slots and the marks of the slots.
use edgesync_espidf.Prelude.{
  ℕ, ◌+◌, ◌<◌, ◌≡◌, refl, Bool, true, some, [], ◌∷◌, ◌++◌, length, set, leb, leb→lt, u32,
}
use edgesync_espidf.Types.{
  EspErr, err_code, Message, OverflowPolicy, state_in_flight, state_dead_letter,
}
use edgesync_espidf.Format.{Header}
use edgesync_espidf.Action.{modify}
use edgesync_espidf.Action.Outcome.{Ends, Ends-bind, Ends-if, Ends-option}
use edgesync_espidf.Action.Keeps.{
  IsFailure, KeptIn, KeptIn-from, KeptIn-handle, KeptIn-option, Keeps-modify, keeps,
}
use edgesync_espidf.Flashq.Helpers.{find_entry, update_at}
use edgesync_espidf.Flashq.Select.{pick_claim, pick_drop}
use edgesync_espidf.Nvs.{Nvs, Ctx, NvsEntry, slot_of, free_entry_at, find_free_slot}
use edgesync_espidf.Nvs.Entries.{write_entry, read_and_verify, erase_blob}
use edgesync_espidf.Nvs.Ops.{
  new_slot_entry, retried, enqueue_at, enqueue, claim_broken, claim_read, claim_unread, claim_slot,
  claim_next, erase_entry, mark_delivered, retry_slot, schedule_retry, find_drop_candidate,
}
use edgesync_espidf.Nvs.Frame.{
  Frame, Frame-update_at, Frames, framed, write_entry-Frames, read_and_verify-Frames,
  discard-Frames, erase_blob-Frames,
}

module _ (N : Nvs) where
  open N use {Store}

  abbrev broken_fields : NvsEntry → NvsEntry
  broken_fields e = record e {
    last_error = err_code EspErr.storage_corrupt;
    state = state_dead_letter;
  }

  abbrev taken_fields : ℕ → NvsEntry → NvsEntry
  taken_fields now_us e = record e {
    attempt_count = u32 (e.attempt_count + 1);
    state = state_in_flight;
    last_attempt_at_us = now_us;
  }

  broken-Frames :
      (pos : ℕ)
      → Frames
          (modify {S = Ctx Store} (λ c. record c { index = update_at c.index pos broken_fields }))
  broken-Frames pos =
      Keeps-modify _ (λ c. Frame-update_at c pos broken_fields (λ e. refl) (λ e. refl))

  taken-Frames :
      (pos now_us : ℕ)
      → Frames (
          modify {S = Ctx Store}
            (λ c. record c { index = update_at c.index pos (taken_fields now_us) }))
  taken-Frames pos now_us =
      Keeps-modify _ (λ c. Frame-update_at c pos (taken_fields now_us) (λ e. refl) (λ e. refl))

  retried-Frames :
      (pos t : ℕ) (dead : Bool) (x : EspErr)
      → Frames (
          modify {S = Ctx Store}
            (λ c. record c { index = update_at c.index pos (retried t dead x) }))
  retried-Frames pos t dead x =
      Keeps-modify _ (λ c. Frame-update_at c pos (retried t dead x) (λ e. refl) (λ e. refl))

  claim_broken-Frames : (pos : ℕ) → Frames (claim_broken N pos)
  unfolding claim_broken
  claim_broken-Frames pos = search (keeps, framed, broken-Frames, discard-Frames) depth 10

  claim_read-Frames : (pos now_us : ℕ) (hdr : Header) → Frames (claim_read N pos now_us hdr)
  unfolding claim_read
  claim_read-Frames pos now_us hdr =
      search (keeps, framed, taken-Frames, write_entry-Frames) depth 10

  claim_unread-KeptIn :
      (pos : ℕ) (e : EspErr) (c c' : Ctx Store)
      → Frame c c'
      → IsFailure e
      → KeptIn Frame c (claim_unread N pos e c')
  unfolding claim_unread
  claim_unread-KeptIn pos EspErr.storage_corrupt c c' p h =
      KeptIn-from framed (claim_broken N pos) c c' p (claim_broken-Frames pos)
  claim_unread-KeptIn pos e c c' p h = (p, h)

  claim_slot-KeptIn :
      (now_us pos : ℕ) (best : NvsEntry) (c : Ctx Store)
      → KeptIn Frame c (claim_slot N now_us pos best c)
  unfolding claim_slot
  claim_slot-KeptIn now_us pos best c =
      KeptIn-handle Frame c (read_and_verify N (slot_of best) c) _ _
        ((read_and_verify-Frames N (slot_of best)).at c)
        (λ hdr c' p.
          KeptIn-from framed (claim_read N pos now_us hdr) c c' p
            (claim_read-Frames pos now_us hdr))
        (λ e c' p. claim_unread-KeptIn pos e c c' p.0 p.1)

  pub claim_next-Frames : (now_us : ℕ) → Frames (claim_next N now_us)
  unfolding claim_next
  claim_next-Frames now_us = record {
    at = λ c.
        KeptIn-option Frame c (pick_claim now_us c.index) _ _ (refl, tt)
          (λ found. claim_slot-KeptIn now_us found.0 found.1 c);
  }

  retry_slot-Frames :
      (t : ℕ) (dead : Bool) (e : EspErr) (pos : ℕ) → Frames (retry_slot N t dead e pos)
  unfolding retry_slot
  retry_slot-Frames t dead e pos =
      search (keeps, framed, read_and_verify-Frames, retried-Frames, write_entry-Frames) depth 12

  pub schedule_retry-Frames :
      (id t : ℕ) (dead : Bool) (e : EspErr) → Frames (schedule_retry N id t dead e)
  unfolding schedule_retry
  schedule_retry-Frames id t dead e = record {
    at = λ c.
        KeptIn-option Frame c (find_entry c.index id) _ _ (refl, tt)
          (λ pos. (retry_slot-Frames t dead e pos).at c);
  }

  pub find_drop_candidate-Frames : (p : OverflowPolicy) → Frames (find_drop_candidate N p)
  unfolding find_drop_candidate
  find_drop_candidate-Frames p = record {
    at = λ c. KeptIn-option Frame c (pick_drop p c.index) _ _ (refl, tt) (λ found. refl);
  }

  -- The operation that takes an entry out: its slot is free again.
  abbrev pub Taken : ℕ → Ctx Store → Ctx Store → Type 0
  Taken id c c' =
      (pos : ℕ) × (d : Ctx Store) × (find_entry c.index id ≡ some pos)
      × Frame c d
      × (c' ≡ free_entry_at d pos)

  pub mark_delivered-Ends :
      (id : ℕ) (c : Ctx Store)
      → Ends (λ a c'. Taken id c c') (λ e c'. Frame c c' × IsFailure e) (mark_delivered N id c)
  unfolding mark_delivered erase_entry
  mark_delivered-Ends id c =
      Ends-option (find_entry c.index id) _ _ (λ a c'. Taken id c c')
        (λ e c'. Frame c c' × IsFailure e) (λ e. (refl, tt))
        λ pos found.
          Ends-bind (erase_blob N _) _ c (λ a d. Frame c d) (λ a c'. Taken id c c')
            (λ e c'. Frame c c' × IsFailure e) ((erase_blob-Frames N _).at c)
            (λ a d p. (pos, d, found, p, refl))

  -- The operation that adds one, in a slot that was free.
  abbrev pub Added : Message → Ctx Store → Ctx Store → Type 0
  Added m c c' =
      (slot : ℕ) × (d : Ctx Store) × (find_free_slot c ≡ some slot)
      × (length c.index < c.index_capacity)
      × Frame c d
      × (c' ≡ record d {
        index = d.index ++ new_slot_entry m slot ∷ [];
        slot_used = set d.slot_used slot true;
      })

  pub enqueue-Ends :
      (m : Message) (c : Ctx Store)
      → Ends (λ a c'. Added m c c') (λ e c'. Frame c c' × IsFailure e) (enqueue N m c)
  unfolding enqueue enqueue_at
  enqueue-Ends m c =
      Ends-if (leb c.index_capacity (length c.index)) _ _ (λ a c'. Added m c c')
        (λ e c'. Frame c c' × IsFailure e) (λ full. (refl, tt))
        λ room.
          Ends-option (find_free_slot c) _ _ (λ a c'. Added m c c')
            (λ e c'. Frame c c' × IsFailure e) (λ none_free. (refl, tt))
            λ slot free.
              Ends-bind (write_entry N _ _ _) _ c (λ a d. Frame c d) (λ a c'. Added m c c')
                (λ e c'. Frame c c' × IsFailure e) ((write_entry-Frames N _ _ _).at c)
                (λ a d p. (slot, d, free, leb→lt _ _ room, p, refl))
