-- ===== src/Nvs/Slots/Run.antt =====
-- The invariant of the slots over any sequence of calls.
use edgesync_espidf.Prelude.{
  ℕ, zero, suc, ◌+◌, ◌≤◌, ◌<◌, ◌≡◌, refl, ◌∙◌, ap, true, false, [], length, replicate,
  length-replicate, leb, leb→lt, ◌==◌, arith,
}
use edgesync_espidf.Types.{EspErr, Message, state_in_flight, state_pending}
use edgesync_espidf.Format.{Header}
use edgesync_espidf.Action.{Res, state_of, modify, ok, fail}
use edgesync_espidf.Action.Outcome.{Ends, Ends-bind, Ends-map, Ends-if, Ends-handle}
use edgesync_espidf.Action.Keeps.{
  IsFailure, KeptIn, KeptIn-if, Keeps-pure, Keeps-bind, Keeps-modify, keeps,
}
use edgesync_espidf.Flashq.Helpers.{entry_at, update_at}
use edgesync_espidf.Flashq.Ids.{find_entry-ids, same_ids-bound}
use edgesync_espidf.Nvs.{Nvs, Ctx, NvsEntry, is_used, find_free_slot}
use edgesync_espidf.Nvs.Entries.{read_and_verify, discard}
use edgesync_espidf.Nvs.Ops.{new_slot_entry, enqueue, mark_delivered}
use edgesync_espidf.Nvs.Recovery.{
  entry_of_blob, add_entry, skip_slot, load_slot, load_slots, requeue_slot, requeue_at,
  requeue_slots, recover,
}
use edgesync_espidf.Nvs.Frame.{
  Frame, Frame-update_at, Frames, framed, slots, write_entry-Frames, read_and_verify-Frames,
  discard-Frames,
}
use edgesync_espidf.Nvs.Frame.Calls.{Taken, Added, enqueue-Ends, mark_delivered-Ends}
use edgesync_espidf.Nvs.Slots.{
  IsSlotted, IsSlotted-Frame, IsSlotted-added, IsSlotted-freed, is_used-set, is_used-replicate,
  free_slot_loop-free, length-slots, owners,
}

module _ {S : Type 0} where
  -- The state after the call, whether it succeeds or fails.
  abbrev pub Slots : {A : Type 0} → Res (Ctx S) A → Type 0
  Slots r = Ends (λ a d. IsSlotted d) (λ e d. IsSlotted d) r

  pub Slots-state : {A : Type 0} (r : Res (Ctx S) A) → Slots r → IsSlotted (state_of r)
  Slots-state (ok a d) h = h
  Slots-state (fail e d) h = h

  pub Slots-KeptIn :
      {A : Type 0} (c : Ctx S) (r : Res (Ctx S) A) → KeptIn Frame c r → IsSlotted c → Slots r
  Slots-KeptIn c r k h =
      Ends-map r (λ a d. Frame c d) _ (λ e d. Frame c d × IsFailure e) _ k
        (λ a d p. IsSlotted-Frame c d p h) (λ e d p. IsSlotted-Frame c d p.0 h)

  max_kept : (c d : Ctx S) → Frame c d → d.max_messages ≡ c.max_messages
  max_kept c d p = ap (λ v. v.4) p

  room_kept :
      (c d : Ctx S)
      → Frame c d
      → length c.index < c.index_capacity
      → length d.index < d.index_capacity
  room_kept c d p room =
      let same : length (slots d.index) ≡ length (slots c.index) = ap (λ v. length v.1) p in
      omega (arith, same, length-slots c.index, length-slots d.index, ap (λ v. v.3) p)

module _ (N : Nvs) where
  open N use {Store}

  Added-IsSlotted : (m : Message) (c c' : Ctx Store) → Added N m c c' → IsSlotted c → IsSlotted c'
  unfolding find_free_slot
  Added-IsSlotted m c c' (slot, d, found, room, p, e) h =
      let (free, bound) = free_slot_loop-free c.max_messages 0 c.slot_used slot found in
      rw e (
        IsSlotted-added d (new_slot_entry m slot) (IsSlotted-Frame c d p h)
          (ap (λ v. is_used v.2 slot) p ∙ free) (omega (arith, max_kept c d p))
          (room_kept c d p room))

  pub enqueue-Slots : (m : Message) (c : Ctx Store) → IsSlotted c → Slots (enqueue N m c)
  enqueue-Slots m c h =
      Ends-map (enqueue N m c) (λ a d. Added N m c d) _ (λ e d. Frame c d × IsFailure e) _
        (enqueue-Ends N m c) (λ a d q. Added-IsSlotted m c d q h)
        (λ e d p. IsSlotted-Frame c d p.0 h)

  pub mark_delivered-Slots : (id : ℕ) (c : Ctx Store) → IsSlotted c → Slots (mark_delivered N id c)
  mark_delivered-Slots id c h =
      Ends-map (mark_delivered N id c) (λ a d. Taken N id c d) _ (λ e d. Frame c d × IsFailure e) _
        (mark_delivered-Ends N id c)
        (λ a c' (pos, d, found, p, e).
          let (there, bound) = find_entry-ids c.index id pos found in
          rw e (
            IsSlotted-freed d pos (IsSlotted-Frame c d p h)
              (same_ids-bound c.index d.index pos (ap (λ v. v.0) p) bound)))
        (λ e d p. IsSlotted-Frame c d p.0 h)

  -- The slots behind `slot` are not marked yet.
  abbrev IsFreeFrom : ℕ → Ctx Store → Type 0
  IsFreeFrom slot c = (s : ℕ) → slot ≤ s → is_used c.slot_used s ≡ false

  abbrev Loading : ℕ → ℕ → Ctx Store → Type 0
  Loading slot limit c = IsSlotted c × IsFreeFrom slot c × (c.max_messages ≡ limit)

  Loading-Frame :
      (slot limit : ℕ) (c d : Ctx Store) → Frame c d → Loading slot limit c → Loading slot limit d
  Loading-Frame slot limit c d p (h, free, same) =
      (IsSlotted-Frame c d p h, λ s b. ap (λ v. is_used v.2 s) p ∙ free s b, max_kept c d p ∙ same)

  Loading-next :
      (slot limit : ℕ) (c : Ctx Store) → Loading slot limit c → Loading (slot + 1) limit c
  Loading-next slot limit c (h, free, same) = (h, λ s b. free s (omega arith), same)

  -- The state behind one slot of the first loop.
  abbrev Loads : ℕ → ℕ → Res (Ctx Store) (Unit {0}) → Type 0
  Loads slot limit r = Ends (λ a d. Loading slot limit d) (λ e d. IsSlotted d) r

  add_entry-Loads :
      (slot limit : ℕ) (hdr : Header) (c : Ctx Store)
      → slot < limit
      → Loading slot limit c
      → Loads (slot + 1) limit (add_entry N slot hdr c)
  unfolding add_entry
  add_entry-Loads slot limit hdr c b (h, free, same) =
      Ends-if (leb c.index_capacity (length c.index)) _ _ (λ a d. Loading (slot + 1) limit d)
        (λ e d. IsSlotted d) (λ full. Loading-next slot limit c (h, free, same))
        (λ room. (
          IsSlotted-added c (entry_of_blob hdr slot) h (free slot (omega arith))
              (omega (arith, same)) (leb→lt _ _ room),
          λ s later.
              let mark = is_used-set c.slot_used slot s true (omega (arith, same, h.marks)) in
              ground (arith, mark, free s (omega arith)),
          same,
        ))

  skip_slot-Loads :
      (slot limit : ℕ) (e : EspErr) (c : Ctx Store)
      → Loading slot limit c
      → Loads (slot + 1) limit (skip_slot N slot e c)
  unfolding skip_slot
  skip_slot-Loads slot limit EspErr.not_found c h = Loading-next slot limit c h
  skip_slot-Loads slot limit EspErr.storage_corrupt c h =
      Ends-map (discard N slot c) (λ a d. Frame c d) _ (λ e d. Frame c d × IsFailure e) _
        ((discard-Frames N slot).at c)
        (λ a d p. Loading-Frame (slot + 1) limit c d p (Loading-next slot limit c h))
        (λ e d p. IsSlotted-Frame c d p.0 h.0)
  skip_slot-Loads slot limit e c h = h.0

  load_slot-Loads :
      (slot limit : ℕ) (c : Ctx Store)
      → slot < limit
      → Loading slot limit c
      → Loads (slot + 1) limit (load_slot N slot c)
  unfolding load_slot
  load_slot-Loads slot limit c b h =
      Ends-handle (read_and_verify N slot c) _ _ (λ hdr d. Frame c d)
        (λ e d. Frame c d × IsFailure e) _ _ ((read_and_verify-Frames N slot).at c)
        (λ hdr d p. add_entry-Loads slot limit hdr d b (Loading-Frame slot limit c d p h))
        (λ e d p. skip_slot-Loads slot limit e d (Loading-Frame slot limit c d p.0 h))

  load_slots-Slots :
      (n slot limit : ℕ) (c : Ctx Store)
      → slot + n ≤ limit
      → Loading slot limit c
      → Slots (load_slots N n slot c)
  unfolding load_slots
  load_slots-Slots zero slot limit c b h = h.0
  load_slots-Slots (suc n) slot limit c b h =
      Ends-bind (load_slot N slot) _ c (λ a d. Loading (slot + 1) limit d) (λ a d. IsSlotted d)
        (λ e d. IsSlotted d) (load_slot-Loads slot limit c (omega arith) h)
        (λ a d q. load_slots-Slots n (slot + 1) limit d (omega arith) q)

  abbrev requeued_fields : NvsEntry → NvsEntry
  requeued_fields e = record e { state = state_pending; next_retry_at_us = 0 }

  requeued-Frames :
      (pos : ℕ)
      → Frames
          (modify {S = Ctx Store} (λ c. record c { index = update_at c.index pos requeued_fields }))
  requeued-Frames pos =
      Keeps-modify _ (λ c. Frame-update_at c pos requeued_fields (λ e. refl) (λ e. refl))

  requeue_slot-Frames : (pos : ℕ) → Frames (requeue_slot N pos)
  unfolding requeue_slot
  requeue_slot-Frames pos =
      search (keeps, framed, read_and_verify-Frames, requeued-Frames, write_entry-Frames) depth 12

  requeue_at-Frames : (pos : ℕ) → Frames (requeue_at N pos)
  unfolding requeue_at
  requeue_at-Frames pos = record {
    at = λ c.
        KeptIn-if Frame c ((entry_at c.index pos).state == state_in_flight) _ _
          ((requeue_slot-Frames pos).at c) refl;
  }

  requeue_slots-Frames : (n pos : ℕ) → Frames (requeue_slots N n pos)
  unfolding requeue_slots
  requeue_slots-Frames zero pos = Keeps-pure framed tt
  requeue_slots-Frames (suc n) pos =
      Keeps-bind framed (requeue_at N pos) _ (requeue_at-Frames pos)
        (λ a. requeue_slots-Frames n (pos + 1))

  IsSlotted-start :
      (c : Ctx Store)
      → Loading 0 c.max_messages
          (record c { index = []; slot_used = replicate c.max_messages false })
  unfolding owners
  IsSlotted-start c = (
    record {
      owned = λ s. rw (is_used-replicate c.max_messages s) refl;
      marks = length-replicate c.max_messages false;
      fits = omega arith;
    },
    λ s b. is_used-replicate c.max_messages s,
    refl,
  )

  pub recover-Slots : (c : Ctx Store) → Slots (recover N c)
  unfolding recover
  recover-Slots c =
      Ends-bind (load_slots N c.max_messages 0) _ _ (λ a d. IsSlotted d) (λ a d. IsSlotted d)
        (λ e d. IsSlotted d)
        (load_slots-Slots c.max_messages 0 c.max_messages _ (omega arith) (IsSlotted-start c))
        (λ a d h. Slots-KeptIn d _ ((requeue_slots-Frames (length d.index) 0).at d) h)
