-- ===== src/Flashq/Kept/Calls.antt =====
-- What each operation of the backend does to the ids of the index.
use mathlib.Core.Path.{subst}
use edgesync_espidf.Prelude.{
  ℕ, ◌+◌, ◌≡◌, refl, sym, ◌∙◌, ◌⊎◌, inl, inr, Bool, some, List, [], ◌∷◌, ◌++◌, length, leb,
  if◌then◌else◌, u8, u32,
}
use edgesync_espidf.Types.{
  EspErr, Message, OverflowPolicy, state_in_flight, state_dead_letter, state_pending,
  state_delivered, state_removed, err_code,
}
use edgesync_espidf.Flashq.Partition.{Partition}
use edgesync_espidf.Flashq.Context.{Entry, Ctx, M, ◌>>=◌, modify}
use edgesync_espidf.Action.Outcome.{Ends, Ends-bind, Ends-map, Ends-if, Ends-option}
use edgesync_espidf.Action.Keeps.{
  IsFailure, Keeps-bind, Keeps-gets, Keeps-modify, KeptIn-trans, keeps,
}
use edgesync_espidf.Flashq.Helpers.{find_entry, update_at, append_locked}
use edgesync_espidf.Format.{encode_message}
use edgesync_espidf.Flashq.Append.{append_state_update_locked}
use edgesync_espidf.Flashq.Frame.Compact.{ensure_space_locked-Frames, append_locked-Frames}
use edgesync_espidf.Flashq.Ids.{
  ids, same_ids-at, same_ids-bound, Has, ids-update_at, find_entry-ids, Has-remove_entry_at, Same,
  SameEnds, SameIds, SameIds-Frames, ids_order,
}
use edgesync_espidf.Flashq.Select.{pick_claim, pick_drop}
use edgesync_espidf.Flashq.Ops.{
  new_entry, encode_into_scratch, enqueue_record, enqueue, claim_corrupt, write_claim, claim_intact,
  claim_at, claim_next, read_claimed, finish_entry, mark_delivered, remove_message, retry_entry,
  schedule_retry, find_drop_candidate,
}

module _ (P : Partition) where
  open P use {Flash}

  append_state_update_locked-SameIds :
      (pos new_state : ℕ) → SameIds (append_state_update_locked P pos new_state)
  unfolding append_state_update_locked
  append_state_update_locked-SameIds pos new_state =
      Keeps-bind ids_order _ _ (SameIds-Frames _ (ensure_space_locked-Frames P _)) λ a.
        Keeps-bind ids_order _ _ (Keeps-gets ids_order _) λ buf.
          Keeps-bind ids_order _ _ (SameIds-Frames _ (append_locked-Frames P buf)) λ b.
            Keeps-modify
              (λ c. record c {
                index = update_at c.index pos (λ e. record e { state = u8 new_state });
                updates_since_compaction = u32 (c.updates_since_compaction + 1);
              })
              (λ c. ids-update_at c.index pos (λ e. record e { state = u8 new_state }) (λ e. refl))

  abbrev claim_fields : ℕ → ℕ → Entry → Entry
  claim_fields attempts now_us e = record e {
    state = state_in_flight;
    attempt_count = attempts;
    last_attempt_at_us = now_us;
  }

  write_claim-SameIds : (pos attempts now_us : ℕ) → SameIds (write_claim P pos attempts now_us)
  unfolding write_claim
  write_claim-SameIds pos attempts now_us =
      Keeps-bind ids_order _ _ (SameIds-Frames _ (ensure_space_locked-Frames P _)) λ a.
        Keeps-bind ids_order _ _ (Keeps-gets ids_order _) λ buf.
          Keeps-bind ids_order _ _ (SameIds-Frames _ (append_locked-Frames P buf)) λ b.
            Keeps-modify
              (λ c. record c {
                index = update_at c.index pos (claim_fields attempts now_us);
                updates_since_compaction = u32 (c.updates_since_compaction + 1);
              })
              (λ c. ids-update_at c.index pos (claim_fields attempts now_us) (λ e. refl))

  claim_intact-SameIds :
      (pos now_us : ℕ) (bytes : List ℕ) → SameIds (claim_intact P pos now_us bytes)
  unfolding claim_intact
  claim_intact-SameIds pos now_us bytes = search (keeps, ids_order, write_claim-SameIds)

  abbrev corrupt_fields : Entry → Entry
  corrupt_fields e = record e { last_error = err_code EspErr.storage_corrupt }

  corrupt_error-SameIds :
      (pos : ℕ)
      → SameIds
          (modify {S = Ctx Flash} (λ c. record c { index = update_at c.index pos corrupt_fields }))
  corrupt_error-SameIds pos =
      Keeps-modify (λ c. record c { index = update_at c.index pos corrupt_fields })
        (λ c. ids-update_at c.index pos corrupt_fields (λ e. refl))

  claim_corrupt-SameIds : (pos : ℕ) → SameIds (claim_corrupt P pos)
  unfolding claim_corrupt
  claim_corrupt-SameIds pos =
      search (keeps, ids_order, corrupt_error-SameIds, append_state_update_locked-SameIds)

  claim_at-SameEnds :
      (now_us pos : ℕ) (best : Entry) (c : Ctx Flash) → SameEnds c (claim_at P now_us pos best c)
  unfolding claim_at
  claim_at-SameEnds now_us pos best c =
      Ends-option (read_claimed P c best) _ _ _ _ (λ e. (claim_corrupt-SameIds pos).at c)
        (λ bytes e. (claim_intact-SameIds pos now_us bytes).at c)

  pub claim_next-SameEnds : (now_us : ℕ) (c : Ctx Flash) → SameEnds c (claim_next P now_us c)
  unfolding claim_next
  claim_next-SameEnds now_us c =
      Ends-option (pick_claim now_us c.index) _ _ _ _ (λ e. (refl, tt))
        (λ found e. claim_at-SameEnds now_us found.0 found.1 c)

  abbrev retry_fields : ℕ → Bool → EspErr → Entry → Entry
  retry_fields t dead e x = record x {
    next_retry_at_us = if dead then 0 else t;
    last_error = err_code e;
  }

  retry_entry-SameIds :
      (t : ℕ) (dead : Bool) (e : EspErr) (pos : ℕ) → SameIds (retry_entry P t dead e pos)
  unfolding retry_entry
  retry_entry-SameIds t dead e pos =
      Keeps-bind ids_order _ _
        (Keeps-modify (λ c. record c { index = update_at c.index pos (retry_fields t dead e) })
          (λ c. ids-update_at c.index pos (retry_fields t dead e) (λ x. refl)))
        λ a.
          append_state_update_locked-SameIds pos (if dead then state_dead_letter else state_pending)

  pub schedule_retry-SameEnds :
      (id t : ℕ) (dead : Bool) (e : EspErr) (c : Ctx Flash)
      → SameEnds c (schedule_retry P id t dead e c)
  unfolding schedule_retry
  schedule_retry-SameEnds id t dead e c =
      Ends-option (find_entry c.index id) _ _ _ _ (λ h. (refl, tt))
        (λ pos h. (retry_entry-SameIds t dead e pos).at c)

  pub find_drop_candidate-SameEnds :
      (p : OverflowPolicy) (c : Ctx Flash) → SameEnds c (find_drop_candidate P p c)
  unfolding find_drop_candidate
  find_drop_candidate-SameEnds p c =
      Ends-option (pick_drop p c.index) _ _ _ _ (λ h. (refl, tt)) (λ found h. refl)

  -- The two operations that take an entry out of the index: append_state_update_locked keeps the
  -- length and the entry's id, so that the entry removed is the one that was found.
  abbrev pub But : ℕ → ℕ → Ctx Flash → Type 0
  But i id c = Has i (ids c.index) ⊎ (i ≡ id)

  finish_entry-Ends :
      (last_state id pos i : ℕ) (c : Ctx Flash)
      → find_entry c.index id ≡ some pos
      → Has i (ids c.index)
      → Ends (λ a c'. But i id c') (λ e c'. But i id c') (finish_entry P last_state pos c)
  unfolding finish_entry
  finish_entry-Ends last_state id pos i c e h =
      let (there, bound) = find_entry-ids c.index id pos e in
      Ends-bind (append_state_update_locked P pos last_state) _ c (λ a d. Same c d)
        (λ a d. But i id d) (λ x d. But i id d)
        (Ends-map (append_state_update_locked P pos last_state c) _ _
          (λ x d. Same c d × IsFailure x) _
          ((append_state_update_locked-SameIds pos last_state).at c) (λ a d q. q)
          (λ x d q. inl (subst (λ (is : List ℕ). Has i is) (sym q.0) h)))
        λ a d q.
          let held : Has i (ids d.index) = subst (λ (is : List ℕ). Has i is) (sym q) h in
          elim (Has-remove_entry_at i d.index pos (same_ids-bound c.index d.index pos q bound)
            held) [
              | inl left ↦ inl left
              | inr same ↦ inr (same ∙ same_ids-at c.index d.index pos q ∙ there)
            ]

  pub mark_delivered-Ends :
      (id i : ℕ) (c : Ctx Flash)
      → Has i (ids c.index)
      → Ends (λ a c'. But i id c') (λ e c'. But i id c') (mark_delivered P id c)
  unfolding mark_delivered
  mark_delivered-Ends id i c h =
      Ends-option (find_entry c.index id) _ _ _ _ (λ e. inl h)
        (λ pos e. finish_entry-Ends state_delivered id pos i c e h)

  pub remove_message-Ends :
      (id i : ℕ) (c : Ctx Flash)
      → Has i (ids c.index)
      → Ends (λ a c'. But i id c') (λ e c'. But i id c') (remove_message P id c)
  unfolding remove_message
  remove_message-Ends id i c h =
      Ends-option (find_entry c.index id) _ _ _ _ (λ e. inl h)
        (λ pos e. finish_entry-Ends state_removed id pos i c e h)

  -- The operation that adds one.
  abbrev pub Added : Message → Ctx Flash → Ctx Flash → Type 0
  Added m c c' =
      (earlier : List Entry) × (offset : ℕ) × (ids earlier ≡ ids c.index)
      × (c'.index ≡ earlier ++ new_entry m offset ∷ [])

  encode_into_scratch-SameIds : (m : Message) → SameIds (encode_into_scratch P m)
  unfolding encode_into_scratch
  encode_into_scratch-SameIds m = record {
    at = λ c.
        Ends-option (encode_message c.scratch_size m c.next_seq) _ _ _ _ (λ e. (refl, tt))
          (λ b e. refl);
  }

  -- A step in front of the rest.
  then_adds :
      {A : Type 0} (x : M Flash A) (f : A → M Flash (Unit {0})) (m : Message) (c c₁ : Ctx Flash)
      → SameIds x
      → Same c c₁
      → ((a : A) (d : Ctx Flash)
          → Same c d
          → Ends (λ b c'. Added m c c') (λ e c'. Same c c' × IsFailure e) (f a d))
      → Ends (λ b c'. Added m c c') (λ e c'. Same c c' × IsFailure e) ((x >>= f) c₁)
  then_adds x f m c c₁ h p k =
      Ends-bind x f c₁ (λ a d. Same c d) (λ b c'. Added m c c') (λ e c'. Same c c' × IsFailure e)
        (KeptIn-trans ids_order c c₁ (x c₁) p (h.at c₁)) k

  enqueue_record-Ends :
      (m : Message) (c : Ctx Flash)
      → Ends (λ a c'. Added m c c') (λ e c'. Same c c' × IsFailure e) (enqueue_record P m c)
  unfolding enqueue_record
  enqueue_record-Ends m c = then_adds _ _ m c c (encode_into_scratch-SameIds m) refl λ sized c₀ p₀.
      then_adds _ _ m c c₀ (SameIds-Frames _ (ensure_space_locked-Frames P _)) p₀ λ a c₁ p₁.
        then_adds _ _ m c c₁ (encode_into_scratch-SameIds m) p₁ λ buf c₂ p₂.
          then_adds (append_locked P buf) _ m c c₂ (SameIds-Frames _ (append_locked-Frames P buf))
            p₂ λ b c₃ p₃. (c₃.index, c₂.cursor, p₃, refl)

  pub enqueue-Ends :
      (m : Message) (c : Ctx Flash)
      → Ends (λ a c'. Added m c c') (λ e c'. Same c c' × IsFailure e) (enqueue P m c)
  unfolding enqueue
  enqueue-Ends m c =
      Ends-if (leb c.index_capacity (length c.index)) _ _ (λ a c'. Added m c c')
        (λ e c'. Same c c' × IsFailure e) (λ full. (refl, tt)) (λ room. enqueue_record-Ends m c)
