-- ===== src/Nvs/Kept.antt =====
-- edgesync_storage_nvs.c against the contract on which the queue and the worker rely.
use mathlib.Core.Path.{subst}
use edgesync_espidf.Prelude.{ℕ, ◌≡◌, sym, ◌∙◌, ap, ◌⊎◌, inl, inr, Bool, List, [], ◌∷◌}
use edgesync_espidf.Types.{EspErr, Message}
use edgesync_espidf.Queue.Contract.{KeepsMessages}
use edgesync_espidf.Action.{Res, ok, fail}
use edgesync_espidf.Action.Outcome.{Ends, Ends-map}
use edgesync_espidf.Action.Keeps.{IsFailure, IsFailure-ne, KeptIn}
use edgesync_espidf.Flashq.Ids.{
  ids, Has, Has-append, Has-last, Has-remove_entry_at, find_entry-ids, same_ids-at, same_ids-bound,
}
use edgesync_espidf.Nvs.{Nvs, Ctx}
use edgesync_espidf.Nvs.Ops.{
  NvsClaim, new_slot_entry, enqueue, claim_next, mark_delivered, schedule_retry,
  find_drop_candidate,
}
use edgesync_espidf.Nvs.Table.{err_of, taken_code, candidate_code, nvs_ops}
use edgesync_espidf.Nvs.Frame.{Frame}
use edgesync_espidf.Nvs.Frame.Calls.{
  Taken, Added, enqueue-Ends, claim_next-Frames, schedule_retry-Frames, find_drop_candidate-Frames,
  mark_delivered-Ends,
}

module _ {S : Type 0} (R : S → Type 0) where
  -- The state behind a call, from what the call ends in.
  err_of_ends : {A : Type 0} (r : Res S A) → Ends (λ a c. R c) (λ e c. R c) r → R (err_of r).1
  unfolding err_of
  err_of_ends (ok a c) h = h
  err_of_ends (fail e c) h = h

  taken_code_ends : (r : Res S NvsClaim) → Ends (λ a c. R c) (λ e c. R c) r → R (taken_code r).1
  unfolding taken_code
  taken_code_ends (ok (NvsClaim.taken m) c) h = h
  taken_code_ends (ok (NvsClaim.corrupted m) c) h = h
  taken_code_ends (fail e c) h = h

  candidate_code_ends : (r : Res S ℕ) → Ends (λ a c. R c) (λ e c. R c) r → R (candidate_code r).1
  unfolding candidate_code
  candidate_code_ends (ok id c) h = h
  candidate_code_ends (fail e c) h = h

module _ {S : Type 0} where
  -- The ids that the index of the backend has.
  abbrev pub NvsHolds : Ctx S → ℕ → Type 0
  NvsHolds c i = Has i (ids c.index)

  ids_kept : (c c' : Ctx S) → Frame c c' → ids c'.index ≡ ids c.index
  ids_kept c c' p = ap (λ v. v.0) p

  moved : (i : ℕ) (c c' : Ctx S) → Frame c c' → NvsHolds c i → NvsHolds c' i
  moved i c c' p h = subst (λ (is : List ℕ). Has i is) (sym (ids_kept c c' p)) h

  kept_holds :
      {A : Type 0} (r : Res (Ctx S) A) (i : ℕ) (c : Ctx S)
      → KeptIn Frame c r
      → NvsHolds c i
      → Ends (λ a d. NvsHolds d i) (λ e d. NvsHolds d i) r
  kept_holds r i c s h =
      Ends-map r (λ a d. Frame c d) _ (λ e d. Frame c d × IsFailure e) _ s
        (λ a d q. moved i c d q h) (λ e d q. moved i c d q.0 h)

module _ (N : Nvs) where
  open N use {Store}

  Added-holds :
      (m : Message) (i : ℕ) (c c' : Ctx Store) → Added N m c c' → NvsHolds c i → NvsHolds c' i
  Added-holds m i c c' (slot, d, free, room, p, e) h =
      rw e (Has-append i d.index (new_slot_entry m slot ∷ []) (moved i c d p h))

  Added-last : (m : Message) (c c' : Ctx Store) → Added N m c c' → NvsHolds c' m.id
  Added-last m c c' (slot, d, free, room, p, e) = rw e (Has-last (new_slot_entry m slot) d.index)

  enqueue_err_adds :
      (m : Message) (c : Ctx Store) (r : Res (Ctx Store) (Unit {0}))
      → Ends (λ a d. Added N m c d) (λ e d. Frame c d × IsFailure e) r
      → (err_of r).0 ≡ EspErr.esp_ok
      → NvsHolds (err_of r).1 m.id
  unfolding err_of
  enqueue_err_adds m c (ok a d) h e = Added-last m c d h
  enqueue_err_adds m c (fail x d) h e = absurd (IsFailure-ne x h.1 e)

  Taken-holds :
      (id i : ℕ) (c c' : Ctx Store) → Taken N id c c' → NvsHolds c i → NvsHolds c' i ⊎ (i ≡ id)
  Taken-holds id i c c' (pos, d, found, p, e) h =
      let (there, bound) = find_entry-ids c.index id pos found in
      let same : ids d.index ≡ ids c.index = ids_kept c d p in
      rw e
        (elim (Has-remove_entry_at i d.index pos (same_ids-bound c.index d.index pos same bound)
          (moved i c d p h)) [
            | inl left ↦ inl left
            | inr here ↦ inr (here ∙ same_ids-at c.index d.index pos same ∙ there)
          ])

  delivered_holds :
      (id i : ℕ) (c : Ctx Store)
      → NvsHolds c i
      → NvsHolds (err_of (mark_delivered N id c)).1 i ⊎ (i ≡ id)
  delivered_holds id i c h =
      err_of_ends (λ d. NvsHolds d i ⊎ (i ≡ id)) (mark_delivered N id c)
        (Ends-map (mark_delivered N id c) (λ a d. Taken N id c d) _ (λ e d. Frame c d × IsFailure e)
          _ (mark_delivered-Ends N id c) (λ a d q. Taken-holds id i c d q h)
          (λ e d q. inl (moved i c d q.0 h)))

  -- The NVS backend, over any NVS, keeps the contract: an enqueue that succeeds adds the message's
  -- id to its index, no enqueue, claim, scheduled retry or search takes an id out of it, and mark_delivered
  -- and remove take out the given id only, whichever read, write, erasure or commit fails.
  pub nvs_KeepsMessages : (has_mutex : Bool) → KeepsMessages (nvs_ops N has_mutex) NvsHolds
  unfolding nvs_ops
  nvs_KeepsMessages has_mutex = record {
    enqueue_keeps = λ m c i h.
        err_of_ends (λ d. NvsHolds d i) (enqueue N m c)
          (Ends-map (enqueue N m c) (λ a d. Added N m c d) _ (λ e d. Frame c d × IsFailure e) _
            (enqueue-Ends N m c) (λ a d q. Added-holds m i c d q h) (λ e d q. moved i c d q.0 h));
    enqueue_adds = λ m c e. enqueue_err_adds m c (enqueue N m c) (enqueue-Ends N m c) e;
    claim_keeps = λ t c i h.
        taken_code_ends (λ d. NvsHolds d i) (claim_next N t c)
          (kept_holds (claim_next N t c) i c ((claim_next-Frames N t).at c) h);
    retry_keeps = λ id t dead e c i h.
        err_of_ends (λ d. NvsHolds d i) (schedule_retry N id t dead e c)
          (kept_holds (schedule_retry N id t dead e c) i c
            ((schedule_retry-Frames N id t dead e).at c) h);
    find_keeps = λ p c i h.
        candidate_code_ends (λ d. NvsHolds d i) (find_drop_candidate N p c)
          (kept_holds (find_drop_candidate N p c) i c ((find_drop_candidate-Frames N p).at c) h);
    delivered_keeps = λ id c i h. delivered_holds id i c h;
    remove_keeps = λ id c i h. delivered_holds id i c h;
  }
