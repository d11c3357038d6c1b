-- ===== src/Nvs/Recovery/Requeued.antt =====
-- The states of the entries behind op_recover of edgesync_storage_nvs.c.
use edgesync_espidf.Prelude.{ℕ, zero, suc, ◌+◌, ◌<◌, ◌≡◌, refl, ◌∙◌, ap, List, length, ◌==◌, arith}
use edgesync_espidf.Types.{state_in_flight, state_pending}
use edgesync_espidf.Action.Outcome.{Ends, Ends-bind, Ends-map, Ends-if, Ends-Anything}
use edgesync_espidf.Action.Keeps.{IsFailure}
use edgesync_espidf.Flashq.Helpers.{entry_at, update_at}
use edgesync_espidf.Flashq.Positions.{
  entry_at-update_at, entry_at-update_at_before, length-update_at, IsRestedTo, IsRested,
  IsRested-all, IsRestedTo-next,
}
use edgesync_espidf.Nvs.{Nvs, Ctx, NvsEntry}
use edgesync_espidf.Nvs.Entries.{read_and_verify, write_entry}
use edgesync_espidf.Nvs.Recovery.{load_slots, requeue_slot, requeue_at, requeue_slots, recover}
use edgesync_espidf.Nvs.Frame.{Still, read_and_verify-Stills, write_entry-Stills}

module _ (N : Nvs) where
  open N use {Store}

  abbrev requeued : NvsEntry → NvsEntry
  requeued e = record e { state = state_pending; next_retry_at_us = 0 }

  same_index : (c d : Ctx Store) → Still c d → d.index ≡ c.index
  same_index c d p = ap (λ v. v.0) p

  requeue_slot-Ends :
      (pos : ℕ) (c : Ctx Store)
      → Ends
          (λ a d. d.index ≡ update_at c.index pos requeued)
          (λ x d. Unit {0})
          (requeue_slot N pos c)
  unfolding requeue_slot
  requeue_slot-Ends pos c =
      Ends-bind (read_and_verify N _) _ c (λ hdr d. Still c d) _ (λ x d. Unit {0})
        (Ends-map (read_and_verify N _ c) (λ hdr d. Still c d) _ (λ x d. Still c d × IsFailure x) _
          ((read_and_verify-Stills N _).at c) (λ hdr d p. p) (λ x d p. tt))
        λ hdr d p.
          Ends-map (write_entry N _ _ _ _)
            (λ a e. Still (record d { index = update_at d.index pos requeued }) e) _
            (λ x e. Still (record d { index = update_at d.index pos requeued }) e × IsFailure x) _
            ((write_entry-Stills N _ _ _).at (record d { index = update_at d.index pos requeued }))
            (λ a e q.
              same_index (record d { index = update_at d.index pos requeued }) e q
              ∙ ap (λ (xs : List NvsEntry). update_at xs pos requeued) (same_index c d p))
            (λ x e q. tt)

  abbrev Rests : ℕ → ℕ → Ctx Store → Type 0
  Rests pos count c = IsRestedTo pos c.index × (length c.index ≡ count)

  requeue_at-Rests :
      (pos count : ℕ) (c : Ctx Store)
      → pos < count
      → Rests pos count c
      → Ends (λ a d. Rests (pos + 1) count d) (λ x d. Unit {0}) (requeue_at N pos c)
  unfolding requeue_at
  requeue_at-Rests pos count c b h =
      Ends-if ((entry_at c.index pos).state == state_in_flight) _ _ _ (λ x d. Unit {0})
        (λ flying.
          Ends-map (requeue_slot N pos c) _ _ _ (λ x d. Unit {0}) (requeue_slot-Ends pos c)
            (λ a d set. rw set (
              IsRestedTo-next pos c.index (update_at c.index pos requeued) h.0
                  (λ i earlier.
                    ap (λ (x : NvsEntry). x.state)
                      (entry_at-update_at_before c.index pos i requeued earlier))
                  (rw (entry_at-update_at c.index pos requeued (omega (arith, h.1)))
                    (λ same. absurd (omega arith))),
              length-update_at c.index pos requeued ∙ h.1,
            ))
            (λ x d q. tt))
        (λ resting. (
          IsRestedTo-next pos c.index c.index h.0 (λ i earlier. refl)
              (λ same. absurd (ground (arith, resting, same))),
          h.1,
        ))

  requeue_slots-Ends :
      (left pos count : ℕ) (c : Ctx Store)
      → pos + left ≡ count
      → Rests pos count c
      → Ends (λ a d. IsRested d.index) (λ x d. Unit {0}) (requeue_slots N left pos c)
  unfolding requeue_slots
  requeue_slots-Ends zero pos count c sum (h, n) =
      IsRested-all c.index (λ i b. h i (omega (arith, n, sum)))
  requeue_slots-Ends (suc left) pos count c sum h =
      Ends-bind (requeue_at N pos) _ c (λ a d. Rests (pos + 1) count d) (λ a d. IsRested d.index)
        (λ x d. Unit {0}) (requeue_at-Rests pos count c (omega arith) h)
        (λ a d k. requeue_slots-Ends left (pos + 1) count d (omega arith) k)

  -- op_recover of the NVS backend, over any NVS: if it succeeds, no entry of the index is IN_FLIGHT, whatever
  -- the blobs say.
  pub nvs_recover-IsRested :
      (c : Ctx Store) → Ends (λ a d. IsRested d.index) (λ x d. Unit {0}) (recover N c)
  unfolding recover
  nvs_recover-IsRested c =
      Ends-bind (load_slots N c.max_messages 0) _ _ (λ a d. Unit {0}) (λ a d. IsRested d.index)
        (λ x d. Unit {0}) (Ends-Anything _)
        (λ a d p.
          requeue_slots-Ends (length d.index) 0 (length d.index) d (omega arith)
            (λ i b. absurd (omega arith), refl))
