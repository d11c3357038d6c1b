-- ===== src/Flashq/Recovery/Requeued.antt =====
-- The states of the entries behind op_recover of edgesync_storage_flashq.c.
use edgesync_espidf.Prelude.{
  ℕ, zero, suc, ◌+◌, ◌<◌, ◌≡◌, refl, ◌∙◌, ap, List, length, ◌==◌, u8, arith,
}
use edgesync_espidf.Types.{state_in_flight, state_pending}
use edgesync_espidf.Action.Outcome.{Ends, Ends-bind, Ends-map, Ends-if, Ends-option, Ends-Anything}
use edgesync_espidf.Action.Keeps.{IsFailure, KeptIn-from}
use edgesync_espidf.Flashq.Partition.{Partition}
use edgesync_espidf.Flashq.Context.{Entry, Ctx}
use edgesync_espidf.Flashq.Helpers.{
  entry_at, update_at, append_locked, ensure_region_erased, erase_region, partition_write_verify,
}
use edgesync_espidf.Flashq.Append.{ensure_space_locked, append_state_update_locked}
use edgesync_espidf.Flashq.Frame.{Frame, framed}
use edgesync_espidf.Flashq.Frame.Compact.{ensure_space_locked-Frames, append_locked-Frames}
use edgesync_espidf.Flashq.Positions.{
  entry_at-update_at, entry_at-update_at_before, length-update_at, cores-state, cores-length,
  IsRestedTo, IsRested, IsRested-all, IsRestedTo-next,
}
use edgesync_espidf.Flashq.Scan.{requeue_entry, requeue_in_flight, scan_region, load_region}
use edgesync_espidf.Flashq.Recovery.{
  active_generation_of, choose_region, header_of_region, start_fresh, resume, recover,
}

module _ (P : Partition) where
  open P use {Flash}

  abbrev pub state_set : ℕ → Entry → Entry
  state_set new_state e = record e { state = u8 new_state }

  pub append_state_update_locked-Ends :
      (pos new_state : ℕ) (c : Ctx Flash)
      → Ends
          (λ a d.
            (e : Ctx Flash) × Frame c e × (d.index ≡ update_at e.index pos (state_set new_state)))
          (λ x d. Frame c d × IsFailure x)
          (append_state_update_locked P pos new_state c)
  unfolding append_state_update_locked
  append_state_update_locked-Ends pos new_state c =
      Ends-bind (ensure_space_locked P _) _ c (λ a d. Frame c d) _ (λ x d. Frame c d × IsFailure x)
        ((ensure_space_locked-Frames P _).at c)
        λ a d p.
          Ends-bind (append_locked P _) _ d (λ b e. Frame c e) _ (λ x d. Frame c d × IsFailure x)
            (KeptIn-from framed (append_locked P _) c d p (append_locked-Frames P _))
            (λ b e q. (e, q, refl))

  abbrev Rests : ℕ → ℕ → Ctx Flash → Type 0
  Rests pos count c = IsRestedTo pos c.index × (length c.index ≡ count)

  -- The index behind the requeueing of the entry at `pos`.
  Rests-requeued :
      (pos count : ℕ) (c e d : Ctx Flash)
      → pos < count
      → Rests pos count c
      → Frame
          (record c { index = update_at c.index pos (λ x. record x { next_retry_at_us = 0 }) })
          e
      → d.index ≡ update_at e.index pos (state_set state_pending)
      → Rests (pos + 1) count d
  Rests-requeued pos count c e d b (h, n) p set =
      let cleared : List Entry = update_at c.index pos (λ x. record x { next_retry_at_us = 0 }) in
      let same_length : length e.index ≡ count =
        cores-length cleared e.index p.same_index ∙ length-update_at c.index pos _ ∙ n in
      rw set (
        IsRestedTo-next pos c.index (update_at e.index pos (state_set state_pending)) h
            (λ i earlier.
              ap (λ (x : Entry). x.state)
                (entry_at-update_at_before e.index pos i (state_set state_pending) earlier)
              ∙ cores-state cleared e.index i p.same_index
              ∙ ap (λ (x : Entry). x.state) (entry_at-update_at_before c.index pos i _ earlier))
            (rw
              (entry_at-update_at e.index pos (state_set state_pending)
                (omega (arith, same_length)))
              (λ same. absurd (omega arith))),
        length-update_at e.index pos (state_set state_pending) ∙ same_length,
      )

  requeue_entry-Rests :
      (pos count : ℕ) (c : Ctx Flash)
      → pos < count
      → Rests pos count c
      → Ends (λ a d. Rests (pos + 1) count d) (λ x d. Unit {0}) (requeue_entry P pos c)
  unfolding requeue_entry
  requeue_entry-Rests pos count c b h =
      Ends-if ((entry_at c.index pos).state == state_in_flight) _ _ _ (λ x d. Unit {0})
        (λ flying.
          Ends-map (append_state_update_locked P pos state_pending _) _ _ _ (λ x d. Unit {0})
            (append_state_update_locked-Ends pos state_pending _)
            (λ a d (e, p, set). Rests-requeued pos count c e d b h p set) (λ x d q. tt))
        (λ resting. (
          IsRestedTo-next pos c.index c.index h.0 (λ i earlier. refl)
              (λ same. absurd (ground (arith, resting, same))),
          h.1,
        ))

  requeue_in_flight-Ends :
      (left pos count : ℕ) (c : Ctx Flash)
      → pos + left ≡ count
      → Rests pos count c
      → Ends (λ a d. IsRested d.index) (λ x d. Unit {0}) (requeue_in_flight P left pos c)
  unfolding requeue_in_flight
  requeue_in_flight-Ends zero pos count c sum (h, n) =
      IsRested-all c.index (λ i b. h i (omega (arith, n, sum)))
  requeue_in_flight-Ends (suc left) pos count c sum h =
      Ends-bind (requeue_entry P pos) _ c (λ a d. Rests (pos + 1) count d) (λ a d. IsRested d.index)
        (λ x d. Unit {0}) (requeue_entry-Rests pos count c (omega arith) h)
        (λ a d k. requeue_in_flight-Ends left (pos + 1) count d (omega arith) k)

  scan_region-Ends :
      (region generation : ℕ) (c : Ctx Flash)
      → Ends (λ a d. IsRested d.index) (λ x d. Unit {0}) (scan_region P region generation c)
  unfolding scan_region
  scan_region-Ends region generation c =
      let d : Ctx Flash = load_region P region generation c in
      requeue_in_flight-Ends (length d.index) 0 (length d.index) d (omega arith)
        (λ i b. absurd (omega arith), refl)

  start_fresh-Ends :
      (c : Ctx Flash) → Ends (λ a d. IsRested d.index) (λ x d. Unit {0}) (start_fresh P c)
  unfolding start_fresh
  start_fresh-Ends c =
      Ends-bind (erase_region P 0) _ c (λ a d. Unit {0}) _ (λ x d. Unit {0}) (Ends-Anything _)
        λ a c₁ p.
          Ends-bind (erase_region P 1) _ c₁ (λ a d. Unit {0}) _ (λ x d. Unit {0}) (Ends-Anything _)
            λ b c₂ q.
              Ends-bind (partition_write_verify P _ _) _ c₂ (λ a d. Unit {0}) _ (λ x d. Unit {0})
                (Ends-Anything _) (λ e c₃ r. tt)

  -- op_recover, over any partition: if it succeeds, no entry of the index is IN_FLIGHT.
  pub recover-IsRested :
      (c : Ctx Flash) → Ends (λ a d. IsRested d.index) (λ x d. Unit {0}) (recover P c)
  unfolding recover resume
  recover-IsRested c =
      Ends-option
        (choose_region (active_generation_of (header_of_region P 0 c))
          (active_generation_of (header_of_region P 1 c)))
        _ _ (λ a d. IsRested d.index) (λ x d. Unit {0}) (λ fresh. start_fresh-Ends c)
        λ chosen e.
          Ends-bind (ensure_region_erased P _) _ c (λ a d. Unit {0}) _ (λ x d. Unit {0})
            (Ends-Anything _) (λ a d p. scan_region-Ends chosen.0 chosen.1 d)
