-- ===== src/Flashq/Log/Claim.antt =====
-- op_claim_next over a NOR flash that holds a log.
use edgesync_espidf.Prelude.{
  ℕ, ◌+◌, ◌^◌, ◌<◌, ◌≡◌, refl, some, List, length, All, All-map, get_elem?-lt, u32, arith,
}
use edgesync_espidf.Types.{EspErr, err_code, state_in_flight, state_dead_letter}
use edgesync_espidf.Action.Outcome.{Ends, Ends-bind, Ends-map, Ends-option}
use edgesync_espidf.Format.{Header, RecordFields, rec_update}
use edgesync_espidf.Format.Records.{IsFitFields}
use edgesync_espidf.Format.Encode.{Describes}
use edgesync_espidf.Flashq.Partition.{Partition}
use edgesync_espidf.Flashq.Context.{Entry, Ctx}
use edgesync_espidf.Flashq.Helpers.{find_entry, entry_at}
use edgesync_espidf.Flashq.Compaction.{fields_of}
use edgesync_espidf.Flashq.Append.{append_state_update_locked}
use edgesync_espidf.Flashq.Scan.{updated}
use edgesync_espidf.Flashq.Select.{pick_claim, is_eligible, claims_before}
use edgesync_espidf.Flashq.Select.Best.{IsBest, IsTimed, pick_claim-IsBest}
use edgesync_espidf.Flashq.Ops.{
  read_claimed, claim_corrupt, write_claim, claim_intact, claim_at, claim_next,
}
use edgesync_espidf.Flashq.Ids.{ids-update_at}
use edgesync_espidf.Flashq.Nor.{IsNor}
use edgesync_espidf.Flashq.Log.{IsLogged}
use edgesync_espidf.Flashq.Log.Update.{Fails, IsUpdated, update_written-IsUpdated}
use edgesync_espidf.Flashq.Log.Entries.{update_at-same, All-update_at}
use edgesync_espidf.Flashq.Log.Updated.{AllFit, IsLogged-update}
use edgesync_espidf.Flashq.Log.Distinct.{find_entry-distinct}
use edgesync_espidf.Flashq.Log.Calls.{HasRoom, entry-fits, assigned-IsLogged}

-- What the UPDATE record of a claim sets in the entry that it was made from.
updated-claim :
    (hdr : Header) (e : Entry) (attempts now_us seq : ℕ)
    → Describes hdr rec_update
        (record (fields_of e) {
          state = state_in_flight;
          attempt_count = attempts;
          last_attempt_at_us = now_us;
        })
        seq
        0
        0
    → updated hdr e
      ≡ record e { state = state_in_flight; attempt_count = attempts; last_attempt_at_us = now_us }
updated-claim hdr e attempts now_us seq d = λ i. record e {
  state = d.state_is i;
  attempt_count = d.attempt_count_is i;
  last_attempt_at_us = d.last_attempt_at_us_is i;
  next_retry_at_us = d.next_retry_at_us_is i;
  last_error = d.last_error_is i;
}

module _ (P : Partition) (size : ℕ) (byte : P.Flash → ℕ → ℕ) (nor : IsNor P size byte) where
  open P use {Flash}

  module _ (pos : ℕ) (c : Ctx Flash) (v : IsLogged P size byte c) (r : HasRoom c)
      (bound : pos < length c.index)
      (known : find_entry c.index (entry_at c.index pos).id ≡ some pos) where
    write_claim-IsLogged :
        (attempts now_us : ℕ)
        → attempts < 2 ^ 32
        → now_us < 2 ^ 64
        → Ends (λ a d. IsLogged P size byte d) Fails (write_claim P pos attempts now_us c)
    unfolding write_claim
    write_claim-IsLogged attempts now_us few time =
        let fields : Entry → RecordFields = λ e. record (fields_of e) {
          state = state_in_flight;
          attempt_count = attempts;
          last_attempt_at_us = now_us;
        } in
        let f : Entry → Entry = λ e. record e {
          state = state_in_flight;
          attempt_count = attempts;
          last_attempt_at_us = now_us;
        } in
        let fit : IsFitFields (fields_of (entry_at c.index pos)) =
          entry-fits P size byte nor c pos v in
        Ends-map (write_claim P pos attempts now_us c)
          (λ a d. IsUpdated P size byte nor c d v.scanned pos fields f)
          (λ a d. IsLogged P size byte d) Fails Fails
          (update_written-IsUpdated P size byte nor c v.scanned v.held v.off_is v.placed pos fields
            (omega (arith, fit)) v.seq_fits f r.roomy)
          (λ a d u.
            IsLogged-update P size byte nor c v c.index pos fields f d u known
              (λ hdr des.
                update_at-same c.index pos (updated hdr) f
                  (updated-claim hdr (entry_at c.index pos) attempts now_us c.next_seq des))
              r.seq_left
              (All-update_at (λ (e : Entry). IsFitFields (fields_of e)) c.index pos f
                (omega (arith, fit)) v.entries_fit)
              (ids-update_at c.index pos f (λ e. refl)) refl)
          (λ e d h. tt)

    claim_intact-IsLogged :
        (now_us : ℕ) (bytes : List ℕ)
        → now_us < 2 ^ 64
        → Ends (λ a d. IsLogged P size byte d) Fails (claim_intact P pos now_us bytes c)
    unfolding claim_intact
    claim_intact-IsLogged now_us bytes time =
        let attempts : ℕ = u32 ((entry_at c.index pos).attempt_count + 1) in
        Ends-bind (write_claim P pos attempts now_us) _ c (λ a d. IsLogged P size byte d)
          (λ a d. IsLogged P size byte d) Fails
          (write_claim-IsLogged attempts now_us (omega arith) time) (λ a d w. w)

    claim_corrupt-IsLogged : Ends (λ a d. IsLogged P size byte d) Fails (claim_corrupt P pos c)
    unfolding claim_corrupt err_code
    claim_corrupt-IsLogged =
        let fit : IsFitFields (fields_of (entry_at c.index pos)) =
          entry-fits P size byte nor c pos v in
        Ends-bind (append_state_update_locked P pos state_dead_letter) _ _
          (λ a d. IsLogged P size byte d) (λ a d. IsLogged P size byte d) Fails
          (assigned-IsLogged P size byte nor
            (λ e. record e { last_error = err_code EspErr.storage_corrupt }) state_dead_letter pos c
            (λ hdr e. refl) (λ e. refl) (omega (arith, fit)) refl v r bound known)
          (λ a d w. w)

    pub claim_at-IsLogged :
        (now_us : ℕ) (best : Entry)
        → now_us < 2 ^ 64
        → Ends (λ a d. IsLogged P size byte d) Fails (claim_at P now_us pos best c)
    unfolding claim_at
    claim_at-IsLogged now_us best time =
        Ends-option (read_claimed P c best) _ _ (λ a d. IsLogged P size byte d) Fails
          (λ bad. claim_corrupt-IsLogged) (λ bytes ok. claim_intact-IsLogged now_us bytes time)

  timed : (xs : List Entry) → AllFit xs → All IsTimed xs
  timed xs v =
      All-map xs
        (λ e f. record {
          next_retry_fits = f.next_retry_at_us_fits;
          created_fits = f.created_at_us_fits;
        })
        v

  -- The entry that is picked stands in the index.
  picked-bound :
      (now_us : ℕ) (c : Ctx Flash) (pos : ℕ) (best : Entry)
      → IsLogged P size byte c
      → pick_claim now_us c.index ≡ some (pos, best)
      → pos < length c.index
  picked-bound now_us c pos best v e =
      let picked : IsBest (is_eligible now_us) claims_before c.index (some (pos, best)) =
        rw e at (pick_claim-IsBest now_us c.index (timed c.index v.entries_fit)) in
      get_elem?-lt c.index pos picked.0

  pub claim_next-IsLogged :
      (now_us : ℕ) (c : Ctx Flash)
      → now_us < 2 ^ 64
      → IsLogged P size byte c
      → HasRoom c
      → Ends (λ a d. IsLogged P size byte d) Fails (claim_next P now_us c)
  unfolding claim_next
  claim_next-IsLogged now_us c time v r =
      Ends-option (pick_claim now_us c.index) _ _ (λ a d. IsLogged P size byte d) Fails (λ e. tt)
        (λ found e.
          let bound : found.0 < length c.index = picked-bound now_us c found.0 found.1 v e in
          claim_at-IsLogged found.0 c v r bound
            (find_entry-distinct c.index found.0 v.distinct bound) now_us found.1 time)
