-- ===== src/Flashq/Log/Rooms.antt =====
-- The last loop of scan_region over a NOR flash that holds a log.
use edgesync_espidf.Prelude.{
  ℕ, zero, suc, ◌+◌, ◌<◌, ◌≡◌, refl, List, [], ◌∷◌, length, ◌==◌, ==→eq, arith,
}
use edgesync_espidf.Types.{state_pending, state_in_flight}
use edgesync_espidf.Action.{Res, ok, fail, state_of}
use edgesync_espidf.Action.Outcome.{Ends, Ends-bind, Ends-both, Ends-if}
use edgesync_espidf.Flashq.Partition.{Partition}
use edgesync_espidf.Flashq.Context.{Entry, Ctx}
use edgesync_espidf.Flashq.Helpers.{entry_at}
use edgesync_espidf.Flashq.Compaction.{fields_of}
use edgesync_espidf.Format.Records.{IsFitFields}
use edgesync_espidf.Flashq.Scan.{requeue_entry, requeue_in_flight}
use edgesync_espidf.Flashq.Nor.{IsNor}
use edgesync_espidf.Flashq.Log.{IsLogged}
use edgesync_espidf.Flashq.Log.Update.{Fails}
use edgesync_espidf.Flashq.Log.Calls.{HasRoom, entry-fits, assigned-IsLogged}
use edgesync_espidf.Flashq.Log.Distinct.{find_entry-distinct}

-- What holds of the state of a call holds where it ends.
pub Ends-state_of :
    {S A : Type 0} (r : Res S A) (Q : S → Type 0)
    → Q (state_of r)
    → Ends (λ a d. Q d) (λ e d. Unit {0}) r
Ends-state_of (ok a c) Q h = h
Ends-state_of (fail e c) Q h = tt

-- An entry that is IN_FLIGHT is there.
in_flight_bound :
    (xs : List Entry) (pos : ℕ) → (entry_at xs pos).state ≡ state_in_flight → pos < length xs
in_flight_bound [] pos e = absurd (omega arith)
in_flight_bound (x ∷ xs) zero e = omega arith
in_flight_bound (x ∷ xs) (suc pos) e = omega (arith, in_flight_bound xs pos e)

module _ (P : Partition) where
  open P use {Flash}

  -- No compaction is due for any entry that the last loop of scan_region comes to.
  abbrev pub HasRooms : ℕ → ℕ → Ctx Flash → Type 0
  HasRooms zero pos c = Unit {0}
  HasRooms (suc left) pos c = HasRoom c × HasRooms left (pos + 1) (state_of (requeue_entry P pos c))

module _ (P : Partition) (size : ℕ) (byte : P.Flash → ℕ → ℕ) (nor : IsNor P size byte) where
  open P use {Flash}

  abbrev Logged : Unit {0} → Ctx Flash → Type 0
  Logged a d = IsLogged P size byte d

  requeue_entry-IsLogged :
      (pos : ℕ) (c : Ctx Flash)
      → IsLogged P size byte c
      → HasRoom c
      → Ends Logged Fails (requeue_entry P pos c)
  unfolding requeue_entry
  requeue_entry-IsLogged pos c v r =
      let fit : IsFitFields (fields_of (entry_at c.index pos)) =
        entry-fits P size byte nor c pos v in
      Ends-if ((entry_at c.index pos).state == state_in_flight) _ _ Logged Fails
        (λ flying.
          let bound : pos < length c.index = in_flight_bound c.index pos (==→eq _ _ flying) in
          assigned-IsLogged P size byte nor (λ e. record e { next_retry_at_us = 0 }) state_pending
            pos c (λ hdr e. refl) (λ e. refl) (omega (arith, fit)) refl v r bound
            (find_entry-distinct c.index pos v.distinct bound))
        (λ resting. v)

  pub requeue_in_flight-IsLogged :
      (left pos : ℕ) (c : Ctx Flash)
      → IsLogged P size byte c
      → HasRooms P left pos c
      → Ends Logged Fails (requeue_in_flight P left pos c)
  unfolding requeue_in_flight
  requeue_in_flight-IsLogged zero pos c v r = v
  requeue_in_flight-IsLogged (suc left) pos c v (r, rooms) =
      Ends-bind (requeue_entry P pos) _ c
        (λ a d. IsLogged P size byte d × HasRooms P left (pos + 1) d) Logged Fails
        (Ends-both (requeue_entry P pos c) Logged (λ a d. HasRooms P left (pos + 1) d) Fails Fails
          (requeue_entry-IsLogged pos c v r)
          (Ends-state_of (requeue_entry P pos c) (HasRooms P left (pos + 1)) rooms))
        (λ a d h. requeue_in_flight-IsLogged left (pos + 1) d h.0 h.1)
