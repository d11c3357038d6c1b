-- ===== src/Flashq/Tests.antt =====
-- Runs of the flash queue over the partition in memory.
use edgesync_espidf.Prelude.{
  none, ◌≤◌, ℕ, inr, inl, ◌≡◌, ◌⊎◌, ◌<◌, refl, true, some, List, [], ◌∷◌, length, All, arith, ◌+◌,
  leb, leb→le, Bool-cases,
}
use edgesync_espidf.Types.{EspErr, OverflowPolicy}
use edgesync_espidf.Queue.Contract.{KeepsMessages}
use edgesync_espidf.Flashq.Context.{Entry}
use edgesync_espidf.Flashq.Memory.{memory, first, second, blank, one_entry}
use edgesync_espidf.Action.Outcome.{Ends}
use edgesync_espidf.Flashq.Frame.{Frame, Frames}
use edgesync_espidf.Flashq.Frame.Compact.{compact_locked-Frames}
use edgesync_espidf.Flashq.Compaction.{compact_locked}
use edgesync_espidf.Flashq.Helpers.{append_locked}
use edgesync_espidf.Flashq.Written.{IsAppended, SameButFlash, append_locked-Ends}
use edgesync_espidf.Flashq.Enqueue.{IsEnqueued, enqueue_outcome}
use edgesync_espidf.Flashq.Select.{pick_claim, pick_loop, pick_drop}
use edgesync_espidf.Flashq.Select.Best.{IsTimed}
use edgesync_espidf.Flashq.Select.Choice.{
  IsDue, IsPending, GoesBefore, DropsBefore, IsChoice, pick_claim-IsChoice, pick_drop-IsChoice,
}
use edgesync_espidf.Flashq.Create.{create, Created, create_outcome}
use edgesync_espidf.Flashq.Scan.{load_region}
use edgesync_espidf.Flashq.Scan.Stops.{IsBounded, IsStopped, load_region-IsStopped}
use edgesync_espidf.Flashq.Ops.{enqueue, new_entry}
use edgesync_espidf.Flashq.Table.{flashq_ops}
use edgesync_espidf.Flashq.Kept.{FlashqHolds, flashq_KeepsMessages}

enqueue_outcome_example :
    Ends
      (λ a c'. (length blank.index < blank.index_capacity) × IsEnqueued memory blank c' first)
      (λ e c'.
        Frame blank c'
        × ((length blank.index < blank.index_capacity) ⊎ ((e ≡ EspErr.queue_full) × (c' ≡ blank))))
      (enqueue memory first blank)
enqueue_outcome_example =
    enqueue_outcome memory first blank
      (record {
        id_fits = omega arith;
        created_fits = omega arith;
        payload_len_fits = omega arith;
        payload_there = omega arith;
      })
      (omega arith)

append_locked-Ends_example :
    Ends
      (λ a c'. IsAppended memory blank c' (1 ∷ 2 ∷ []))
      (λ e c'. SameButFlash memory blank c' × (e ≡ EspErr.storage_err))
      (append_locked memory (1 ∷ 2 ∷ []) blank)
append_locked-Ends_example = append_locked-Ends memory (1 ∷ 2 ∷ []) blank

compact_locked-Frames_example : Frames (compact_locked memory)
compact_locked-Frames_example = compact_locked-Frames memory

flashq_KeepsMessages_example : KeepsMessages (flashq_ops memory true) (FlashqHolds memory)
flashq_KeepsMessages_example = flashq_KeepsMessages memory true

abbrev two : List Entry
two = new_entry first 4096 ∷ new_entry second 4168 ∷ []

two-IsTimed : All IsTimed two
two-IsTimed = (
  record { next_retry_fits = omega arith; created_fits = omega arith },
  (record { next_retry_fits = omega arith; created_fits = omega arith }, tt),
)

pick_claim-IsChoice_example : IsChoice (IsDue 5000) GoesBefore two (pick_claim 5000 two)
pick_claim-IsChoice_example = pick_claim-IsChoice 5000 two two-IsTimed

pick_drop-IsChoice_example :
    IsChoice IsPending
      (DropsBefore OverflowPolicy.drop_oldest)
      two
      (pick_drop OverflowPolicy.drop_oldest two)
pick_drop-IsChoice_example = pick_drop-IsChoice OverflowPolicy.drop_oldest two two-IsTimed

-- Claims take the message of the higher priority.
claims_second : pick_claim 5000 two ≡ some (1, new_entry second 4168)
unfolding pick_claim pick_loop
claims_second = refl

-- A partition of four sectors.
create_outcome_example :
    Created 2 128 (some (16384, blank.flash)) true (create 2 128 (some (16384, blank.flash)) true)
create_outcome_example =
    create_outcome 2 128 (some (16384, blank.flash)) true (omega arith) (omega arith)

no_bytes : {xs : List ℕ} → ¬ (none ≡ some xs)
no_bytes e = absurd (cc)

memory_bounded : IsBounded memory 16384
memory_bounded = record { inside = λ f offset len bytes e. inside f offset len bytes e }
  where
    inside :
        (f : ℕ → ℕ) (offset len : ℕ) (bytes : List ℕ)
        → memory.read f offset len ≡ some bytes
        → offset + len ≤ 16384
    inside f offset len bytes e = elim (Bool-cases (leb (offset + len) 16384)) [
      | inl fits ↦ leb→le (offset + len) 16384 fits
      | inr over ↦ absurd (no_bytes (rw over at e))
    ]

load_region-IsStopped_example :
    IsStopped memory 16384 one_entry 0 (load_region memory 0 1 one_entry).cursor
load_region-IsStopped_example =
    load_region-IsStopped memory 16384 memory_bounded (omega arith) 0 1 one_entry (omega arith)
