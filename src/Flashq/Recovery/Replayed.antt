-- ===== src/Flashq/Recovery/Replayed.antt =====
-- What op_recover of edgesync_storage_flashq.c makes of the messages that it reads.
use mathlib.Core.List.{map}
use edgesync_espidf.Prelude.{ℕ, ◌-◌, ◌≡◌, Option, none, some, []}
use edgesync_espidf.Action.{state_of}
use edgesync_espidf.Flashq.Partition.{Partition}
use edgesync_espidf.Flashq.Context.{Ctx}
use edgesync_espidf.Flashq.Helpers.{ensure_region_erased}
use edgesync_espidf.Flashq.Frame.{cores}
use edgesync_espidf.Flashq.Scan.{load_region}
use edgesync_espidf.Flashq.Log.Requeue.{requeued}

module _ (P : Partition) where
  open P use {Flash}

  -- The index behind a recovery of `c` that goes on with the region and generation `chosen`, or with none.
  abbrev pub IsReplayed : Ctx Flash → Option (ℕ × ℕ) → Ctx Flash → Type 0
  IsReplayed c none d = d.index ≡ []
  IsReplayed c (some (region, generation)) d =
      cores d.index
      ≡ cores (
          map requeued
            (load_region P region generation
              (state_of (ensure_region_erased P (1 - region) c))).index)
