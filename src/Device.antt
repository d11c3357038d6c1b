-- ===== src/Device.antt =====
-- The parts together: the queue and the worker over each of the two backends, as components/edgesync/src/edgesync.c joins them.
mod Tests
use edgesync_espidf.Prelude.{ℕ, ◌≡◌, ◌⊎◌, Bool, true, List}
use edgesync_espidf.Types.{EventId}
use edgesync_espidf.Queue.{StorageOps, Queue}
use edgesync_espidf.Queue.NoLoss.{Notified}
use edgesync_espidf.Worker.{Worker}
use edgesync_espidf.Worker.AtLeastOnce.{Step, run, run_keeps}
use edgesync_espidf.Flashq.Partition.{Partition}
use edgesync_espidf.Flashq.Context.{Ctx}
use edgesync_espidf.Flashq.Table.{flashq_ops}
use edgesync_espidf.Flashq.Kept.{FlashqHolds, flashq_KeepsMessages}
use edgesync_espidf.Nvs
use edgesync_espidf.Nvs.{Nvs}
use edgesync_espidf.Nvs.Table.{nvs_ops}
use edgesync_espidf.Nvs.Kept.{NvsHolds, nvs_KeepsMessages}

module _ (P : Partition) where
  open P use {Flash}

  -- No message goes missing silently. Over the flash queue, on any partition, with the event callback set: if the
  -- index has a message at the start, then after any sequence of publishes, claims and handled outcomes
  -- of claims, whatever the transport answers and whichever reads, writes and erasures of the
  -- partition fail, the index has it still, or a DELIVERED event or a QUEUE_FULL event with its id was fired.
  pub flashq_run_keeps :
      (has_mutex : Bool) (w : Worker) (steps : List Step) (q : Queue (Ctx Flash)) (i : ℕ)
      → w.has_event_cb ≡ true
      → q.has_event_cb ≡ true
      → FlashqHolds P q.storage i
      → FlashqHolds P (run (flashq_ops P has_mutex) w steps q).1.storage i
        ⊎ Notified EventId.delivered i (run (flashq_ops P has_mutex) w steps q).0
        ⊎ Notified EventId.full i (run (flashq_ops P has_mutex) w steps q).0
  flashq_run_keeps has_mutex w steps q i on on' h =
      run_keeps (flashq_ops P has_mutex) (FlashqHolds P) (flashq_KeepsMessages P has_mutex) w steps
        q i on on' h

module _ (N : Nvs) where
  open N use {Store}

  -- No message goes missing silently from the index of the NVS backend either: over any NVS, with the event callback set, if
  -- the index has a message at the start, then after any sequence of publishes, claims and handled
  -- outcomes of claims, whatever the transport answers and whichever reads, writes, erasures and commits
  -- fail, the index has it still, or a DELIVERED event or a QUEUE_FULL event with its id was fired.
  pub nvs_run_keeps :
      (has_mutex : Bool) (w : Worker) (steps : List Step) (q : Queue (Nvs.Ctx Store)) (i : ℕ)
      → w.has_event_cb ≡ true
      → q.has_event_cb ≡ true
      → NvsHolds q.storage i
      → NvsHolds (run (nvs_ops N has_mutex) w steps q).1.storage i
        ⊎ Notified EventId.delivered i (run (nvs_ops N has_mutex) w steps q).0
        ⊎ Notified EventId.full i (run (nvs_ops N has_mutex) w steps q).0
  nvs_run_keeps has_mutex w steps q i on on' h =
      run_keeps (nvs_ops N has_mutex) NvsHolds (nvs_KeepsMessages N has_mutex) w steps q i on on' h
