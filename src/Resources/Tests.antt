-- ===== src/Resources/Tests.antt =====
-- Constructors with a block refused, and a worker that is stopped while it waits for a message.
use edgesync_espidf.Prelude.{◌≡◌, Bool, true, not, List, [], ◌∷◌}
use edgesync_espidf.Resources.{Resource, Step, worker_stop_rest, worker_task_end}
use edgesync_espidf.Resources.Ledger.{same}
use edgesync_espidf.Resources.Balance.{
  queue_life, mqtt_life, http_life, flashq_life, nvs_life, worker_life, constructors-leave_nothing,
}
use edgesync_espidf.Resources.Stop.{Merges, stops_as_said, worker_stop_lem}

abbrev all_but_index : Resource → Bool
all_but_index r = not (same r Resource.index)

constructors-leave_nothing_example :
    (queue_life all_but_index ≡ true)
    × (mqtt_life all_but_index ≡ true)
    × (http_life all_but_index ≡ true)
    × (flashq_life all_but_index ≡ true)
    × (nvs_life all_but_index ≡ true)
    × (worker_life all_but_index ≡ true)
constructors-leave_nothing_example = constructors-leave_nothing all_but_index

-- The notification, the end of the task, and the rest.
abbrev waiting_worker : List Step
waiting_worker =
    Step.uses Resource.task
    ∷ Step.uses Resource.context
    ∷ Step.uses Resource.stopped_sem
    ∷ Step.takes Resource.signal
    ∷ Step.awaits Resource.signal
    ∷ Step.gives_back Resource.stopped_sem
    ∷ Step.gives_back Resource.task
    ∷ Step.gives_back Resource.context
    ∷ []

waiting_worker-Merges : Merges worker_stop_rest worker_task_end waiting_worker
waiting_worker-Merges = Merges.left (
    Merges.right (
      Merges.right
        (Merges.right (Merges.left (Merges.left (Merges.right (Merges.left Merges.done)))))))

worker_stop_lem_example : stops_as_said waiting_worker ≡ true
worker_stop_lem_example = worker_stop_lem waiting_worker waiting_worker-Merges
