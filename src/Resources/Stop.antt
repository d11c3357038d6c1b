-- ===== src/Resources/Stop.antt =====
-- edgesync_worker_stop beside the end of worker_task: the two run in different tasks.
use edgesync_espidf.Prelude.{◌≡◌, refl, Bool, true, false, ◌&&◌, List, [], ◌∷◌, ◌++◌, if◌then◌else◌}
use edgesync_espidf.Resources.{
  Resource, Step, worker_stop_request, worker_stop_rest, worker_task_end,
}
use edgesync_espidf.Resources.Ledger.{Ending, same, holds, run_steps, and_true}
use edgesync_espidf.Resources.Balance.{worker_resources}

-- The orders in which the steps of two tasks can come.
pub data Merges : List Step → List Step → List Step → Type 0 where
  done : Merges [] [] []
  left : {s : Step} {xs ys zs : List Step} → Merges xs ys zs → Merges (s ∷ xs) ys (s ∷ zs)
  right : {s : Step} {xs ys zs : List Step} → Merges xs ys zs → Merges xs (s ∷ ys) (s ∷ zs)

-- A test of all orders.
abbrev check : (List Step → Bool) → List Step → List Step → Bool
check f [] [] = f []
check f (x ∷ xs) [] = check (λ t. f (x ∷ t)) xs []
check f [] (y ∷ ys) = check (λ t. f (y ∷ t)) [] ys
check f (x ∷ xs) (y ∷ ys) = check (λ t. f (x ∷ t)) xs (y ∷ ys) && check (λ t. f (y ∷ t)) (x ∷ xs) ys

check_lem :
    (f : List Step → Bool) (xs ys t : List Step)
    → Merges xs ys t
    → check f xs ys ≡ true
    → f t ≡ true
check_lem f [] [] _ Merges.done h = h
check_lem f (x ∷ xs) [] _ (Merges.left {zs = t} m) h = check_lem (λ t. f (x ∷ t)) xs [] t m h
check_lem f (x ∷ xs) (y ∷ ys) _ (Merges.left {zs = t} m) h =
    check_lem (λ t. f (x ∷ t)) xs (y ∷ ys) t m (and_true _ _ h).0
check_lem f [] (y ∷ ys) _ (Merges.right {zs = t} m) h = check_lem (λ t. f (y ∷ t)) [] ys t m h
check_lem f (x ∷ xs) (y ∷ ys) _ (Merges.right {zs = t} m) h =
    check_lem (λ t. f (y ∷ t)) (x ∷ xs) ys t m (and_true _ _ h).1

-- xTaskNotifyGive and vTaskDelete of the task, xSemaphoreGive and xSemaphoreTake of `stopped_sem`.
abbrev notifies : Step → Bool
notifies (Step.uses r) = same r Resource.task
notifies s = false

abbrev deletes_task : Step → Bool
deletes_task (Step.gives_back r) = same r Resource.task
deletes_task s = false

abbrev signals : Step → Bool
signals (Step.takes r) = same r Resource.signal
signals s = false

abbrev waits : Step → Bool
waits (Step.awaits r) = same r Resource.signal
waits s = false

abbrev comes_first : (Step → Bool) → (Step → Bool) → List Step → Bool
comes_first p q [] = false
comes_first p q (s ∷ ss) = if p s then true else if q s then false else comes_first p q ss

abbrev is_faulty : Ending → Bool
is_faulty Ending.faulty = true
is_faulty ending = false

abbrev is_blocked : Ending → Bool
is_blocked Ending.blocked = true
is_blocked ending = false

-- What edgesync_worker_stop of a worker that runs ends in.
abbrev pub stops_as_said : List Step → Bool
stops_as_said t =
    let ending : Ending = run_steps (worker_stop_request ++ t) worker_resources in
    if comes_first deletes_task notifies t
    then is_faulty ending
    else if comes_first signals waits t
    then holds [] ending
    else is_blocked ending

-- In every order in which the steps of edgesync_worker_stop behind its request can mix with those
-- of the end of worker_task: if the task is deleted before edgesync_worker_stop notifies it, the
-- notification goes to a task that is not there; otherwise, if the task signals its end before the
-- wait, everything that the worker took is given back, and no step names what is not there; and
-- otherwise the wait blocks.
pub worker_stop_lem :
    (t : List Step) → Merges worker_stop_rest worker_task_end t → stops_as_said t ≡ true
worker_stop_lem t m = check_lem stops_as_said worker_stop_rest worker_task_end t m refl
