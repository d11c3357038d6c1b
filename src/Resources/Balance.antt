-- ===== src/Resources/Balance.antt =====
-- Every constructor with its destructor gives back what it took.
use edgesync_espidf.Prelude.{
  ◌≡◌, refl, Bool, true, false, not, ◌&&◌, List, [], ◌∷◌, ◌++◌, if◌then◌else◌,
}
use edgesync_espidf.Types.{EspErr}
use edgesync_espidf.Lifecycle.Init.{StorageType}
use edgesync_espidf.Resources.{
  Resource, worker_launch, mqtt_connection, http_destroy, flashq_allocate_blocks,
  nvs_allocate_blocks, worker_start, queue_create, queue_destroy, mqtt_create, mqtt_init,
  mqtt_close, mqtt_destroy, http_allocate, transport_destroy, flashq_blocks, flashq_allocate,
  flashq_destroy, flashq_close, storage_init, storage_destroy, nvs_blocks, nvs_allocate,
  nvs_destroy, nvs_close, all_granted,
}
use edgesync_espidf.Resources.Ledger.{leaves, every_lem, granting}

-- The constructors, each with what is done with its part until it is gone.
abbrev pub queue_life : (Resource → Bool) → Bool
queue_life a = leaves [] (queue_create true a) (queue_destroy a)

abbrev pub mqtt_life : (Resource → Bool) → Bool
mqtt_life a =
    leaves [] (mqtt_create true a)
      ((mqtt_init EspErr.esp_ok EspErr.esp_ok).1 ++ (mqtt_close EspErr.esp_ok).1 ++ mqtt_destroy a)

abbrev pub http_life : (Resource → Bool) → Bool
http_life a = leaves [] (http_allocate a) (transport_destroy false [] a)

abbrev pub flashq_life : (Resource → Bool) → Bool
flashq_life a =
    leaves [] (flashq_allocate a)
      ((storage_init a).1 ++ storage_destroy StorageType.flashq (flashq_close a) a)

-- What a worker holds while it runs.
abbrev pub worker_resources : List Resource
worker_resources = Resource.wake_cb ∷ Resource.task ∷ Resource.stopped_sem ∷ Resource.context ∷ []

abbrev pub worker_life : (Resource → Bool) → Bool
worker_life a =
    leaves
      (if a Resource.context && (a Resource.stopped_sem && a Resource.task)
        then worker_resources
        else [])
      (worker_start true a) []

-- The NVS handle, where the constructor had it and a block was refused.
abbrev pub nvs_left : (Resource → Bool) → List Resource
nvs_left a =
    if a Resource.context && (a Resource.nvs_handle && not (all_granted a nvs_blocks))
    then Resource.nvs_handle ∷ []
    else []

abbrev pub nvs_life : (Resource → Bool) → Bool
nvs_life a =
    leaves (nvs_left a) (nvs_allocate a)
      ((storage_init a).1 ++ storage_destroy StorageType.nvs (nvs_close a) a)

queue_lem : (a : Resource → Bool) → queue_life a ≡ true
unfolding queue_create queue_destroy
queue_lem a =
    every_lem (a Resource.context ∷ a Resource.lock ∷ [])
      (λ bs. queue_life (granting (Resource.context ∷ Resource.lock ∷ []) bs)) refl

mqtt_lem : (a : Resource → Bool) → mqtt_life a ≡ true
unfolding mqtt_create mqtt_connection mqtt_init mqtt_close mqtt_destroy
mqtt_lem a =
    every_lem (a Resource.context ∷ a Resource.client ∷ a Resource.ack_queue ∷ [])
      (λ bs. mqtt_life (granting (Resource.context ∷ Resource.client ∷ Resource.ack_queue ∷ []) bs))
      refl

worker_lem : (a : Resource → Bool) → worker_life a ≡ true
unfolding worker_start worker_launch
worker_lem a =
    every_lem (a Resource.context ∷ a Resource.stopped_sem ∷ a Resource.task ∷ [])
      (λ bs.
        worker_life (granting (Resource.context ∷ Resource.stopped_sem ∷ Resource.task ∷ []) bs))
      refl

http_lem : (a : Resource → Bool) → http_life a ≡ true
unfolding http_allocate http_destroy transport_destroy
http_lem a =
    every_lem (a Resource.context ∷ []) (λ bs. http_life (granting (Resource.context ∷ []) bs)) refl

flashq_lem : (a : Resource → Bool) → flashq_life a ≡ true
unfolding flashq_allocate flashq_allocate_blocks flashq_destroy flashq_close storage_init
    storage_destroy
flashq_lem a =
    every_lem
      (a Resource.context
        ∷ a Resource.lock
        ∷ a Resource.index
        ∷ a Resource.write_scratch
        ∷ a Resource.verify_scratch
        ∷ a Resource.claim_scratch
        ∷ [])
      (λ bs. flashq_life (granting (Resource.context ∷ Resource.lock ∷ flashq_blocks) bs)) refl

nvs_lem : (a : Resource → Bool) → nvs_life a ≡ true
unfolding nvs_allocate nvs_allocate_blocks nvs_destroy nvs_close storage_init storage_destroy
nvs_lem a =
    every_lem
      (a Resource.context
        ∷ a Resource.lock
        ∷ a Resource.nvs_handle
        ∷ a Resource.slot_used
        ∷ a Resource.index
        ∷ a Resource.scratch
        ∷ a Resource.claim_scratch
        ∷ [])
      (λ bs.
        nvs_life
          (granting (Resource.context ∷ Resource.lock ∷ Resource.nvs_handle ∷ nvs_blocks) bs))
      refl

-- Whichever requests to the heap, FreeRTOS, NVS and the MQTT client are refused: a queue, an MQTT
-- transport that was started and stopped, an HTTP transport and a flash queue with its mutex hold
-- nothing behind a constructor that fails, and nothing behind the destructor of what it made, and
-- no call names what was given back before. The NVS backend does so too, but that its constructor
-- leaves the NVS handle open where one of its blocks is refused. A worker that could not be started
-- holds nothing, and one that runs its block, its semaphore, its task and the callback of the
-- queue.
pub constructors-leave_nothing :
    (a : Resource → Bool)
    → (queue_life a ≡ true)
      × (mqtt_life a ≡ true)
      × (http_life a ≡ true)
      × (flashq_life a ≡ true)
      × (nvs_life a ≡ true)
      × (worker_life a ≡ true)
constructors-leave_nothing a =
    (queue_lem a, mqtt_lem a, http_lem a, flashq_lem a, nvs_lem a, worker_lem a)
