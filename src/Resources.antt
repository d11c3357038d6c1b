-- ===== src/Resources.antt =====
-- What the parts take from the heap, FreeRTOS, NVS and esp_mqtt, and give back: the constructors and destructors of
-- edgesync_queue.c, edgesync_worker.c, edgesync_mqtt.c, edgesync_storage_flashq.c and edgesync_storage_nvs.c under
-- components/edgesync/src/. Which of the requests are granted is a parameter.

pub mod Ledger
pub mod Balance
pub mod Stop
mod Tests
use edgesync_espidf.Prelude.{
  ℕ, Bool, true, false, not, ◌&&◌, ◌||◌, List, [], ◌∷◌, ◌++◌, ◌==◌, if◌then◌else◌,
}
use edgesync_espidf.Types.{EspErr}
use edgesync_espidf.Lifecycle.Init.{StorageType, flashq, nvs, custom, unknown}

-- `context` is the block of the part itself; `wake_cb` is the callback that the queue holds for the worker,
-- and `signal` a semaphore that was given and not taken yet.
pub data Resource : Type 0 where
  context index write_scratch verify_scratch claim_scratch scratch slot_used lock : Resource
  stopped_sem task wake_cb signal nvs_handle client ack_queue : Resource

-- A call that takes a resource, gives it back, needs it, or waits until it is there and takes it away;
-- `requests_stop` is an assignment to `stop_requested`.
pub data Step : Type 0 where
  takes : Resource → Step
  gives_back : Resource → Step
  uses : Resource → Step
  awaits : Resource → Step
  requests_stop : Step

-- A request that may be refused: what then is done, or the rest.
abbrev pub request :
    (Resource → Bool) → Resource → EspErr × List Step → EspErr × List Step → EspErr × List Step
request a r refused rest = if a r then (rest.0, takes r ∷ rest.1) else refused

-- The blocks of a list that are granted.
abbrev pub allocate : (Resource → Bool) → List Resource → List Step
allocate a [] = []
allocate a (r ∷ rs) = if a r then takes r ∷ allocate a rs else allocate a rs

abbrev pub all_granted : (Resource → Bool) → List Resource → Bool
all_granted a [] = true
all_granted a (r ∷ rs) = a r && all_granted a rs

-- `free` of pointers that are NULL where the block is not there.
abbrev pub frees : (Resource → Bool) → List Resource → List Step
frees there [] = []
frees there (r ∷ rs) = if there r then gives_back r ∷ frees there rs else frees there rs

-- edgesync_queue_create; `given` says that no argument is NULL.
unfoldable pub queue_create : Bool → (Resource → Bool) → EspErr × List Step
queue_create given a =
    if given
    then request a context (EspErr.no_mem, [])
        (request a lock (EspErr.no_mem, gives_back context ∷ []) (EspErr.esp_ok, []))
    else (EspErr.invalid_arg, [])

-- edgesync_queue_destroy of a queue whose fields are `there` or NULL.
unfoldable pub queue_destroy : (Resource → Bool) → List Step
queue_destroy there =
    if there context then frees there (lock ∷ []) ++ gives_back context ∷ [] else []

-- The semaphore and the task of edgesync_worker_start, and the callback for the queue.
unfoldable pub worker_launch : (Resource → Bool) → EspErr × List Step
worker_launch a =
    request a stopped_sem (EspErr.no_mem, gives_back context ∷ [])
      (request a task (EspErr.no_mem, gives_back stopped_sem ∷ gives_back context ∷ [])
        (EspErr.esp_ok, takes wake_cb ∷ []))

-- edgesync_worker_start
unfoldable pub worker_start : Bool → (Resource → Bool) → EspErr × List Step
worker_start given a =
    if given
    then request a context (EspErr.no_mem, []) (worker_launch a)
    else (EspErr.invalid_arg, [])

-- edgesync_worker_stop: up to the assignment to `stop_requested`, and from there on.
abbrev pub worker_stop_request : List Step
worker_stop_request = gives_back wake_cb ∷ requests_stop ∷ []

abbrev pub worker_stop_rest : List Step
worker_stop_rest = uses task ∷ awaits signal ∷ gives_back stopped_sem ∷ gives_back context ∷ []

-- The end of worker_task, which reads `stopped_sem` from the worker's block.
abbrev pub worker_task_end : List Step
worker_task_end = uses context ∷ uses stopped_sem ∷ takes signal ∷ gives_back task ∷ []

-- The client and the queue of edgesync_mqtt_transport_create.
unfoldable pub mqtt_connection : (Resource → Bool) → EspErr × List Step
mqtt_connection a =
    request a client (EspErr.transport, gives_back context ∷ [])
      (request a ack_queue (EspErr.no_mem, gives_back client ∷ gives_back context ∷ [])
        (EspErr.esp_ok, []))

-- edgesync_mqtt_transport_create
unfoldable pub mqtt_create : Bool → (Resource → Bool) → EspErr × List Step
mqtt_create given a =
    if given
    then request a context (EspErr.no_mem, []) (mqtt_connection a)
    else (EspErr.transport, [])

-- op_init and op_close of the MQTT transport, with what the calls of the client return.
unfoldable pub mqtt_init : EspErr → EspErr → EspErr × List Step
mqtt_init EspErr.esp_ok started = (started, uses client ∷ uses client ∷ [])
mqtt_init registered started = (registered, uses client ∷ [])

unfoldable pub mqtt_close : EspErr → EspErr × List Step
mqtt_close stopped = (stopped, uses client ∷ [])

-- edgesync_mqtt_transport_destroy
unfoldable pub mqtt_destroy : (Resource → Bool) → List Step
mqtt_destroy there =
    if there context then frees there (client ∷ ack_queue ∷ []) ++ gives_back context ∷ [] else []

-- edgesync_flashq_destroy, and the allocations of edgesync_flashq_create.
abbrev pub flashq_blocks : List Resource
flashq_blocks = index ∷ write_scratch ∷ verify_scratch ∷ claim_scratch ∷ []

unfoldable pub flashq_destroy : (Resource → Bool) → List Step
flashq_destroy there =
    if there context then frees there flashq_blocks ++ gives_back context ∷ [] else []

unfoldable pub flashq_allocate_blocks : (Resource → Bool) → EspErr × List Step
flashq_allocate_blocks a =
    if all_granted a flashq_blocks
    then (EspErr.esp_ok, allocate a flashq_blocks)
    else (EspErr.no_mem, allocate a flashq_blocks ++ flashq_destroy a)

unfoldable pub flashq_allocate : (Resource → Bool) → EspErr × List Step
flashq_allocate a = request a context (EspErr.no_mem, []) (flashq_allocate_blocks a)

-- op_init of both backends, which makes the mutex.
unfoldable pub storage_init : (Resource → Bool) → EspErr × List Step
storage_init a = request a lock (EspErr.no_mem, []) (EspErr.esp_ok, [])

-- op_close of the flash queue.
unfoldable pub flashq_close : (Resource → Bool) → List Step
flashq_close there = if there lock then gives_back lock ∷ [] else []

-- edgesync_nvs_storage_destroy, and edgesync_nvs_storage_create behind the test of its arguments.
abbrev pub nvs_blocks : List Resource
nvs_blocks = slot_used ∷ index ∷ scratch ∷ claim_scratch ∷ []

unfoldable pub nvs_destroy : (Resource → Bool) → List Step
nvs_destroy there = if there context then frees there nvs_blocks ++ gives_back context ∷ [] else []

unfoldable pub nvs_allocate_blocks : (Resource → Bool) → EspErr × List Step
nvs_allocate_blocks a =
    if all_granted a nvs_blocks
    then (EspErr.esp_ok, allocate a nvs_blocks)
    else (EspErr.no_mem, allocate a nvs_blocks ++ nvs_destroy a)

unfoldable pub nvs_allocate : (Resource → Bool) → EspErr × List Step
nvs_allocate a =
    request a context (EspErr.no_mem, [])
      (request a nvs_handle (EspErr.storage_err, gives_back context ∷ []) (nvs_allocate_blocks a))

-- op_close of the NVS backend.
unfoldable pub nvs_close : (Resource → Bool) → List Step
nvs_close there = gives_back nvs_handle ∷ (if there lock then gives_back lock ∷ [] else [])

-- edgesync_storage_destroy: `close` of the table, if there is one, and the backend's own destructor.
-- `closes` are the steps of that `close`.
unfoldable pub storage_destroy : StorageType → List Step → (Resource → Bool) → List Step
storage_destroy storage closes there = closes ++ elim storage [
  | flashq ↦ flashq_destroy there
  | nvs ↦ nvs_destroy there
  | custom ↦ []
  | unknown ↦ []
]

-- The allocation of edgesync_http_transport_create, behind the test of its arguments.
unfoldable pub http_allocate : (Resource → Bool) → EspErr × List Step
http_allocate a = request a context (EspErr.no_mem, []) (EspErr.esp_ok, [])

-- edgesync_http_transport_destroy
unfoldable pub http_destroy : (Resource → Bool) → List Step
http_destroy there = frees there (context ∷ [])

-- edgesync_transport_destroy: `close` of the table, and the destructor of the HTTP transport, unless the
-- application gave the transport.
unfoldable pub transport_destroy : Bool → List Step → (Resource → Bool) → List Step
transport_destroy has_transport_ops closes there =
    closes ++ (if has_transport_ops then [] else http_destroy there)
