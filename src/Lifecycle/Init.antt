-- ===== src/Lifecycle/Init.antt =====
-- edgesync_init: the defaults, the order in which the parts are made, and the clean-up of a failure; with
-- the dispatch of edgesync_storage.c and edgesync_transport.c.
pub mod Cleanup
use edgesync_espidf.Prelude.{
  ℕ, Bool, true, false, Option, none, some, List, [], ◌∷◌, ◌++◌, ◌==◌, if◌then◌else◌,
}
use edgesync_espidf.Types.{EspErr, OverflowPolicy}
use edgesync_espidf.Retry.{RetryConfig, apply_defaults}
use edgesync_espidf.Queue.{is_ok}

-- edgesync_storage_type_t; a value of none of its constants is `unknown`.
pub data StorageType : Type 0 where
  flashq nvs custom unknown : StorageType

-- edgesync_config_t: the fields that edgesync_init and the dispatch read.
pub record Config : Type 0 where
  pub storage : StorageType
  pub has_storage_ops : Bool
  pub max_queue_size : ℕ
  pub max_message_size : ℕ
  pub overflow_policy : OverflowPolicy
  pub retry_initial_ms : ℕ
  pub retry_max_ms : ℕ
  pub retry_multiplier : ℕ
  pub retry_jitter : Bool
  pub retry_max_attempts : ℕ
  pub has_transport_ops : Bool

-- The Kconfig defaults.
abbrev pub default_max_queue_size : ℕ
default_max_queue_size = 256

abbrev pub default_max_message_size : ℕ
default_max_message_size = 2048

abbrev pub default_retry_initial_ms : ℕ
default_retry_initial_ms = 1000

abbrev pub default_retry_max_ms : ℕ
default_retry_max_ms = 300000

abbrev pub effective : ℕ → ℕ → ℕ
effective configured default = if configured == 0 then default else configured

-- The retry configuration of the handle.
unfoldable pub retry_config_of : Config → RetryConfig
retry_config_of config =
    apply_defaults
      (record {
        initial_delay_ms = config.retry_initial_ms;
        max_delay_ms = config.retry_max_ms;
        multiplier = config.retry_multiplier;
        jitter = config.retry_jitter;
        max_attempts = config.retry_max_attempts;
      })
      default_retry_initial_ms default_retry_max_ms 2

-- What the calls that are not the dispatch's own return: calloc of the handle, the constructors of the
-- two backends and of the HTTP transport, the `init` of the transport's table, edgesync_queue_create
-- and edgesync_queue_recover. `transport_init` is `none` if the table has no `init`.
pub record Answers : Type 0 where
  pub has_memory : Bool
  pub flashq_create : EspErr
  pub nvs_create : EspErr
  pub http_create : EspErr
  pub transport_init : Option EspErr
  pub queue_create : EspErr
  pub recover : EspErr

-- What edgesync_init makes and gives back.
pub data Part : Type 0 where
  handle storage transport queue : Part

pub data Action : Type 0 where
  makes : Part → Action
  destroys : Part → Action

-- edgesync_storage_create
unfoldable pub storage_create : Config → Answers → EspErr
storage_create config a = elim config.storage [
  | flashq ↦ a.flashq_create
  | nvs ↦ a.nvs_create
  | custom ↦ if config.has_storage_ops then EspErr.esp_ok else EspErr.invalid_arg
  | unknown ↦ EspErr.invalid_arg
]

-- edgesync_transport_create
unfoldable pub transport_create : Config → Answers → EspErr
transport_create config a = if config.has_transport_ops then EspErr.esp_ok else a.http_create

-- `ctx->transport_ops->init(ctx->transport_ctx)`, if there is one.
abbrev pub init_of : Option EspErr → EspErr
init_of none = EspErr.esp_ok
init_of (some err) = err

-- A call of edgesync_init that may fail, what is destroyed then, and the rest.
unfoldable pub attempt : EspErr → List Action → EspErr × List Action → EspErr × List Action
attempt err cleanup rest = if is_ok err then rest else (err, cleanup)

abbrev pub before : List Action → EspErr × List Action → EspErr × List Action
before actions r = (r.0, actions ++ r.1)

-- edgesync_init, for arguments that are not NULL: the code, and what was made and destroyed, in order.
unfoldable pub init : Config → Answers → EspErr × List Action
init config a =
    if a.has_memory
    then before (makes handle ∷ []) (
        attempt (storage_create config a) (destroys handle ∷ []) (
          before (makes storage ∷ []) (
            attempt (transport_create config a) (destroys storage ∷ destroys handle ∷ []) (
              before (makes transport ∷ []) (
                attempt (init_of a.transport_init)
                  (destroys transport ∷ destroys storage ∷ destroys handle ∷ [])
                  (attempt a.queue_create
                    (destroys transport ∷ destroys storage ∷ destroys handle ∷ [])
                    (before (makes queue ∷ []) (
                      attempt a.recover
                        (destroys queue
                          ∷ destroys transport
                          ∷ destroys storage
                          ∷ destroys handle
                          ∷ [])
                        (EspErr.esp_ok, [])))))))))
    else (EspErr.no_mem, [])

-- What edgesync_deinit destroys of a stopped handle, in order.
abbrev pub deinit_actions : List Action
deinit_actions = destroys queue ∷ destroys transport ∷ destroys storage ∷ destroys handle ∷ []
