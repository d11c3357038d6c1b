-- ===== src/Flashq/Context.antt =====
-- The state of the backend (flashq_index_entry_t, edgesync_flashq_ctx_t). The operations are actions on it.
use edgesync_espidf.Prelude.{ℕ, List}
use edgesync_espidf.Action
pub use edgesync_espidf.Action.{ok, fail, pure, raise, ◌>>=◌, ◌>>◌, state_of, gets, modify}

-- flashq_index_entry_t
pub record Entry : Type 0 where
  pub id : ℕ
  pub state : ℕ
  pub priority : ℕ
  pub destination_len : ℕ
  pub attempt_count : ℕ
  pub payload_len : ℕ
  pub message_offset : ℕ
  pub created_at_us : ℕ
  pub last_attempt_at_us : ℕ
  pub next_retry_at_us : ℕ
  pub last_error : ℕ

-- edgesync_flashq_ctx_t. The scratch buffers hold nothing between two calls, and the index array is
-- the list of its first `index_count` entries.
pub record Ctx (F : Type 0) : Type 0 where
  pub flash : F
  pub region_size : ℕ
  pub data_start : ℕ
  pub data_capacity : ℕ
  pub active_region : ℕ
  pub active_generation : ℕ
  pub cursor : ℕ
  pub next_seq : ℕ
  pub index : List Entry
  pub index_capacity : ℕ
  pub max_message_size : ℕ
  pub scratch_size : ℕ
  pub compactions_total : ℕ
  pub awaiting_gc_count : ℕ
  pub updates_since_compaction : ℕ

-- Actions on the backend.
abbrev pub Res : Type 0 → Type 0 → Type 0
Res F A = Action.Res (Ctx F) A

abbrev pub M : Type 0 → Type 0 → Type 0
M F A = Action.M (Ctx F) A
