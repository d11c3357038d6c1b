-- ===== src/Nvs.antt =====
-- components/edgesync/src/edgesync_storage_nvs.c: the backend that keeps each message in one NVS blob.
-- This file has the NVS API, the context and the small helpers.
pub mod Entries
pub mod Ops
pub mod Recovery
pub mod Table
pub mod Create
pub mod Frame
pub mod Kept
pub mod Slots
pub mod Retry
pub mod Reliable
pub mod Claimed
pub mod Memory
pub mod Keys
mod Tests
use edgesync_espidf.Prelude.{
  ℕ, zero, suc, ◌+◌, ◌-◌, ◌/◌, ◌%◌, Bool, true, false, Option, none, some, List, [], ◌∷◌, length,
  set, get_elem?, if◌then◌else◌,
}
use edgesync_espidf.Flashq.Context.{Entry}
use edgesync_espidf.Flashq.Helpers.{entry_at, remove_entry_at}
use edgesync_espidf.Action

-- The NVS API of ESP-IDF (nvs.h), which the backend calls and does not implement: a parameter of
-- the model. `Store` is what the namespace holds, and a key is a C string without its NUL; a call returns
-- whether it gave ESP_OK, and a failed call may have changed the contents.
pub record Nvs : Type 1 where
  pub Store : Type 0
  -- nvs_get_blob without a buffer: the length of the blob.
  pub get_length : Store → List ℕ → Option ℕ
  -- nvs_get_blob with a buffer of the given length: the bytes of the blob.
  pub get_blob : Store → List ℕ → ℕ → Option (List ℕ)
  -- nvs_set_blob
  pub set_blob : Store → List ℕ → List ℕ → Bool × Store
  -- nvs_commit
  pub commit : Store → Bool × Store
  -- nvs_erase_key
  pub erase_key : Store → List ℕ → Bool × Store
  -- nvs_get_stats: the total and the used entries.
  pub get_usage : Store → Option (ℕ × ℕ)

-- nvs_index_entry_t has the fields of flashq_index_entry_t, of the same types and in the same order,
-- but for the name of one: `slot` stands where the flash queue has `message_offset`.
abbrev pub NvsEntry : Type 0
NvsEntry = Entry

abbrev pub slot_of : NvsEntry → ℕ
slot_of e = e.message_offset

-- edgesync_nvs_ctx_t. The index array is the list of its first `index_count` entries; the scratch
-- buffer is kept with its contents, since the payload that write_entry is given can lie in it.
pub record Ctx (S : Type 0) : Type 0 where
  pub store : S
  pub max_messages : ℕ
  pub max_message_size : ℕ
  pub slot_used : List Bool
  pub index : List NvsEntry
  pub index_capacity : ℕ
  pub scratch_size : ℕ
  pub scratch : List ℕ

-- Actions on the backend.
abbrev pub M : Type 0 → Type 0 → Type 0
M S A = Action.M (Ctx S) A

-- slot_key: "s%05u" of the slot modulo 100000.
unfoldable pub slot_key : ℕ → List ℕ
slot_key slot =
    let n = slot % 100000 in
    115
    ∷ (48 + n / 10000)
    ∷ (48 + n / 1000 % 10)
    ∷ (48 + n / 100 % 10)
    ∷ (48 + n / 10 % 10)
    ∷ (48 + n % 10)
    ∷ []

-- remove_entry_at: the slot is free again, and the last entry moves to the place.
abbrev pub free_entry_at : {S : Type 0} → Ctx S → ℕ → Ctx S
free_entry_at ctx pos = record ctx {
  slot_used = set ctx.slot_used (slot_of (entry_at ctx.index pos)) false;
  index = remove_entry_at ctx.index pos;
}

-- `ctx->slot_used[i]`; no caller passes a slot that is out of range.
abbrev pub is_used : List Bool → ℕ → Bool
is_used [] i = false
is_used (b ∷ bs) zero = b
is_used (b ∷ bs) (suc i) = is_used bs i

-- The loop of find_free_slot, from slot `i` with `n` slots left.
unfoldable pub free_slot_loop : ℕ → ℕ → List Bool → Option ℕ
free_slot_loop zero i used = none
free_slot_loop (suc n) i used = if is_used used i then free_slot_loop n (i + 1) used else some i

-- find_free_slot
unfoldable pub find_free_slot : {S : Type 0} → Ctx S → Option ℕ
find_free_slot ctx = free_slot_loop ctx.max_messages 0 ctx.slot_used
