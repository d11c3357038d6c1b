-- ===== src/Flashq/Append.antt =====
-- ensure_space_locked and append_state_update_locked.
use edgesync_espidf.Prelude.{ℕ, ◌+◌, ◌*◌, Bool, ◌||◌, ltb, if◌then◌else◌, u8, u32, sub32}
use edgesync_espidf.Types.{EspErr}
use edgesync_espidf.Format.{encode_update, record_total_size}
use edgesync_espidf.Flashq.Partition.{Partition}
use edgesync_espidf.Flashq.Context.{Ctx, ok, M, pure, raise, ◌>>=◌, ◌>>◌, gets, modify}
use edgesync_espidf.Flashq.Helpers.{sector_size, entry_at, update_at, append_locked}
use edgesync_espidf.Flashq.Compaction.{fields_of, scratch_of, compact_locked}

-- `data_capacity - (cursor - data_start)` in size_t.
abbrev pub free_bytes : {F : Type 0} → Ctx F → ℕ
free_bytes c = sub32 c.data_capacity (sub32 c.cursor c.data_start)

abbrev pub low_space : {F : Type 0} → Ctx F → ℕ → Bool
low_space c needed_len = ltb (free_bytes c) (u32 (needed_len + sector_size))

abbrev pub too_churned : {F : Type 0} → Ctx F → Bool
too_churned c = ltb (u32 (c.index_capacity * 4 + 16)) c.updates_since_compaction

module _ (P : Partition) where
  open P use {Flash}

  -- The compaction of ensure_space_locked, where it is due.
  unfoldable pub compact_if_due : ℕ → M Flash (Unit {0})
  compact_if_due needed_len ctx =
      if low_space ctx needed_len || too_churned ctx then compact_locked P ctx else ok tt ctx

  -- ensure_space_locked
  unfoldable pub ensure_space_locked : ℕ → M Flash (Unit {0})
  ensure_space_locked needed_len = do
    compact_if_due needed_len
    room ← gets free_bytes
    if ltb room needed_len then raise EspErr.storage_err else pure tt

  -- append_state_update_locked, for the entry at `pos`.
  unfoldable pub append_state_update_locked : ℕ → ℕ → M Flash (Unit {0})
  append_state_update_locked pos new_state = do
    ensure_space_locked (record_total_size 0 0)
    buf ← gets (λ c. scratch_of (
        encode_update c.scratch_size
          (record (fields_of (entry_at c.index pos)) { state = new_state }) c.next_seq))
    append_locked P buf
    modify (λ c. record c {
      index = update_at c.index pos (λ e. record e { state = u8 new_state });
      updates_since_compaction = u32 (c.updates_since_compaction + 1);
    })
