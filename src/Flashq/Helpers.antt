-- ===== src/Flashq/Helpers.antt =====
-- The small helpers of the backend, and append_locked.
use edgesync_espidf.Prelude.{
  ℕ, zero, suc, ◌+◌, ◌-◌, ◌*◌, Bool, true, false, ◌&&◌, Option, none, some, List, [], ◌∷◌, ◌++◌,
  length, take, drop, set, ◌==◌, if◌then◌else◌, u32,
}
use edgesync_espidf.Types.{EspErr}
use edgesync_espidf.Format.{le_bytes, get_field, record_total_size, max_destination_len}
use edgesync_espidf.Flashq.Partition.{Partition}
use edgesync_espidf.Flashq.Context.{Entry, Ctx, ok, fail, M, ◌>>=◌, ◌>>◌, gets, modify}

-- EDGESYNC_FLASHQ_SECTOR_SIZE, which is EDGESYNC_FLASHQ_RESERVE_BYTES too.
abbrev pub sector_size : ℕ
sector_size = 4096

-- The region status bytes.
abbrev pub status_compacting : ℕ
status_compacting = 0x07

abbrev pub status_active : ℕ
status_active = 0x03

abbrev pub status_stale : ℕ
status_stale = 0x01

-- edgesync_flashq_region_hdr_t
pub record RegionHeader : Type 0 where
  pub magic : ℕ
  pub generation : ℕ
  pub status : ℕ
  pub reserved : List ℕ

-- EDGESYNC_FLASHQ_REGION_HDR_SIZE, and `offsetof(edgesync_flashq_region_hdr_t, status)`.
abbrev pub region_hdr_size : ℕ
region_hdr_size = 12

abbrev pub status_offset : ℕ
status_offset = 8

abbrev pub region_header_bytes : RegionHeader → List ℕ
region_header_bytes h =
    le_bytes 4 h.magic ++ (le_bytes 4 h.generation ++ (le_bytes 1 h.status ++ h.reserved))

-- `memcpy(out_hdr, raw, sizeof(raw))`
abbrev pub region_header_of : List ℕ → RegionHeader
region_header_of raw = record {
  magic = get_field raw 0 4;
  generation = get_field raw 4 4;
  status = get_field raw 8 1;
  reserved = take 3 (drop 9 raw);
}

-- bytes_all_ff
unfoldable pub bytes_all_ff : List ℕ → Bool
bytes_all_ff [] = true
bytes_all_ff (b ∷ bs) = if b == 0xFF then bytes_all_ff bs else false

-- `memcmp(a, b, len) == 0` on two buffers of `len` bytes.
unfoldable pub same_bytes : List ℕ → List ℕ → Bool
same_bytes [] [] = true
same_bytes [] (y ∷ ys) = false
same_bytes (x ∷ xs) [] = false
same_bytes (x ∷ xs) (y ∷ ys) = (x == y) && same_bytes xs ys

-- find_entry: the position of the first entry with the id.
unfoldable pub find_entry : List Entry → ℕ → Option ℕ
find_entry [] id = none
find_entry (e ∷ rest) id =
    if e.id == id then some 0 else elim (find_entry rest id) [ none ↦ none | some i ↦ some (suc i) ]

-- `ctx->index[pos]`; no caller passes a position that is out of range.
abbrev pub zero_entry : Entry
zero_entry = record {
  id = 0;
  state = 0;
  priority = 0;
  destination_len = 0;
  attempt_count = 0;
  payload_len = 0;
  message_offset = 0;
  created_at_us = 0;
  last_attempt_at_us = 0;
  next_retry_at_us = 0;
  last_error = 0;
}

abbrev pub entry_at : List Entry → ℕ → Entry
entry_at [] pos = zero_entry
entry_at (e ∷ rest) zero = e
entry_at (e ∷ rest) (suc pos) = entry_at rest pos

-- Assignments to fields of `ctx->index[pos]`.
abbrev pub update_at : List Entry → ℕ → (Entry → Entry) → List Entry
update_at [] pos f = []
update_at (e ∷ rest) zero f = f e ∷ rest
update_at (e ∷ rest) (suc pos) f = e ∷ update_at rest pos f

-- remove_entry_at: the last entry moves to the place, and the count falls by one.
unfoldable pub remove_entry_at : List Entry → ℕ → List Entry
remove_entry_at index pos =
    take (length index - 1) (set index pos (entry_at index (length index - 1)))

module _ (P : Partition) where
  open P use {Flash, read, write, erase}

  -- region_offset
  abbrev pub region_offset : Ctx Flash → ℕ → ℕ
  region_offset ctx region = region * ctx.region_size

  -- max_record_size
  abbrev pub max_record_size : Ctx Flash → ℕ
  max_record_size ctx = record_total_size max_destination_len ctx.max_message_size

  -- region_header_read: the header, and whether the header's bytes are all 0xFF.
  unfoldable pub region_header_read : ℕ → M Flash (RegionHeader × Bool)
  region_header_read region ctx = elim (read ctx.flash (region_offset ctx region) region_hdr_size) [
    | none ↦ fail EspErr.storage_err ctx
    | some raw ↦ ok (region_header_of raw, bytes_all_ff raw) ctx
  ]

  -- The second half of partition_write_verify: read back, and compare.
  unfoldable pub verify_written : ℕ → List ℕ → M Flash (Unit {0})
  verify_written abs_offset bytes ctx = elim (read ctx.flash abs_offset (length bytes)) [
    | none ↦ fail EspErr.storage_err ctx
    | some back ↦ if same_bytes back bytes then ok tt ctx else fail EspErr.storage_err ctx
  ]

  -- partition_write_verify
  unfoldable pub partition_write_verify : ℕ → List ℕ → M Flash (Unit {0})
  partition_write_verify abs_offset bytes ctx =
      let (written, flash') = write ctx.flash abs_offset bytes in
      let ctx' : Ctx Flash = record ctx { flash = flash' } in
      if written then verify_written abs_offset bytes ctx' else fail EspErr.storage_err ctx'

  -- erase_region
  unfoldable pub erase_region : ℕ → M Flash (Unit {0})
  erase_region region ctx =
      let (erased, flash') = erase ctx.flash (region_offset ctx region) ctx.region_size in
      let ctx' : Ctx Flash = record ctx { flash = flash' } in
      if erased then ok tt ctx' else fail EspErr.storage_err ctx'

  -- ensure_region_erased: erases unless the header could be read and is blank.
  unfoldable pub ensure_region_erased : ℕ → M Flash (Unit {0})
  ensure_region_erased region ctx = elim (region_header_read region ctx) [
    | fail e ctx' ↦ erase_region region ctx'
    | ok (hdr, blank) ctx' ↦ if blank then ok tt ctx' else erase_region region ctx'
  ]

  -- append_locked
  unfoldable pub append_locked : List ℕ → M Flash (Unit {0})
  append_locked buf = do
    abs_offset ← gets (λ c. region_offset c c.active_region + c.cursor)
    partition_write_verify abs_offset buf
    modify (λ c. record c { cursor = c.cursor + length buf; next_seq = u32 (c.next_seq + 1) })
