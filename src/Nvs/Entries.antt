-- ===== src/Nvs/Entries.antt =====
-- write_entry and read_and_verify: an entry's blob, through the scratch buffer.
use edgesync_espidf.Prelude.{
  ℕ, ◌+◌, ◌-◌, Option, none, some, List, ◌++◌, length, take, drop, replicate, ltb, if◌then◌else◌,
  u16,
}
use edgesync_espidf.Types.{EspErr}
use edgesync_espidf.Format.{
  Header, hdr_size, record_total_size, header_bytes, sealed_header, message_header,
  encode_message_full, decode_header, verify_body,
}
use edgesync_espidf.Action.{ok, fail}
use edgesync_espidf.Flashq.Compaction.{fields_of}
use edgesync_espidf.Nvs.{Nvs, M, NvsEntry, slot_of, slot_key}

-- Where the payload lies that write_entry is given: in the caller's memory, or at an offset in the
-- scratch buffer itself.
pub data Source : Type 0 where
  outside : Option (List ℕ) → Source
  in_scratch : ℕ → Source

-- A buffer after `bytes` were written at its start.
abbrev pub over : List ℕ → List ℕ → List ℕ
over bytes buf = bytes ++ drop (length bytes) buf

-- The scratch buffer as it is when encode_common copies the payload: the record's length is zeroed
-- first, then the header and the destination are written.
unfoldable pub scratch_at_copy : NvsEntry → List ℕ → List ℕ → List ℕ
scratch_at_copy e destination scratch =
    let dest_len = u16 (length destination) in
    over
      (header_bytes (sealed_header (message_header (fields_of e) 0) dest_len e.payload_len)
        ++ (take dest_len destination
            ++ replicate (record_total_size dest_len e.payload_len - (hdr_size + dest_len)) 0))
      scratch

-- The bytes that encode_common's memcpy of the payload reads.
unfoldable pub payload_read : NvsEntry → List ℕ → Source → List ℕ → Option (List ℕ)
payload_read e destination (Source.outside payload) scratch = payload
payload_read e destination (Source.in_scratch offset) scratch =
    some (drop offset (scratch_at_copy e destination scratch))

module _ (N : Nvs) where
  open N use {Store, get_length, get_blob, set_blob, commit, erase_key}

  -- nvs_set_blob and nvs_commit of the encoded record.
  unfoldable pub put_blob : ℕ → List ℕ → M Store (Unit {0})
  put_blob slot buf ctx =
      let (was_set, s₁) = set_blob ctx.store (slot_key slot) buf in
      let (committed, s₂) = commit s₁ in
      if was_set
      then (if committed
          then ok tt (record ctx { store = s₂ })
          else fail EspErr.storage_err (record ctx { store = s₂ }))
      else fail EspErr.storage_err (record ctx { store = s₁ })

  -- write_entry
  unfoldable pub write_entry : NvsEntry → List ℕ → Source → M Store (Unit {0})
  write_entry e destination payload ctx =
      elim (encode_message_full ctx.scratch_size (fields_of e) destination
        (payload_read e destination payload ctx.scratch) e.payload_len 0) [
          | none ↦ fail EspErr.serialization ctx
          | some buf ↦ put_blob (slot_of e) buf (record ctx { scratch = over buf ctx.scratch })
        ]

  -- The checks of read_and_verify on the bytes of a blob.
  unfoldable pub verify_blob : List ℕ → M Store Header
  verify_blob bytes ctx = elim (decode_header bytes) [
    | none ↦ fail EspErr.storage_corrupt ctx
    | some hdr ↦
        if verify_body hdr (drop hdr_size bytes)
        then ok hdr ctx
        else fail EspErr.storage_corrupt ctx
  ]

  -- read_and_verify
  unfoldable pub read_and_verify : ℕ → M Store Header
  read_and_verify slot ctx = elim (get_length ctx.store (slot_key slot)) [
    | none ↦ fail EspErr.not_found ctx
    | some len ↦
        if ltb ctx.scratch_size len
        then fail EspErr.storage_corrupt ctx
        else elim (get_blob ctx.store (slot_key slot) len) [
          | none ↦ fail EspErr.storage_err ctx
          | some bytes ↦ verify_blob bytes (record ctx { scratch = over bytes ctx.scratch })
        ]
  ]

  -- `nvs_erase_key` and `nvs_commit` whose results are ignored.
  unfoldable pub discard : ℕ → M Store (Unit {0})
  discard slot ctx =
      ok tt (record ctx { store = (commit (erase_key ctx.store (slot_key slot)).1).1 })

  -- `nvs_erase_key`, and `nvs_commit` if that succeeded.
  unfoldable pub erase_blob : ℕ → M Store (Unit {0})
  erase_blob slot ctx =
      let (erased, s₁) = erase_key ctx.store (slot_key slot) in
      let (committed, s₂) = commit s₁ in
      if erased
      then (if committed
          then ok tt (record ctx { store = s₂ })
          else fail EspErr.storage_err (record ctx { store = s₂ }))
      else fail EspErr.storage_err (record ctx { store = s₁ })
