-- ===== src/Nvs/Tests.antt =====
-- Runs of the NVS backend over the namespace in memory.
use edgesync_espidf.Prelude.{
  ℕ, ◌≡◌, refl, some, none, List, [], ◌∷◌, length, drop, true, false, le→leb, leb, eq→==, Bool, ap,
  ◌∙◌, if◌then◌else◌, arith,
}
use edgesync_espidf.Types.{EspErr, err_code}
use edgesync_espidf.Format.{
  record_total_size, round4, Header, decode_header, verify_body, header_of_bytes, header_bytes,
  crc_of_header, header_front, hdr_size,
}
use edgesync_espidf.Format.Records.{IsFitFields}
use edgesync_espidf.Crc32.{crc32, byte_rounds, byte_round, bit_rounds, bit_round}
use edgesync_espidf.Flashq.Compaction.{fields_of}
use edgesync_espidf.Queue.Contract.{KeepsMessages}
use edgesync_espidf.Action.Outcome.{Ends}
use edgesync_espidf.Flashq.Memory.{first, second}
use edgesync_espidf.Flashq.Helpers.{find_entry, same_bytes, entry_at, update_at}
use edgesync_espidf.Nvs.{Ctx, slot_key, find_free_slot, free_slot_loop}
use edgesync_espidf.Nvs.Memory.{Blobs, memory, first_blob, one_entry}
use edgesync_espidf.Nvs.Reliable.{IsReliable}
use edgesync_espidf.Nvs.Claimed.{first_claim, enqueue-Claims}
use edgesync_espidf.Nvs.Table.{nvs_ops}
use edgesync_espidf.Nvs.Kept.{NvsHolds, nvs_KeepsMessages}
use edgesync_espidf.Nvs.Create.{context_of}
use edgesync_espidf.Nvs.Ops.{NvsClaim, retried, enqueue, claim_next, schedule_retry}
use edgesync_espidf.Nvs.Slots.{IsSlotted}
use edgesync_espidf.Nvs.Slots.Reach.{Call, run_calls, calls_from_create-IsSlotted}
use edgesync_espidf.Nvs.Retry.{IsZeroed, HasBlob, Fails, schedule_retry-IsZeroed}

nvs_KeepsMessages_example : KeepsMessages (nvs_ops memory true) NvsHolds
nvs_KeepsMessages_example = nvs_KeepsMessages memory true

abbrev calls : List Call
calls =
    Call.enqueues first
    ∷ Call.enqueues second
    ∷ Call.claims 5000
    ∷ Call.delivers 9
    ∷ Call.recovers
    ∷ []

calls_from_create-IsSlotted_example :
    IsSlotted (run_calls memory calls (context_of 2 128 (λ key. none)))
calls_from_create-IsSlotted_example = calls_from_create-IsSlotted memory calls 2 128 (λ key. none)

abbrev first_hdr : Header
first_hdr = record {
  magic = 1162105671;
  seq = 0;
  type = 1;
  state = 0;
  priority = 1;
  reserved = 0;
  message_id = 7;
  attempt_count = 0;
  created_at_us = 1000;
  last_attempt_at_us = 0;
  next_retry_at_us = 0;
  last_error = 0;
  destination_len = 3;
  body_len = 2;
  header_crc = 2084308669;
}

found_first : find_entry one_entry.index 7 ≡ some 0
unfolding find_entry
found_first = refl

accepted : decode_header first_blob ≡ some first_hdr
unfolding decode_header header_of_bytes header_bytes crc_of_header header_front crc32 byte_rounds
    byte_round bit_rounds bit_round
accepted = refl

intact : verify_body first_hdr (drop hdr_size first_blob) ≡ true
unfolding verify_body crc32 byte_rounds byte_round bit_rounds bit_round
intact = refl

found_blob : memory.get_length one_entry.store (slot_key 0) ≡ some (length first_blob)
unfolding same_bytes slot_key
found_blob = refl

given_blob : memory.get_blob one_entry.store (slot_key 0) (length first_blob) ≡ some first_blob
unfolding same_bytes slot_key
given_blob = refl

has_blob :
    HasBlob memory one_entry (entry_at one_entry.index 0) first_hdr first.destination (1 ∷ 2 ∷ [])
has_blob = record {
  bytes = first_blob;
  found = found_blob;
  fits = omega arith;
  given = given_blob;
  readable = record {
    accepted = accepted;
    intact = intact;
    destination_read = refl;
    payload_read = refl;
  };
  long = omega arith;
  same_length = refl;
  no_nul = refl;
  short = omega arith;
}

fit_fields :
    IsFitFields (fields_of (retried 6000 false EspErr.transport (entry_at one_entry.index 0)))
unfolding err_code
fit_fields = record {
  id_fits = omega arith;
  attempt_count_fits = omega arith;
  created_at_us_fits = omega arith;
  last_attempt_at_us_fits = omega arith;
  next_retry_at_us_fits = omega arith;
  last_error_fits = omega arith;
}

schedule_retry-IsZeroed_example :
    Ends
      (λ a c'.
        IsZeroed memory
          (retried 6000 false EspErr.transport (entry_at one_entry.index 0))
          first.destination
          one_entry.store
          c'.store
        × (c'.index ≡ update_at one_entry.index 0 (retried 6000 false EspErr.transport)))
      (λ err c'. Fails memory err)
      (schedule_retry memory 7 6000 false EspErr.transport one_entry)
schedule_retry-IsZeroed_example =
    schedule_retry-IsZeroed memory 7 6000 0 false EspErr.transport one_entry first_hdr
      first.destination (1 ∷ 2 ∷ []) found_first has_blob fit_fields (omega arith)

same_key : (key : List ℕ) → same_bytes key key ≡ true
unfolding same_bytes
same_key [] = refl
same_key (x ∷ xs) = rw (eq→== x x refl) (same_key xs)

reliable : IsReliable memory
reliable = record {
  sets = λ s key blob. refl;
  commits = λ s. refl;
  length_set = λ s key blob.
      ap
        (λ (b : Bool). elim (if b then some blob else s key) [
          | none ↦ none
          | some x ↦ some (length x)
        ])
        (same_key key);
  blob_set = λ s key blob.
      ap
        (λ (b : Bool). elim (if b then some blob else s key) [
          | none ↦ none
          | some x ↦ if leb (length x) (length blob) then some x else none
        ])
        (same_key key)
      ∙ ap (λ (b : Bool). if b then some blob else none)
          (le→leb (length blob) (length blob) (omega arith));
}

abbrev empty : Ctx Blobs
empty = context_of 2 128 (λ key. none)

free_first : find_free_slot empty ≡ some 0
unfolding find_free_slot free_slot_loop context_of
free_first = refl

enqueue-Claims_example :
    Ends
      (λ a d.
        Ends
          (λ x d'. x ≡ NvsClaim.taken (first_claim first 5000))
          (λ e d'. ⊥)
          (claim_next memory 5000 d))
      (λ e d. ⊥)
      (enqueue memory first empty)
unfolding context_of record_total_size round4
enqueue-Claims_example =
    enqueue-Claims memory reliable first 0 5000
      (record {
        id_fits = omega arith;
        created_fits = omega arith;
        payload_len_fits = omega arith;
        payload_there = omega arith;
      })
      (omega arith) (omega arith) refl empty (omega arith) free_first (omega arith) refl
