-- ===== src/Flashq/Log/Tests.antt =====
-- A message that is enqueued and claimed in a partition in memory, and a restart. A region has two data sectors,
-- since with one alone a compaction is due for every record.
use edgesync_espidf.Prelude.{
  ℕ, ◌+◌, ◌≤◌, ◌<◌, ◌≡◌, refl, ◌⊎◌, inl, true, List, [], ◌∷◌, le→leb, ◌==◌, if◌then◌else◌, arith,
}
use edgesync_espidf.Action.{state_of, succeeds}
use edgesync_espidf.Action.Outcome.{Ends}
use edgesync_espidf.Crc32.{crc32, byte_rounds, byte_round, bit_rounds, bit_round}
use edgesync_espidf.Format.{
  record_total_size, round4, encode_message, encode_message_full, encode_common, record_bytes,
  header_bytes, sealed_header, crc_of_header, encode_update, decode_header, header_of_bytes,
  verify_body,
}
use edgesync_espidf.Flashq.Partition.{Partition}
use edgesync_espidf.Flashq.Context.{Ctx}
use edgesync_espidf.Flashq.Create.{IsGeometry}
use edgesync_espidf.Flashq.Memory.{memory_of, blank, first}
use edgesync_espidf.Flashq.Nor.{IsNor}
use edgesync_espidf.Flashq.Recovery.{
  start_fresh, recover, resume, choose_region, active_generation_of, header_of_region,
}
use edgesync_espidf.Flashq.Scan.{
  scan_region, load_region, scan_loop, record_at, checked_record, apply_record, apply_message,
  apply_update, apply_update_at, requeue_in_flight, requeue_entry,
}
use edgesync_espidf.Flashq.Log.Reboot.{HasRequeueRoom}
use edgesync_espidf.Flashq.Helpers.{
  erase_region, partition_write_verify, verify_written, same_bytes, find_entry, append_locked,
  region_header_read, bytes_all_ff, ensure_region_erased,
}
use edgesync_espidf.Flashq.Append.{append_state_update_locked, ensure_space_locked, compact_if_due}
use edgesync_espidf.Flashq.Select.{pick_claim, pick_loop}
use edgesync_espidf.Flashq.Ops.{
  enqueue, enqueue_record, encode_into_scratch, claim_next, claim_at, claim_intact, write_claim,
  read_claimed,
}
use edgesync_espidf.Flashq.Log.{rebooted}
use edgesync_espidf.Flashq.Log.Scan.{IsCut}
use edgesync_espidf.Flashq.Log.Calls.{HasRoom}
use edgesync_espidf.Flashq.Log.Enqueue.{IsNew}
use edgesync_espidf.Flashq.Log.Recover.{Restores, Excused}
use edgesync_espidf.Flashq.Log.Run.{Call, AllSucceed, run_calls, reboot-Restores, cut-Restores}

abbrev memory : Partition
memory = memory_of 24576

abbrev empty : Ctx (ℕ → ℕ)
empty = record blank { region_size = 12288; data_capacity = 8192 }

memory-IsNor : IsNor memory 24576 (λ f i. f i)
memory-IsNor = record {
  reads = λ f off len h. rw (le→leb (off + len) 24576 h) refl;
  writes_inside = λ f off bytes i h. ground arith;
  erases_inside = λ f off len i h. ground arith;
  erases = λ f off len i e lo hi. ground arith;
}

empty-IsGeometry : IsGeometry 24576 empty
unfolding record_total_size round4
empty-IsGeometry = record {
  regions_fit = omega arith;
  data_behind_header = omega arith;
  some_data = omega arith;
  records_fit = λ d p hd hp. omega arith;
}

empty-starts : succeeds (start_fresh memory empty) ≡ true
unfolding start_fresh erase_region partition_write_verify verify_written same_bytes
empty-starts = refl

abbrev calls : List Call
calls = Call.enqueues first ∷ Call.claims 5000 ∷ []

-- The same, and a restart.
abbrev calls_and_restart : List Call
calls_and_restart = Call.enqueues first ∷ Call.claims 5000 ∷ Call.restarts ∷ []

first-IsNew : IsNew first (state_of (start_fresh memory empty))
unfolding start_fresh erase_region partition_write_verify verify_written same_bytes find_entry
    record_total_size round4
first-IsNew = record {
  message = record {
    id_fits = omega arith;
    created_fits = omega arith;
    payload_len_fits = omega arith;
    payload_there = omega arith;
  };
  fresh = refl;
  roomy = refl;
  seq_left = omega arith;
}

enqueue-succeeds : succeeds (enqueue memory first (state_of (start_fresh memory empty))) ≡ true
unfolding enqueue enqueue_record encode_into_scratch ensure_space_locked compact_if_due
    append_locked start_fresh erase_region partition_write_verify verify_written same_bytes
    encode_message encode_message_full encode_common record_bytes header_bytes sealed_header
    crc_of_header crc32 byte_rounds byte_round bit_rounds bit_round record_total_size round4
enqueue-succeeds = refl

abbrev holding : Ctx (ℕ → ℕ)
holding = state_of (enqueue memory first (state_of (start_fresh memory empty)))

holding-HasRoom : HasRoom holding
unfolding enqueue enqueue_record encode_into_scratch ensure_space_locked compact_if_due
    append_locked start_fresh erase_region partition_write_verify verify_written same_bytes
    encode_message encode_message_full encode_common record_bytes header_bytes sealed_header
    crc_of_header crc32 byte_rounds byte_round bit_rounds bit_round record_total_size round4
holding-HasRoom = record { roomy = refl; seq_left = omega arith }

claim-succeeds : succeeds (claim_next memory 5000 holding) ≡ true
unfolding enqueue enqueue_record encode_into_scratch ensure_space_locked compact_if_due
    append_locked start_fresh erase_region partition_write_verify verify_written same_bytes
    encode_message encode_message_full encode_common record_bytes header_bytes sealed_header
    crc_of_header crc32 byte_rounds byte_round bit_rounds bit_round record_total_size round4
    claim_next claim_at claim_intact write_claim encode_update read_claimed pick_claim pick_loop
    decode_header header_of_bytes verify_body
claim-succeeds = refl

abbrev in_flight : Ctx (ℕ → ℕ)
in_flight = state_of (claim_next memory 5000 holding)

in_flight-HasRequeueRoom : HasRequeueRoom memory in_flight
unfolding enqueue enqueue_record encode_into_scratch ensure_space_locked compact_if_due
    append_locked start_fresh erase_region partition_write_verify verify_written same_bytes
    encode_message encode_message_full encode_common record_bytes header_bytes sealed_header
    crc_of_header crc32 byte_rounds byte_round bit_rounds bit_round record_total_size round4
    claim_next claim_at claim_intact write_claim encode_update read_claimed pick_claim pick_loop
    decode_header header_of_bytes verify_body recover resume choose_region active_generation_of
    header_of_region region_header_read bytes_all_ff ensure_region_erased scan_region load_region
    scan_loop record_at checked_record apply_record apply_message apply_update apply_update_at
    requeue_in_flight requeue_entry append_state_update_locked find_entry
in_flight-HasRequeueRoom = (record { roomy = refl; seq_left = omega arith }, tt)

restart-succeeds : succeeds (recover memory (rebooted in_flight)) ≡ true
unfolding enqueue enqueue_record encode_into_scratch ensure_space_locked compact_if_due
    append_locked start_fresh erase_region partition_write_verify verify_written same_bytes
    encode_message encode_message_full encode_common record_bytes header_bytes sealed_header
    crc_of_header crc32 byte_rounds byte_round bit_rounds bit_round record_total_size round4
    claim_next claim_at claim_intact write_claim encode_update read_claimed pick_claim pick_loop
    decode_header header_of_bytes verify_body recover resume choose_region active_generation_of
    header_of_region region_header_read bytes_all_ff ensure_region_erased scan_region load_region
    scan_loop record_at checked_record apply_record apply_message apply_update apply_update_at
    requeue_in_flight requeue_entry append_state_update_locked find_entry
restart-succeeds = refl

calls-succeed : AllSucceed memory calls (state_of (start_fresh memory empty))
calls-succeed =
    ((first-IsNew, enqueue-succeeds), ((omega arith, holding-HasRoom, claim-succeeds), tt))

all-succeed : AllSucceed memory calls_and_restart (state_of (start_fresh memory empty))
all-succeed = (
  (first-IsNew, enqueue-succeeds),
  (
    (omega arith, holding-HasRoom, claim-succeeds),
    ((in_flight-HasRequeueRoom, restart-succeeds), tt),
  ),
)

abbrev claimed : Ctx (ℕ → ℕ)
claimed = run_calls memory calls (state_of (start_fresh memory empty))

abbrev restarted : Ctx (ℕ → ℕ)
restarted = run_calls memory calls_and_restart (state_of (start_fresh memory empty))

reboot-Restores_example :
    Ends
      (Restores memory restarted)
      (Excused memory restarted)
      (recover memory (rebooted restarted))
reboot-Restores_example =
    reboot-Restores memory 24576 (λ f i. f i) memory-IsNor calls_and_restart empty empty-IsGeometry
      (omega arith) (omega arith) empty-starts all-succeed

-- The next record was cut off behind its first byte.
abbrev cut : (ℕ → ℕ) → ℕ → ℕ
cut f i = if i == 4236 then 0x47 else f i

cut-same : (f : ℕ → ℕ) (i : ℕ) → (i < 4236) ⊎ (12288 ≤ i) → cut f i ≡ f i
cut-same f i h = ground arith

claimed-IsCut : IsCut memory (λ f i. f i) claimed (cut claimed.flash)
unfolding enqueue enqueue_record encode_into_scratch ensure_space_locked compact_if_due
    append_locked start_fresh erase_region partition_write_verify verify_written same_bytes
    encode_message encode_message_full encode_common record_bytes header_bytes sealed_header
    crc_of_header crc32 byte_rounds byte_round bit_rounds bit_round record_total_size round4
    claim_next claim_at claim_intact write_claim encode_update read_claimed pick_claim pick_loop
    decode_header header_of_bytes verify_body
claimed-IsCut = record { same = λ i h. cut-same claimed.flash i h; rejected = λ room. inl refl }

cut-Restores_example :
    Ends
      (Restores memory claimed)
      (Excused memory claimed)
      (recover memory (record (rebooted claimed) { flash = cut claimed.flash }))
cut-Restores_example =
    cut-Restores memory 24576 (λ f i. f i) memory-IsNor calls empty empty-IsGeometry (omega arith)
      (omega arith) empty-starts calls-succeed (cut claimed.flash) claimed-IsCut
