-- ===== src/Lib.antt =====
-- EdgeSync: a persistent message queue for ESP-IDF that stores messages on flash and delivers them
-- at least once.
--
-- The parts of the program and the files that model them (paths under components/edgesync/):
--   Types        include/edgesync/edgesync_types.h, edgesync_events.h, edgesync_transport.h and the
--                error codes of edgesync.h: the types that all parts share
--   Retry        src/edgesync_retry.c: defaults, backoff and jitter (apply_defaults, compute_delay_ms,
--                should_retry)
--   Crc32        src/edgesync_crc32.c: the CRC of headers and bodies
--   Format       src/edgesync_flashq_format.h and .c: the record format (encode_message_full,
--                encode_update, encode_end, decode_header, verify_body)
--   Flashq       src/edgesync_storage_flashq.c, a child for each section of the file: Partition (the
--                partition API), Context (the state), Helpers, Compaction (compact_locked), Append
--                (ensure_space_locked, append_state_update_locked), Scan (scan_region), Recovery
--                (op_recover), Select (the loops that pick an entry; Choice says what they pick), Ops
--                (the other operations), Stats (op_get_stats), Table (s_flashq_ops) and Create (edgesync_flashq_create); Nor
--                is a flash that does what is documented of NOR, Log the log of a region as a list of
--                records, with what each call appends, its replay by scan_region, and a restart after
--                a loss of power
--   Nvs          src/edgesync_storage_nvs.c: the NVS backend over the NVS API as a parameter: Entries
--                (write_entry, read_and_verify), Ops, Recovery, Table (s_nvs_ops), Create; Slots is the
--                invariant of the slots, Retry what a rewrite leaves of a payload, Reliable an API
--                that does what it documents, Claimed a message through such an API and back
--   Action       actions on a state that fail with a code, and rules for what they end in and keep
--   Queue        src/edgesync_queue.c over any backend: StorageOps is edgesync_storage_ops_t, and
--                Queue.Contract says which of a backend's promises the queue relies on
--   Worker       src/edgesync_worker.c: a round of worker_task (its start and stop are in Resources)
--   Http         src/edgesync_http.c: the classification of status codes, and Deliver, the request of a
--                delivery over the HTTP client as a parameter
--   Mqtt         src/edgesync_mqtt.c: op_deliver, with the events of the client as explicit sequences
--   Id           src/edgesync_id.c: message ids
--   Lifecycle    src/edgesync.c: the validation of edgesync_publish, start, stop, deinit and get_stats,
--                and Init, edgesync_init with src/edgesync_storage.c and src/edgesync_transport.c
--   Resources    the constructors and destructors of all parts as what they take from the heap, FreeRTOS,
--                NVS and esp_mqtt and give back: Ledger is what is held behind such steps, Balance each
--                part from its constructor to its end, Stop edgesync_worker_stop beside the task
--   Device       the queue and the worker over each backend
--   Prelude      tests, lists, machine words and exclusive or, shared by all
--
-- How they interact. The application publishes to the queue, the worker claims from it, gives the
-- message to the transport and reports the outcome to the queue, and the queue calls the backend
-- under its lock. Each of these calls is one step on an explicit state; what the outside sees is a
-- list of effects (events fired, the worker woken). A call of the backend returns a value or an error
-- code, and in both cases the state that it reached, so that what a failed call leaves is modelled.
--
-- Numbers are natural numbers; a wrap of uint32_t, uint64_t or a 32-bit size_t is written out, but for
-- the sums that give an offset in a partition (region_offset, the cursor) or the length of a read, which cannot
-- wrap where the partition has less than 4 GiB. A signed field is its two's complement bit pattern.
-- Buffers are lists of bytes, and a read into a scratch buffer has the length that is asked for: a read
-- beyond the buffer, which the code does not exclude where max_message_size was lowered between two
-- boots, is undefined behaviour in C and has no model.
--
-- Code that the component only calls is a parameter: the partition API is the record Partition and
-- the NVS API the record Nvs. No operation of theirs is assumed to succeed or to do what it should but
-- where a theorem says so: Flashq/Log stands over a NOR flash (IsNor), Nvs/Claimed over a reliable
-- NVS. The transport's answer, the clock and the random source are arguments.
--
-- The loops run on the lists that they walk over, on a number of rounds, or, in scan_loop, on fuel:
-- it is the region's size, and each round advances by a record of at least 64 bytes.
--
-- The calls of Flashq/Log, restarts among them, are those between two compactions, and a message that
-- is enqueued has an id of its own, as edgesync.h asks of the application.
--
-- Not modelled: the contents of allocated memory beyond the state of each part, most of what
-- edgesync_mqtt_transport_create hands the client, a delivery result outside of its enumeration (the
-- code takes it for RETRYABLE_FAILURE), the scheduler and how long a wait takes, the order
-- in which the mutexes let the tasks in, and logging.
pub mod Prelude
pub mod Types
pub mod Action
pub mod Retry
pub mod Crc32
pub mod Format
pub mod Flashq
pub mod Nvs
pub mod Queue
pub mod Worker
pub mod Http
pub mod Mqtt
pub mod Id
pub mod Lifecycle
pub mod Resources
pub mod Device
