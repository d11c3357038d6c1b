-- ===== src/Flashq.antt =====
-- components/edgesync/src/edgesync_storage_flashq.c: the log-structured, ping-pong flash queue.
-- One module per section of the file; the proofs stand in modules of their own.
pub mod Partition
pub mod Context
pub mod Helpers
pub mod Compaction
pub mod Append
pub mod Scan
pub mod Recovery
pub mod Select
pub mod Ops
pub mod Frame
pub mod Written
pub mod Enqueue
pub mod Create
pub mod Stats
pub mod Table
pub mod Ids
pub mod Positions
pub mod Kept
pub mod Nor
pub mod Log
pub mod Memory
mod Tests
