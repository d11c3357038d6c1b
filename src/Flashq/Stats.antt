-- ===== src/Flashq/Stats.antt =====
-- op_get_stats.
pub mod Total
use edgesync_espidf.Prelude.{◌+◌, List, [], ◌∷◌, ◌==◌, if◌then◌else◌, u32, u64, sub32}
use edgesync_espidf.Types.{Stats, state_pending, state_in_flight, state_dead_letter}
use edgesync_espidf.Flashq.Context.{Entry, Ctx}

-- The body of the loop over `i`: the switch on the state.
unfoldable pub count_entry : Entry → Stats → Stats
count_entry e stats =
    let bytes = u64 (stats.bytes_queued + e.payload_len) in
    if e.state == state_pending
    then (if e.attempt_count == 0
        then record stats {
          pending_messages = u32 (stats.pending_messages + 1);
          bytes_queued = bytes;
        }
        else record stats {
          retrying_messages = u32 (stats.retrying_messages + 1);
          bytes_queued = bytes;
        })
    else if e.state == state_in_flight
    then record stats {
      in_flight_messages = u32 (stats.in_flight_messages + 1);
      bytes_queued = bytes;
    }
    else if e.state == state_dead_letter
    then record stats {
      dead_letter_messages = u32 (stats.dead_letter_messages + 1);
      bytes_queued = bytes;
    }
    else stats

unfoldable pub count_entries : List Entry → Stats → Stats
count_entries [] stats = stats
count_entries (e ∷ rest) stats = count_entries rest (count_entry e stats)

module _ {F : Type 0} where
  -- op_get_stats; it always returns ESP_OK.
  unfoldable pub get_stats : Ctx F → Stats → Stats
  get_stats ctx stats = record (count_entries ctx.index stats) {
    delivered_awaiting_gc = ctx.awaiting_gc_count;
    queue_capacity = u32 ctx.index_capacity;
    storage_bytes_used = u32 (sub32 ctx.cursor ctx.data_start);
    storage_bytes_capacity = u32 ctx.data_capacity;
    compactions_total = ctx.compactions_total;
  }
