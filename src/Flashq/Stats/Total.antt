-- ===== src/Flashq/Stats/Total.antt =====
-- The counters of op_get_stats against the index.
use edgesync_espidf.Prelude.{ℕ, ◌+◌, ◌^◌, ◌<◌, ◌≡◌, ◌⊎◌, List, [], ◌∷◌, All, length, arith}
use edgesync_espidf.Types.{Stats, state_pending, state_in_flight, state_dead_letter}
use edgesync_espidf.Flashq.Context.{Entry, Ctx}
use edgesync_espidf.Flashq.Stats.{count_entry, count_entries, get_stats}

-- The states that an entry of the index has between two calls.
abbrev pub IsLive : Entry → Type 0
IsLive e = (e.state ≡ state_pending) ⊎ (e.state ≡ state_in_flight) ⊎ (e.state ≡ state_dead_letter)

-- The four counters of messages together.
abbrev pub total : Stats → ℕ
total s = s.pending_messages + s.retrying_messages + s.in_flight_messages + s.dead_letter_messages

total-count_entry :
    (e : Entry) (s : Stats)
    → IsLive e
    → total s + 1 < 2 ^ 32
    → total (count_entry e s) ≡ total s + 1
unfolding count_entry
total-count_entry e s live fits = ground arith

total-count_entries :
    (index : List Entry) (s : Stats)
    → All IsLive index
    → total s + length index < 2 ^ 32
    → total (count_entries index s) ≡ total s + length index
unfolding count_entries
total-count_entries [] s live fits = omega arith
total-count_entries (e ∷ rest) s live fits =
    let first = total-count_entry e s live.0 (omega arith) in
    let others = total-count_entries rest (count_entry e s) live.1 (omega arith) in
    omega (arith, first, others)

module _ {F : Type 0} where
  -- For an index of live entries, and statistics with cleared counters as edgesync_queue_get_stats passes
  -- them, each message is counted exactly once: the pending, retrying, in-flight and dead-letter
  -- counters of op_get_stats add up to the number of entries, below 2^32.
  pub total-get_stats :
      (c : Ctx F) (s : Stats)
      → All IsLive c.index
      → total s ≡ 0
      → length c.index < 2 ^ 32
      → total (get_stats c s) ≡ length c.index
  unfolding get_stats
  total-get_stats c s live cleared fits =
      omega (arith, total-count_entries c.index s live (omega arith), cleared)
