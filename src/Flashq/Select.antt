-- ===== src/Flashq/Select.antt =====
-- The loops of op_claim_next and op_find_drop_candidate that pick an entry of the index. The NVS
-- backend (edgesync_storage_nvs.c) has the same two loops over the same fields.
pub mod Best
pub mod Choice
use edgesync_espidf.Prelude.{
  ℕ, zero, suc, ◌+◌, Bool, true, false, not, ◌&&◌, ◌||◌, Option, none, some, List, [], ◌∷◌, ltb,
  ◌==◌, if◌then◌else◌, ltb_i64,
}
use edgesync_espidf.Types.{OverflowPolicy, state_pending}
use edgesync_espidf.Flashq.Context.{Entry}

-- The test that skips an entry in op_claim_next, negated: PENDING, and due at `now_us`.
abbrev pub is_eligible : ℕ → Entry → Bool
is_eligible now_us e = (e.state == state_pending) && not (ltb_i64 now_us e.next_retry_at_us)

-- The test by which an entry replaces the best one so far in op_claim_next.
abbrev pub claims_before : Entry → Entry → Bool
claims_before e best =
    ltb best.priority e.priority
    || (((e.priority == best.priority) && ltb_i64 e.next_retry_at_us best.next_retry_at_us)
        || ((e.priority == best.priority)
            && ((e.next_retry_at_us == best.next_retry_at_us)
                && ltb_i64 e.created_at_us best.created_at_us)))

-- The test in op_find_drop_candidate.
abbrev pub drops_before : OverflowPolicy → Entry → Entry → Bool
drops_before OverflowPolicy.drop_lowest_priority e best =
    ltb e.priority best.priority
    || ((e.priority == best.priority) && ltb_i64 e.created_at_us best.created_at_us)
drops_before OverflowPolicy.drop_oldest e best = ltb_i64 e.created_at_us best.created_at_us
drops_before OverflowPolicy.reject_new e best = ltb_i64 e.created_at_us best.created_at_us

abbrev pub replaces : (Entry → Entry → Bool) → Entry → Option (ℕ × Entry) → Bool
replaces before e none = true
replaces before e (some (pos, best)) = before e best

-- The loop, at position `i`, with the best entry so far and its position.
unfoldable pub pick_loop :
    (Entry → Bool)
    → (Entry → Entry → Bool)
    → List Entry
    → ℕ
    → Option (ℕ × Entry)
    → Option (ℕ × Entry)
pick_loop eligible before [] i best = best
pick_loop eligible before (e ∷ rest) i best =
    pick_loop eligible before rest (i + 1)
      (if eligible e && replaces before e best then some (i, e) else best)

-- The loop of op_claim_next.
unfoldable pub pick_claim : ℕ → List Entry → Option (ℕ × Entry)
pick_claim now_us index = pick_loop (is_eligible now_us) claims_before index 0 none

-- The loop of op_find_drop_candidate.
unfoldable pub pick_drop : OverflowPolicy → List Entry → Option (ℕ × Entry)
pick_drop policy index =
    pick_loop (λ e. e.state == state_pending) (drops_before policy) index 0 none
