-- ===== src/Flashq/Select/Choice.antt =====
-- What the selection loops promise the application, stated on the fields of the entries.
use edgesync_espidf.Prelude.{
  ℕ, ◌+◌, ◌%◌, ◌^◌, ◌≤◌, ◌<◌, ◌≡◌, ◌⊎◌, Bool, true, false, Option, none, some, List, get_elem?,
  take, All, All-map, All-zip, All-get_elem?, ◌==◌, arith,
}
use edgesync_espidf.Types.{OverflowPolicy, state_pending}
use edgesync_espidf.Flashq.Context.{Entry}
use edgesync_espidf.Flashq.Select.{is_eligible, claims_before, drops_before, pick_claim, pick_drop}
use edgesync_espidf.Flashq.Select.Best.{IsBest, IsTimed, pick_claim-IsBest, pick_drop-IsBest}

-- The place of an int64_t bit pattern among the signed numbers, counted from the lowest.
abbrev pub place : ℕ → ℕ
place w = (w + 2 ^ 63) % 2 ^ 64

-- A PENDING message whose retry time has come.
abbrev pub IsDue : ℕ → Entry → Type 0
IsDue now_us e = (e.state ≡ state_pending) × (place e.next_retry_at_us ≤ place now_us)

abbrev pub IsPending : Entry → Type 0
IsPending e = e.state ≡ state_pending

-- The higher priority goes first, then the earlier retry time, then the earlier creation.
abbrev pub GoesBefore : Entry → Entry → Type 0
GoesBefore a b =
    (b.priority < a.priority)
    ⊎ ((a.priority ≡ b.priority) × (place a.next_retry_at_us < place b.next_retry_at_us))
    ⊎ ((a.priority ≡ b.priority)
        × (place a.next_retry_at_us ≡ place b.next_retry_at_us)
        × (place a.created_at_us < place b.created_at_us))

-- The lower priority is dropped first under DROP_LOWEST_PRIORITY, then the earlier creation; under the other
-- policies the earlier creation alone counts.
abbrev pub DropsBefore : OverflowPolicy → Entry → Entry → Type 0
DropsBefore OverflowPolicy.drop_lowest_priority a b =
    (a.priority < b.priority)
    ⊎ ((a.priority ≡ b.priority) × (place a.created_at_us < place b.created_at_us))
DropsBefore OverflowPolicy.drop_oldest a b = place a.created_at_us < place b.created_at_us
DropsBefore OverflowPolicy.reject_new a b = place a.created_at_us < place b.created_at_us

-- A choice among the candidates of an index: one that no candidate goes before, the first such; or
-- none, where there is no candidate.
abbrev pub IsChoice :
    (Entry → Type 0) → (Entry → Entry → Type 0) → List Entry → Option (ℕ × Entry) → Type 0
IsChoice Candidate Before index none = All (λ e. ¬ (Candidate e)) index
IsChoice Candidate Before index (some (pos, best)) =
    (get_elem? index pos ≡ some best)
    × Candidate best
    × All (λ e. Candidate e → ¬ (Before e best)) index
    × All (λ e. Candidate e → Before best e) (take pos index)

IsDue-is_eligible : (now_us : ℕ) (e : Entry) → IsDue now_us e → is_eligible now_us e ≡ true
IsDue-is_eligible now_us e h = ground arith

is_eligible-IsDue : (now_us : ℕ) (e : Entry) → is_eligible now_us e ≡ true → IsDue now_us e
is_eligible-IsDue now_us e h = ground arith

GoesBefore-claims_before :
    (a b : Entry) → IsTimed a → IsTimed b → GoesBefore a b → claims_before a b ≡ true
GoesBefore-claims_before a b ta tb h = ground arith

claims_before-GoesBefore : (a b : Entry) → claims_before a b ≡ true → GoesBefore a b
claims_before-GoesBefore a b h = ground arith

DropsBefore-drops_before :
    (policy : OverflowPolicy) (a b : Entry)
    → DropsBefore policy a b
    → drops_before policy a b ≡ true
DropsBefore-drops_before OverflowPolicy.drop_lowest_priority a b h = ground arith
DropsBefore-drops_before OverflowPolicy.drop_oldest a b h = ground arith
DropsBefore-drops_before OverflowPolicy.reject_new a b h = ground arith

drops_before-DropsBefore :
    (policy : OverflowPolicy) (a b : Entry)
    → drops_before policy a b ≡ true
    → DropsBefore policy a b
drops_before-DropsBefore OverflowPolicy.drop_lowest_priority a b h = ground arith
drops_before-DropsBefore OverflowPolicy.drop_oldest a b h = ground arith
drops_before-DropsBefore OverflowPolicy.reject_new a b h = ground arith

true_not_false : {b : Bool} → b ≡ true → ¬ (b ≡ false)
true_not_false p q = ground arith

-- A choice by Boolean tests that decide the conditions is a choice by the conditions.
module _ (Candidate : Entry → Type 0) (Before : Entry → Entry → Type 0) (eligible : Entry → Bool)
    (before : Entry → Entry → Bool) (eligible_of : (e : Entry) → Candidate e → eligible e ≡ true)
    (candidate_of : (e : Entry) → eligible e ≡ true → Candidate e)
    (before_of : (a b : Entry) → IsTimed a → IsTimed b → Before a b → before a b ≡ true)
    (goes_of : (a b : Entry) → before a b ≡ true → Before a b) where
  IsChoice-tests :
      (index : List Entry) (found : Option (ℕ × Entry))
      → All IsTimed index
      → IsBest eligible before index found
      → IsChoice Candidate Before index found
  IsChoice-tests index none timed h =
      All-map index (λ e no c. true_not_false (eligible_of e c) no) h
  IsChoice-tests index (some (pos, best)) timed (at, good, least, first) = (
    at,
    candidate_of best good,
    All-zip index
        (λ e h te c b.
          true_not_false (before_of e best te (All-get_elem? _ index pos timed at) b)
            (h (eligible_of e c)))
        least timed,
    All-map (take pos index) (λ e h c. goes_of best e (h (eligible_of e c))) first,
  )

-- Where the times of all entries fit int64_t: op_claim_next picks a PENDING message that is due
-- such that no other one that is PENDING and due has a higher priority, nor the same priority and
-- an earlier retry time, nor these the same and an earlier creation, and of several such the first
-- in the index; and it picks none only where no message is PENDING and due.
pub pick_claim-IsChoice :
    (now_us : ℕ) (index : List Entry)
    → All IsTimed index
    → IsChoice (IsDue now_us) GoesBefore index (pick_claim now_us index)
pick_claim-IsChoice now_us index timed =
    IsChoice-tests (IsDue now_us) GoesBefore (is_eligible now_us) claims_before
      (IsDue-is_eligible now_us) (is_eligible-IsDue now_us) GoesBefore-claims_before
      claims_before-GoesBefore index (pick_claim now_us index) timed
      (pick_claim-IsBest now_us index timed)

-- Where the times of all entries fit int64_t: op_find_drop_candidate picks a PENDING message such
-- that no other PENDING one has, under DROP_LOWEST_PRIORITY, a lower priority, or the same priority
-- and an earlier creation, or, under the other policies, an earlier creation, and of several such
-- the first in the index; and it picks none only where no message is PENDING.
pub pick_drop-IsChoice :
    (policy : OverflowPolicy) (index : List Entry)
    → All IsTimed index
    → IsChoice IsPending (DropsBefore policy) index (pick_drop policy index)
pick_drop-IsChoice policy index timed =
    IsChoice-tests IsPending (DropsBefore policy) (λ e. e.state == state_pending)
      (drops_before policy) (λ e h. ground arith) (λ e h. ground arith)
      (λ a b ta tb h. DropsBefore-drops_before policy a b h) (drops_before-DropsBefore policy) index
      (pick_drop policy index) timed (pick_drop-IsBest policy index timed)
