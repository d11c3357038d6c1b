-- ===== src/Flashq/Positions.antt =====
-- The entries of an index by their positions, which the NVS backend shares.
use edgesync_espidf.Prelude.{
  ℕ, zero, suc, ◌+◌, ◌<◌, ◌≡◌, ◌≢◌, refl, sym, ◌∙◌, ap, ◌⊎◌, inl, inr, List, [], ◌∷◌, length, All,
  arith,
}
use edgesync_espidf.Types.{state_in_flight}
use edgesync_espidf.Flashq.Context.{Entry}
use edgesync_espidf.Flashq.Helpers.{entry_at, update_at}
use edgesync_espidf.Flashq.Frame.{cores}

pub entry_at-update_at :
    (xs : List Entry) (pos : ℕ) (f : Entry → Entry)
    → pos < length xs
    → entry_at (update_at xs pos f) pos ≡ f (entry_at xs pos)
entry_at-update_at [] pos f b = absurd (omega arith)
entry_at-update_at (x ∷ xs) zero f b = refl
entry_at-update_at (x ∷ xs) (suc pos) f b = entry_at-update_at xs pos f (omega arith)

pub entry_at-update_at_before :
    (xs : List Entry) (pos i : ℕ) (f : Entry → Entry)
    → i < pos
    → entry_at (update_at xs pos f) i ≡ entry_at xs i
entry_at-update_at_before [] pos i f b = refl
entry_at-update_at_before (x ∷ xs) zero i f b = absurd (omega arith)
entry_at-update_at_before (x ∷ xs) (suc pos) zero f b = refl
entry_at-update_at_before (x ∷ xs) (suc pos) (suc i) f b =
    entry_at-update_at_before xs pos i f (omega arith)

pub length-update_at :
    (xs : List Entry) (pos : ℕ) (f : Entry → Entry) → length (update_at xs pos f) ≡ length xs
length-update_at [] pos f = refl
length-update_at (x ∷ xs) zero f = refl
length-update_at (x ∷ xs) (suc pos) f = ap suc (length-update_at xs pos f)

-- Two indices that differ in the offsets of the records alone.
pub cores-state :
    (xs ys : List Entry) (i : ℕ)
    → cores ys ≡ cores xs
    → (entry_at ys i).state ≡ (entry_at xs i).state
cores-state [] [] i e = refl
cores-state [] (y ∷ ys) i e = absurd (cc)
cores-state (x ∷ xs) [] i e = absurd (cc)
cores-state (x ∷ xs) (y ∷ ys) zero e = cc
cores-state (x ∷ xs) (y ∷ ys) (suc i) e = cores-state xs ys i (cc)

pub cores-length : (xs ys : List Entry) → cores ys ≡ cores xs → length ys ≡ length xs
cores-length [] [] e = refl
cores-length [] (y ∷ ys) e = absurd (cc)
cores-length (x ∷ xs) [] e = absurd (cc)
cores-length (x ∷ xs) (y ∷ ys) e = ap suc (cores-length xs ys (cc))

-- No entry before a position is IN_FLIGHT; and no entry is.
abbrev pub IsRestedTo : ℕ → List Entry → Type 0
IsRestedTo pos xs = (i : ℕ) → i < pos → (entry_at xs i).state ≢ state_in_flight

abbrev pub IsRested : List Entry → Type 0
IsRested xs = All (λ (e : Entry). e.state ≢ state_in_flight) xs

pub IsRested-all : (xs : List Entry) → IsRestedTo (length xs) xs → IsRested xs
IsRested-all [] h = tt
IsRested-all (x ∷ xs) h = (h 0 (omega arith), IsRested-all xs (λ i b. h (suc i) (omega arith)))

-- One position more.
pub IsRestedTo-next :
    (pos : ℕ) (xs ys : List Entry)
    → IsRestedTo pos xs
    → ((i : ℕ) → i < pos → (entry_at ys i).state ≡ (entry_at xs i).state)
    → (entry_at ys pos).state ≢ state_in_flight
    → IsRestedTo (pos + 1) ys
IsRestedTo-next pos xs ys h same here i b =
    let split : (i < pos) ⊎ (i ≡ pos) = ground arith in
    elim split [
      | inl earlier ↦ λ e. h i earlier (sym (same i earlier) ∙ e)
      | inr last ↦ rw last here
    ]
