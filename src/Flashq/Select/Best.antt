-- ===== src/Flashq/Select/Best.antt =====
-- The choice that the selection loops make, against an order of the entries.
use mathlib.Core.List.{append_assoc, append-nil}
use edgesync_espidf.Prelude.{
  ℕ, ◌+◌, ◌<◌, ◌≡◌, refl, inl, inr, Bool, true, false, ◌&&◌, Option, none, some, List, [], ◌∷◌,
  ◌++◌, length, get_elem?, take, All, All-append, All-map, All-zip, All-get_elem?, ◌^◌, take-append,
  take-append_before, length-append, get_elem?-append, get_elem?-append_length, get_elem?-lt, ◌==◌,
  Bool-cases, arith,
}
use edgesync_espidf.Types.{OverflowPolicy, state_pending}
use edgesync_espidf.Flashq.Context.{Entry}
use edgesync_espidf.Flashq.Select.{
  is_eligible, claims_before, drops_before, replaces, pick_loop, pick_claim, pick_drop,
}

-- A result of a selection over `index`: an eligible entry at its position that no eligible entry
-- precedes, and that strictly precedes the eligible ones before it; or none, where none is eligible.
abbrev pub IsBest :
    (Entry → Bool) → (Entry → Entry → Bool) → List Entry → Option (ℕ × Entry) → Type 0
IsBest eligible before index none = All (λ e. eligible e ≡ false) index
IsBest eligible before index (some (pos, best)) =
    (get_elem? index pos ≡ some best)
    × (eligible best ≡ true)
    × All (λ e. eligible e ≡ true → before e best ≡ false) index
    × All (λ e. eligible e ≡ true → before best e ≡ true) (take pos index)

-- The times of an entry are int64_t bit patterns.
pub record IsTimed (e : Entry) : Type 0 where
  pub next_retry_fits : e.next_retry_at_us < 2 ^ 64
  pub created_fits : e.created_at_us < 2 ^ 64

-- What the loop needs of its order: on such entries it is a strict weak order.
pub record IsWeakOrder (before : Entry → Entry → Bool) : Type 0 where
  pub irrefl : (a : Entry) → before a a ≡ false
  pub below :
      (a b c : Entry)
      → IsTimed a
      → IsTimed b
      → IsTimed c
      → before a b ≡ true
      → before c b ≡ false
      → before c a ≡ false
  pub above :
      (a b c : Entry)
      → IsTimed a
      → IsTimed b
      → IsTimed c
      → before a b ≡ true
      → before c b ≡ false
      → before a c ≡ true

claims_before-IsWeakOrder : IsWeakOrder claims_before
claims_before-IsWeakOrder = record {
  irrefl = λ a. ground arith;
  below = λ a b c ta tb tc p q. ground arith;
  above = λ a b c ta tb tc p q. ground arith;
}

drops_before-IsWeakOrder : (policy : OverflowPolicy) → IsWeakOrder (drops_before policy)
drops_before-IsWeakOrder OverflowPolicy.reject_new = record {
  irrefl = λ a. ground arith;
  below = λ a b c ta tb tc p q. ground arith;
  above = λ a b c ta tb tc p q. ground arith;
}
drops_before-IsWeakOrder _ = record {
  irrefl = λ a. ground arith;
  below = λ a b c ta tb tc p q. ground arith;
  above = λ a b c ta tb tc p q. ground arith;
}

module _ (eligible : Entry → Bool) (before : Entry → Entry → Bool)
    (order : IsWeakOrder before) where
  -- An entry that replaces nothing, or a worse one, is the best so far.
  IsBest-replace :
      (done : List Entry) (e : Entry) (acc : Option (ℕ × Entry))
      → All IsTimed done
      → IsTimed e
      → IsBest eligible before done acc
      → eligible e ≡ true
      → replaces before e acc ≡ true
      → IsBest eligible before (done ++ e ∷ []) (some (length done, e))
  IsBest-replace done e none timed te best el r = (
    get_elem?-append_length done e [],
    el,
    All-append _ done (e ∷ []) (All-map done (λ a h p. cc) best) ((λ p. order.irrefl e), tt),
    rw (take-append done (e ∷ [])) (All-map done (λ a h p. cc) best),
  )
  IsBest-replace done e (some (pos, b)) timed te best el r =
      let tb : IsTimed b = All-get_elem? _ done pos timed best.0 in
      (
        get_elem?-append_length done e [],
        el,
        All-append _ done (e ∷ [])
            (All-zip done (λ a h t p. order.below e b a te tb t r (h p)) best.2 timed)
            ((λ p. order.irrefl e), tt),
        rw (take-append done (e ∷ []))
            (All-zip done (λ a h t p. order.above e b a te tb t r (h p)) best.2 timed),
      )

  -- An entry that is not eligible, or does not replace the best so far, leaves it the best.
  IsBest-keep :
      (done : List Entry) (e : Entry) (acc : Option (ℕ × Entry))
      → IsBest eligible before done acc
      → (eligible e && replaces before e acc) ≡ false
      → IsBest eligible before (done ++ e ∷ []) acc
  IsBest-keep done e none best r = All-append _ done (e ∷ []) best (ground arith, tt)
  IsBest-keep done e (some (pos, b)) best r = (
    get_elem?-append done (e ∷ []) pos best.0,
    best.1,
    All-append _ done (e ∷ []) best.2 ((λ p. ground arith), tt),
    rw (take-append_before pos done (e ∷ []) (omega (arith, get_elem?-lt done pos best.0))) best.3,
  )

  pick_loop-IsBest :
      (rest done : List Entry) (i : ℕ) (acc : Option (ℕ × Entry))
      → i ≡ length done
      → All IsTimed done
      → All IsTimed rest
      → IsBest eligible before done acc
      → IsBest eligible before (done ++ rest) (pick_loop eligible before rest i acc)
  unfolding pick_loop
  pick_loop-IsBest [] done i acc at td tr best = rw (append-nil done) best
  pick_loop-IsBest (e ∷ rest) done i acc at td tr best = rw (← append_assoc done (e ∷ []) rest) (
      pick_loop-IsBest rest (done ++ e ∷ []) (i + 1) _ (omega (arith, length-append done (e ∷ [])))
        (All-append _ done (e ∷ []) td (tr.0, tt)) tr.1
        (elim (Bool-cases (eligible e && replaces before e acc)) [
          | inl taken ↦
              rw (taken, at) (IsBest-replace done e acc td tr.0 best (ground arith) (ground arith))
          | inr kept ↦ rw kept (IsBest-keep done e acc best kept)
        ]))

-- The loop of op_claim_next by its own tests; Choice says what these stand for.
pub pick_claim-IsBest :
    (now_us : ℕ) (index : List Entry)
    → All IsTimed index
    → IsBest (is_eligible now_us) claims_before index (pick_claim now_us index)
unfolding pick_claim
pick_claim-IsBest now_us index timed =
    pick_loop-IsBest (is_eligible now_us) claims_before claims_before-IsWeakOrder index [] 0 none
      refl tt timed tt

-- The loop of op_find_drop_candidate by its own tests.
pub pick_drop-IsBest :
    (policy : OverflowPolicy) (index : List Entry)
    → All IsTimed index
    → IsBest (λ e. e.state == state_pending) (drops_before policy) index (pick_drop policy index)
unfolding pick_drop
pick_drop-IsBest policy index timed =
    pick_loop-IsBest (λ e. e.state == state_pending) (drops_before policy)
      (drops_before-IsWeakOrder policy) index [] 0 none refl tt timed tt
