-- ===== src/Flashq/Recovery/Choice.antt =====
-- Which region op_recover goes on with.
use edgesync_espidf.Prelude.{
  ℕ, ◌≤◌, ◌<◌, ◌≡◌, refl, ◌⊎◌, inl, inr, Bool-cases, Option, none, some, leb, leb→le, leb→lt,
}
use edgesync_espidf.Flashq.Recovery.{choose_region}

-- The other region is not ACTIVE, or of a generation that satisfies the condition.
abbrev pub OtherIs : (ℕ → Type 0) → Option ℕ → Type 0
OtherIs C none = Unit
OtherIs C (some generation) = C generation

-- From the generations of the regions that are valid and ACTIVE, op_recover chooses no region exactly
-- if neither is; region 0 if it is, and the other one is not or is of no higher generation; and region 1
-- if it is, and the other one is not or is of a lower generation.
pub choose_region_lem :
    (first second : Option ℕ)
    → ((choose_region first second ≡ none) × (first ≡ none) × (second ≡ none))
      ⊎ ((generation : ℕ) × (choose_region first second ≡ some (0, generation))
          × (first ≡ some generation)
          × OtherIs (λ g. g ≤ generation) second)
      ⊎ ((generation : ℕ) × (choose_region first second ≡ some (1, generation))
          × (second ≡ some generation)
          × OtherIs (λ g. g < generation) first)
unfolding choose_region
choose_region_lem none none = inl (refl, refl, refl)
choose_region_lem (some g0) none = inr (inl (g0, refl, refl, tt))
choose_region_lem none (some g1) = inr (inr (g1, refl, refl, tt))
choose_region_lem (some g0) (some g1) = elim (Bool-cases (leb g1 g0)) [
  | inl not_higher ↦ inr (inl (g0, rw not_higher refl, refl, leb→le g1 g0 not_higher))
  | inr higher ↦ inr (inr (g1, rw higher refl, refl, leb→lt g1 g0 higher))
]
