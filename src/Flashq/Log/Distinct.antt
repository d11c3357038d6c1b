-- ===== src/Flashq/Log/Distinct.antt =====
-- Entries that have different ids, under the assignments and removals of the calls.
use edgesync_espidf.Prelude.{
  ℕ, zero, suc, ◌-◌, ◌<◌, ◌≡◌, refl, sym, ◌∙◌, ap, ◌⊎◌, inl, inr, Bool-cases, none, some, List, [],
  ◌∷◌, ◌++◌, length, take, set, length-take, length-set, ◌==◌, eq→==, arith,
}
use edgesync_espidf.Flashq.Context.{Entry}
use edgesync_espidf.Flashq.Helpers.{find_entry, entry_at, remove_entry_at}
use edgesync_espidf.Flashq.Ids.{ids, find_entry-ids, same_ids-at, same_ids-bound}

abbrev pub IsDistinct : List Entry → Type 0
IsDistinct xs =
    (i j : ℕ) → i < length xs → j < length xs → (entry_at xs i).id ≡ (entry_at xs j).id → i ≡ j

find_entry-exists :
    (xs : List Entry) (pos : ℕ)
    → pos < length xs
    → (j : ℕ) × (find_entry xs (entry_at xs pos).id ≡ some j)
unfolding find_entry
find_entry-exists [] pos b = absurd (omega arith)
find_entry-exists (x ∷ xs) zero b = (0, rw (eq→== x.id x.id refl, find_entry) refl)
find_entry-exists (x ∷ xs) (suc pos) b =
    let (j, found) = find_entry-exists xs pos (omega arith) in
    elim (Bool-cases (x.id == (entry_at xs pos).id)) [
      | inl same ↦ (0, rw (same, find_entry) refl)
      | inr other ↦ (suc j, rw (other, find_entry, found) refl)
    ]

-- An entry is the one that find_entry gives for its id.
pub find_entry-distinct :
    (xs : List Entry) (pos : ℕ)
    → IsDistinct xs
    → pos < length xs
    → find_entry xs (entry_at xs pos).id ≡ some pos
find_entry-distinct xs pos h b =
    let (j, found) = find_entry-exists xs pos b in
    let (same, bound) = find_entry-ids xs (entry_at xs pos).id j found in
    found ∙ ap some (h j pos bound b same)

pub IsDistinct-ids : (xs ys : List Entry) → ids ys ≡ ids xs → IsDistinct xs → IsDistinct ys
IsDistinct-ids xs ys e h i j bi bj same =
    h i j (same_ids-bound ys xs i (sym e) bi) (same_ids-bound ys xs j (sym e) bj)
      (sym (same_ids-at xs ys i e) ∙ same ∙ same_ids-at xs ys j e)

entry_at-take : (n : ℕ) (xs : List Entry) (i : ℕ) → i < n → entry_at (take n xs) i ≡ entry_at xs i
entry_at-take zero xs i b = absurd (omega arith)
entry_at-take (suc n) [] i b = refl
entry_at-take (suc n) (x ∷ xs) zero b = refl
entry_at-take (suc n) (x ∷ xs) (suc i) b = entry_at-take n xs i (omega arith)

entry_at-set :
    (xs : List Entry) (pos i : ℕ) (e : Entry)
    → i < length xs
    → ((i ≡ pos) × (entry_at (set xs pos e) i ≡ e)) ⊎ (entry_at (set xs pos e) i ≡ entry_at xs i)
entry_at-set [] pos i e b = absurd (omega arith)
entry_at-set (x ∷ xs) zero zero e b = inl (refl, refl)
entry_at-set (x ∷ xs) zero (suc i) e b = inr refl
entry_at-set (x ∷ xs) (suc pos) zero e b = inr refl
entry_at-set (x ∷ xs) (suc pos) (suc i) e b = elim (entry_at-set xs pos i e (omega arith)) [
  | inl (same, there) ↦ inl (omega (arith, same), there)
  | inr kept ↦ inr kept
]

-- Where an entry stood before a removal: the entry at `pos` was the last one.
removed_from :
    (xs : List Entry) (pos i : ℕ)
    → i < length xs - 1
    → ((i ≡ pos) × (entry_at (remove_entry_at xs pos) i ≡ entry_at xs (length xs - 1)))
      ⊎ (entry_at (remove_entry_at xs pos) i ≡ entry_at xs i)
unfolding remove_entry_at
removed_from xs pos i b =
    let last : Entry = entry_at xs (length xs - 1) in
    let cut = entry_at-take (length xs - 1) (set xs pos last) i b in
    elim (entry_at-set xs pos i last (omega arith)) [
      | inl (same, there) ↦ inl (same, cut ∙ there)
      | inr kept ↦ inr (cut ∙ kept)
    ]

length-remove_entry_at :
    (xs : List Entry) (pos : ℕ) → length (remove_entry_at xs pos) ≡ length xs - 1
unfolding remove_entry_at
length-remove_entry_at xs pos =
    let last : Entry = entry_at xs (length xs - 1) in
    omega (arith, length-take (length xs - 1) (set xs pos last), length-set xs pos last)

pub IsDistinct-remove_entry_at :
    (xs : List Entry) (pos : ℕ) → IsDistinct xs → IsDistinct (remove_entry_at xs pos)
IsDistinct-remove_entry_at xs pos h i j bi bj same =
    let n : length (remove_entry_at xs pos) ≡ length xs - 1 = length-remove_entry_at xs pos in
    let ci : i < length xs - 1 = omega (arith, n) in
    let cj : j < length xs - 1 = omega (arith, n) in
    elim (removed_from xs pos i ci) [
      | inl (pi, ei) ↦ elim (removed_from xs pos j cj) [
        | inl (pj, ej) ↦ omega (arith, pi, pj)
        | inr ej ↦
            let e =
              h (length xs - 1) j (omega arith) (omega arith)
                (ap (λ (x : Entry). x.id) (sym ei) ∙ same ∙ ap (λ (x : Entry). x.id) ej) in
            absurd (omega (arith, e))
      ]
      | inr ei ↦ elim (removed_from xs pos j cj) [
        | inl (pj, ej) ↦
            let e =
              h i (length xs - 1) (omega arith) (omega arith)
                (ap (λ (x : Entry). x.id) (sym ei) ∙ same ∙ ap (λ (x : Entry). x.id) ej) in
            absurd (omega (arith, e))
        | inr ej ↦
            h i j (omega arith) (omega arith)
              (ap (λ (x : Entry). x.id) (sym ei) ∙ same ∙ ap (λ (x : Entry). x.id) ej)
      ]
    ]

entry_at-append :
    (xs : List Entry) (e : Entry) (i : ℕ)
    → i < length (xs ++ e ∷ [])
    → ((i ≡ length xs) × (entry_at (xs ++ e ∷ []) i ≡ e))
      ⊎ ((i < length xs) × (entry_at (xs ++ e ∷ []) i ≡ entry_at xs i))
entry_at-append [] e zero b = inl (refl, refl)
entry_at-append [] e (suc i) b = absurd (omega arith)
entry_at-append (x ∷ xs) e zero b = inr (omega arith, refl)
entry_at-append (x ∷ xs) e (suc i) b = elim (entry_at-append xs e i (omega arith)) [
  | inl (same, there) ↦ inl (omega (arith, same), there)
  | inr (before, kept) ↦ inr (omega (arith, before), kept)
]

-- An id that find_entry does not find is no entry's.
find_entry-none :
    (xs : List Entry) (id i : ℕ)
    → find_entry xs id ≡ none
    → i < length xs
    → ¬ ((entry_at xs i).id ≡ id)
find_entry-none xs id i fresh b same =
    let (j, found) = find_entry-exists xs i b in cc (ap (find_entry xs) same)

pub IsDistinct-append :
    (xs : List Entry) (e : Entry)
    → IsDistinct xs
    → find_entry xs e.id ≡ none
    → IsDistinct (xs ++ e ∷ [])
IsDistinct-append xs e h fresh i j bi bj same =
    let id_of : Entry → ℕ = λ x. x.id in
    elim (entry_at-append xs e i bi) [
      | inl (pi, ei) ↦ elim (entry_at-append xs e j bj) [
        | inl (pj, ej) ↦ omega (arith, pi, pj)
        | inr (bj', ej) ↦
            absurd
              (find_entry-none xs e.id j fresh bj' (sym (ap id_of ej) ∙ sym same ∙ ap id_of ei))
      ]
      | inr (bi', ei) ↦ elim (entry_at-append xs e j bj) [
        | inl (pj, ej) ↦
            absurd (find_entry-none xs e.id i fresh bi' (sym (ap id_of ei) ∙ same ∙ ap id_of ej))
        | inr (bj', ej) ↦ h i j bi' bj' (sym (ap id_of ei) ∙ same ∙ ap id_of ej)
      ]
    ]
