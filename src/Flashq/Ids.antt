-- ===== src/Flashq/Ids.antt =====
-- The ids of the entries of the index, which only op_enqueue and finish_entry change.
use mathlib.Core.List.{map}
use edgesync_espidf.Prelude.{
  ℕ, zero, suc, ◌-◌, ◌<◌, ◌≡◌, refl, sym, ◌∙◌, ap, ◌⊎◌, inl, inr, Bool, true, false, Option, none,
  some, List, [], ◌∷◌, ◌++◌, length, take, set, ◌==◌, ==→eq, if◌then◌else◌, arith,
}
use mathlib.Core.Option.{some-injective}
use edgesync_espidf.Flashq.Context.{Entry, Ctx, Res, M}
use edgesync_espidf.Flashq.Helpers.{find_entry, entry_at, update_at, remove_entry_at}
use edgesync_espidf.Action.Keeps.{IsFailure, IsPreorder, KeptIn, Keeps}
use edgesync_espidf.Action.Outcome.{Ends-map}
use edgesync_espidf.Flashq.Frame.{cores, Frame, Frames}

abbrev pub ids : List Entry → List ℕ
ids index = map (λ (e : Entry). e.id) index

-- Whether an id is among some.
unfoldable pub Has : ℕ → List ℕ → Type 0
Has i [] = ⊥
Has i (x ∷ xs) = (x ≡ i) ⊎ Has i xs

pub Has-append : (i : ℕ) (xs ys : List Entry) → Has i (ids xs) → Has i (ids (xs ++ ys))
unfolding Has
Has-append i [] ys h = absurd h
Has-append i (x ∷ xs) ys h = elim h [
  | inl here ↦ inl here
  | inr later ↦ inr (Has-append i xs ys later)
]

pub Has-last : (e : Entry) (xs : List Entry) → Has e.id (ids (xs ++ e ∷ []))
unfolding Has
Has-last e [] = inl refl
Has-last e (x ∷ xs) = inr (Has-last e xs)

pub ids-update_at :
    (xs : List Entry) (pos : ℕ) (f : Entry → Entry)
    → ((e : Entry) → (f e).id ≡ e.id)
    → ids (update_at xs pos f) ≡ ids xs
ids-update_at [] pos f h = refl
ids-update_at (x ∷ xs) zero f h = ap (λ i. i ∷ ids xs) (h x)
ids-update_at (x ∷ xs) (suc pos) f h = ap (λ is. x.id ∷ is) (ids-update_at xs pos f h)

ids-cores : (xs : List Entry) → ids (cores xs) ≡ ids xs
ids-cores [] = refl
ids-cores (x ∷ xs) = ap (λ is. x.id ∷ is) (ids-cores xs)

found_cases :
    (b : Bool) (o : Option ℕ) (pos : ℕ)
    → (if b then some 0 else elim o [ none ↦ none | some i ↦ some (suc i) ]) ≡ some pos
    → ((b ≡ true) × (pos ≡ 0)) ⊎ ((j : ℕ) × (o ≡ some j) × (pos ≡ suc j))
found_cases true o pos e = inl (refl, sym (some-injective _ _ e))
found_cases false none pos e = absurd (cc)
found_cases false (some j) pos e = inr (j, refl, sym (some-injective _ _ e))

-- The place that find_entry gives is one of the index, and has the id.
pub find_entry-ids :
    (xs : List Entry) (id pos : ℕ)
    → find_entry xs id ≡ some pos
    → ((entry_at xs pos).id ≡ id) × (pos < length xs)
unfolding find_entry
find_entry-ids [] id pos e = absurd (cc)
find_entry-ids (x ∷ xs) id pos e = elim (found_cases (x.id == id) (find_entry xs id) pos e) [
  | inl (same, here) ↦ rw here (==→eq x.id id same, omega arith)
  | inr (j, found, later) ↦
      let (there, bound) = find_entry-ids xs id j found in rw later (there, omega arith)
]

-- Every id but that of the removed entry stays.
last_or_earlier :
    (i : ℕ) (r : Entry) (rs : List Entry)
    → Has i (ids (r ∷ rs))
    → ((entry_at (r ∷ rs) (length rs)).id ≡ i) ⊎ Has i (ids (take (length rs) (r ∷ rs)))
unfolding Has
last_or_earlier i r [] h = elim h [ inl here ↦ inl here | inr later ↦ absurd later ]
last_or_earlier i r (s ∷ ss) h = elim h [
  | inl here ↦ inr (inl here)
  | inr later ↦ elim (last_or_earlier i s ss later) [
    | inl last ↦ inl last
    | inr earlier ↦ inr (inr earlier)
  ]
]

Has-removed :
    (i : ℕ) (r : Entry) (rs : List Entry) (pos : ℕ)
    → pos < length (r ∷ rs)
    → Has i (ids (r ∷ rs))
    → Has i (ids (take (length rs) (set (r ∷ rs) pos (entry_at (r ∷ rs) (length rs)))))
      ⊎ (i ≡ (entry_at (r ∷ rs) pos).id)
unfolding Has
Has-removed i r [] zero b h = elim h [ inl here ↦ inr (sym here) | inr later ↦ absurd later ]
Has-removed i r [] (suc pos) b h = absurd (omega arith)
Has-removed i r (s ∷ ss) zero b h = elim h [
  | inl here ↦ inr (sym here)
  | inr later ↦ elim (last_or_earlier i s ss later) [
    | inl last ↦ inl (inl last)
    | inr earlier ↦ inl (inr earlier)
  ]
]
Has-removed i r (s ∷ ss) (suc pos) b h = elim h [
  | inl here ↦ inl (inl here)
  | inr later ↦ elim (Has-removed i s ss pos (omega arith) later) [
    | inl left ↦ inl (inr left)
    | inr same ↦ inr same
  ]
]

pub Has-remove_entry_at :
    (i : ℕ) (xs : List Entry) (pos : ℕ)
    → pos < length xs
    → Has i (ids xs)
    → Has i (ids (remove_entry_at xs pos)) ⊎ (i ≡ (entry_at xs pos).id)
unfolding remove_entry_at
Has-remove_entry_at i [] pos b h = absurd (omega arith)
Has-remove_entry_at i (r ∷ rs) pos b h =
    let n : length (r ∷ rs) - 1 ≡ length rs = omega arith in rw n (Has-removed i r rs pos b h)

-- The place of an id, in two indices with the same ids.
pub same_ids-at :
    (xs ys : List Entry) (pos : ℕ) → ids ys ≡ ids xs → (entry_at ys pos).id ≡ (entry_at xs pos).id
same_ids-at [] [] pos e = refl
same_ids-at [] (y ∷ ys) pos e = absurd (cc)
same_ids-at (x ∷ xs) [] pos e = absurd (cc)
same_ids-at (x ∷ xs) (y ∷ ys) zero e = cc
same_ids-at (x ∷ xs) (y ∷ ys) (suc pos) e = same_ids-at xs ys pos (cc)

pub same_ids-bound :
    (xs ys : List Entry) (pos : ℕ) → ids ys ≡ ids xs → pos < length xs → pos < length ys
same_ids-bound [] [] pos e b = b
same_ids-bound [] (y ∷ ys) pos e b = absurd (cc)
same_ids-bound (x ∷ xs) [] pos e b = absurd (cc)
same_ids-bound (x ∷ xs) (y ∷ ys) zero e b = omega arith
same_ids-bound (x ∷ xs) (y ∷ ys) (suc pos) e b =
    let rest = same_ids-bound xs ys pos (cc) (omega arith) in omega arith

module _ {F : Type 0} where
  abbrev pub Same : Ctx F → Ctx F → Type 0
  Same c c' = ids c'.index ≡ ids c.index

  pub Frame-Same : (c c' : Ctx F) → Frame c c' → Same c c'
  Frame-Same c c' p = sym (ids-cores c'.index) ∙ ap (λ es. ids es) p.same_index ∙ ids-cores c.index

pub ids_order : {F : Type 0} → IsPreorder (Same {F = F})
ids_order = record { refl_of = λ c. refl; trans_of = λ a b c p q. q ∙ p }

-- A call keeps the ids, whether it succeeds or fails; and an action that does so from every state.
abbrev pub SameEnds : {F A : Type 0} → Ctx F → Res F A → Type 0
SameEnds c r = KeptIn Same c r

abbrev pub SameIds : {F A : Type 0} → M F A → Type 0
SameIds m = Keeps Same m

module _ {F A : Type 0} where
  pub SameIds-Frames : (m : M F A) → Frames m → SameIds m
  SameIds-Frames m h = record {
    at = λ c.
        Ends-map (m c) _ _ (λ e d. Frame c d × IsFailure e) (λ e d. Same c d × IsFailure e) (h.at c)
          (λ a d q. Frame-Same c d q) (λ e d q. (Frame-Same c d q.0, q.1));
  }
