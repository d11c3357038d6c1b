-- ===== src/Nvs/Slots.antt =====
-- The invariant of the slots of edgesync_storage_nvs.c, step by step.
pub mod Run
pub mod Reach
use edgesync_espidf.Prelude.{
  ℕ, zero, suc, ◌+◌, ◌-◌, ◌≤◌, ◌<◌, ◌≡◌, refl, sym, ◌∙◌, ap, Bool, true, false, Bool-cases, inl,
  inr, Option, none, some, List, [], ◌∷◌, ◌++◌, length, set, take, replicate, length-take,
  length-set, length-append, ◌==◌, eq→==, if◌then◌else◌, arith,
}
use mathlib.Core.Option.{some-injective}
use mathlib.Core.Path.{subst}
use edgesync_espidf.Flashq.Helpers.{entry_at, remove_entry_at}
use edgesync_espidf.Nvs.{
  Nvs, Ctx, NvsEntry, slot_of, is_used, free_slot_loop, find_free_slot, free_entry_at,
}
use edgesync_espidf.Nvs.Frame.{Frame, slots}

-- How many entries have the slot.
unfoldable pub owners : ℕ → List ℕ → ℕ
owners s [] = 0
owners s (x ∷ xs) = let rest = owners s xs in if x == s then rest + 1 else rest

abbrev pub bit : Bool → ℕ
bit true = 1
bit false = 0

abbrev hit : ℕ → ℕ → ℕ
hit s x = bit (x == s)

-- Every slot has one owner if it is marked as used, and none otherwise; the marks are one for each
-- message, and the index has no more entries than its capacity.
pub record IsSlotted {S : Type 0} (c : Ctx S) : Type 0 where
  pub owned : (s : ℕ) → owners s (slots c.index) ≡ bit (is_used c.slot_used s)
  pub marks : length c.slot_used ≡ c.max_messages
  pub fits : length c.index ≤ c.index_capacity

owners-append : (s x : ℕ) (xs : List ℕ) → owners s (xs ++ x ∷ []) ≡ owners s xs + hit s x
unfolding owners
owners-append s x [] = ground arith
owners-append s x (y ∷ ys) = let ih = owners-append s x ys in ground (arith, ih)

slots-append :
    (xs : List NvsEntry) (e : NvsEntry) → slots (xs ++ e ∷ []) ≡ slots xs ++ slot_of e ∷ []
slots-append [] e = refl
slots-append (x ∷ xs) e = ap (λ is. slot_of x ∷ is) (slots-append xs e)

-- The last entry moves to the place of the removed one.
owners-last :
    (s : ℕ) (r : NvsEntry) (rs : List NvsEntry)
    → owners s (slots (take (length rs) (r ∷ rs))) + hit s (slot_of (entry_at (r ∷ rs) (length rs)))
      ≡ owners s (slots (r ∷ rs))
unfolding owners
owners-last s r [] = ground arith
owners-last s r (x ∷ xs) = let ih = owners-last s x xs in ground (arith, ih)

owners-swapped :
    (s : ℕ) (r : NvsEntry) (rs : List NvsEntry) (pos : ℕ)
    → pos < length (r ∷ rs)
    → owners s (slots (take (length rs) (set (r ∷ rs) pos (entry_at (r ∷ rs) (length rs)))))
        + hit s (slot_of (entry_at (r ∷ rs) pos))
      ≡ owners s (slots (r ∷ rs))
unfolding owners
owners-swapped s r [] zero b = ground arith
owners-swapped s r [] (suc pos) b = absurd (omega arith)
owners-swapped s r (x ∷ xs) zero b = let ih = owners-last s x xs in ground (arith, ih)
owners-swapped s r (x ∷ xs) (suc pos) b =
    let ih = owners-swapped s x xs pos (omega arith) in ground (arith, ih)

owners-remove_entry_at :
    (s : ℕ) (xs : List NvsEntry) (pos : ℕ)
    → pos < length xs
    → owners s (slots (remove_entry_at xs pos)) + hit s (slot_of (entry_at xs pos))
      ≡ owners s (slots xs)
unfolding remove_entry_at
owners-remove_entry_at s [] pos b = absurd (omega arith)
owners-remove_entry_at s (r ∷ rs) pos b =
    let n : length (r ∷ rs) - 1 ≡ length rs = omega arith in rw n (owners-swapped s r rs pos b)

length-remove_entry_at :
    (xs : List NvsEntry) (pos : ℕ) → pos < length xs → length (remove_entry_at xs pos) ≤ length xs
unfolding remove_entry_at
length-remove_entry_at xs pos b =
    let taken = length-take (length xs - 1) (set xs pos (entry_at xs (length xs - 1))) in
    omega (arith, taken)

-- A mark that is set.
is_used-set :
    (used : List Bool) (t s : ℕ) (b : Bool)
    → t < length used
    → is_used (set used t b) s ≡ (if t == s then b else is_used used s)
is_used-set [] t s b h = absurd (omega arith)
is_used-set (x ∷ xs) zero zero b h = refl
is_used-set (x ∷ xs) zero (suc s) b h = ground arith
is_used-set (x ∷ xs) (suc t) zero b h = ground arith
is_used-set (x ∷ xs) (suc t) (suc s) b h =
    let ih = is_used-set xs t s b (omega arith) in ground (arith, ih)

is_used-replicate : (n s : ℕ) → is_used (replicate n false) s ≡ false
is_used-replicate zero s = refl
is_used-replicate (suc n) zero = refl
is_used-replicate (suc n) (suc s) = is_used-replicate n s

is_used-lt : (used : List Bool) (s : ℕ) → is_used used s ≡ true → s < length used
is_used-lt [] s e = absurd (cc)
is_used-lt (x ∷ xs) zero e = omega arith
is_used-lt (x ∷ xs) (suc s) e = let ih = is_used-lt xs s e in omega arith

-- The slot that find_free_slot gives is one of the backend, and free.
free_slot_loop-free :
    (n i : ℕ) (used : List Bool) (slot : ℕ)
    → free_slot_loop n i used ≡ some slot
    → (is_used used slot ≡ false) × (slot < i + n)
unfolding free_slot_loop
free_slot_loop-free zero i used slot e = absurd (cc)
free_slot_loop-free (suc n) i used slot e = elim (Bool-cases (is_used used i)) [
  | inl taken ↦
      let (free, bound) = free_slot_loop-free n (i + 1) used slot (rw taken at e) in
      (free, omega arith)
  | inr free ↦
      let here : i ≡ slot = some-injective _ _ (rw free at e) in (rw here at free, omega arith)
]

length-slots : (xs : List NvsEntry) → length (slots xs) ≡ length xs
length-slots [] = refl
length-slots (x ∷ xs) = ap suc (length-slots xs)

module _ {S : Type 0} where
  pub IsSlotted-Frame : (c c' : Ctx S) → Frame c c' → IsSlotted c → IsSlotted c'
  IsSlotted-Frame c c' p h = record {
    owned =
        subst
          (λ (v : List ℕ × List ℕ × List Bool × ℕ × ℕ).
            (s : ℕ) → owners s v.1 ≡ bit (is_used v.2 s))
          (sym p) h.owned;
    marks = subst (λ (v : List ℕ × List ℕ × List Bool × ℕ × ℕ). length v.2 ≡ v.4) (sym p) h.marks;
    fits = rw (length-slots c'.index) at (
        subst (λ (v : List ℕ × List ℕ × List Bool × ℕ × ℕ). length v.1 ≤ v.3) (sym p)
          (omega (arith, length-slots c.index, h.fits)));
  }

  -- An entry in a free slot.
  pub IsSlotted-added :
      (c : Ctx S) (e : NvsEntry)
      → IsSlotted c
      → is_used c.slot_used (slot_of e) ≡ false
      → slot_of e < c.max_messages
      → length c.index < c.index_capacity
      → IsSlotted
          (record c { index = c.index ++ e ∷ []; slot_used = set c.slot_used (slot_of e) true })
  IsSlotted-added c e h free bound room = record {
    owned = λ s.
        let was = h.owned s in
        let there = h.owned (slot_of e) in
        let mark = is_used-set c.slot_used (slot_of e) s true (omega (arith, h.marks)) in
        rw (slots-append c.index e, owners-append s (slot_of e) (slots c.index))
          (ground (arith, mark, was, there, free));
    marks = length-set c.slot_used (slot_of e) true ∙ h.marks;
    fits = omega (arith, length-append c.index (e ∷ []));
  }

  -- An entry that leaves.
  pub IsSlotted-freed :
      (c : Ctx S) (pos : ℕ) → IsSlotted c → pos < length c.index → IsSlotted (free_entry_at c pos)
  IsSlotted-freed c pos h bound = record {
    owned = λ s.
        let slot = slot_of (entry_at c.index pos) in
        let here = owners-remove_entry_at slot c.index pos bound in
        let there = owners-remove_entry_at s c.index pos bound in
        let used : is_used c.slot_used slot ≡ true =
          ground (arith, here, h.owned slot, eq→== slot slot refl) in
        let mark = is_used-set c.slot_used slot s false (is_used-lt c.slot_used slot used) in
        ground (arith, mark, there, h.owned s);
    marks = length-set c.slot_used (slot_of (entry_at c.index pos)) false ∙ h.marks;
    fits = omega (arith, length-remove_entry_at c.index pos bound, h.fits);
  }
