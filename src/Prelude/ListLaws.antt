-- ===== src/Prelude/ListLaws.antt =====
-- The laws of the list operations: lengths, and cuts of an appended list.
use Prim.Native.Nat.{ℕ, zero, suc, ◌+◌, ◌-◌, ◌≤◌, ◌<◌, min}
use native.Mathlib.Nat.{zero-add, suc-add}
use native.Mathlib.Omega.{arith}
use mathlib.Core.Path.{◌≡◌, refl, ap, subst}
use mathlib.Core.Option.{some, some-injective}
use mathlib.Core.List.{List, [], ◌∷◌, ◌++◌}
use edgesync_espidf.Prelude.Lists.{length, get_elem?, set, take, drop, replicate, All}

module _ {ℓ} {A : Type ℓ} where
  pub length-append : (xs ys : List A) → length (xs ++ ys) ≡ length xs + length ys
  length-append [] ys = omega arith
  length-append (x ∷ xs) ys = omega (arith, length-append xs ys)

  pub length-replicate : (n : ℕ) (a : A) → length (replicate n a) ≡ n
  length-replicate zero a = refl
  length-replicate (suc n) a = ap suc (length-replicate n a)

  pub length-set : (xs : List A) (i : ℕ) (v : A) → length (set xs i v) ≡ length xs
  length-set [] i v = refl
  length-set (x ∷ xs) zero v = refl
  length-set (x ∷ xs) (suc i) v = ap suc (length-set xs i v)

  pub take-append : (xs ys : List A) → take (length xs) (xs ++ ys) ≡ xs
  take-append [] ys = refl
  take-append (x ∷ xs) ys = ap (◌∷◌ x) (take-append xs ys)

  pub drop-append : (xs ys : List A) → drop (length xs) (xs ++ ys) ≡ ys
  drop-append [] ys = refl
  drop-append (x ∷ xs) ys = drop-append xs ys

  pub length-take : (n : ℕ) (xs : List A) → length (take n xs) ≡ min n (length xs)
  length-take zero xs = omega arith
  length-take (suc n) [] = omega arith
  length-take (suc n) (x ∷ xs) = omega (arith, length-take n xs)

  pub length-drop : (n : ℕ) (xs : List A) → length (drop n xs) ≡ length xs - n
  length-drop zero xs = omega arith
  length-drop (suc n) [] = omega arith
  length-drop (suc n) (x ∷ xs) = omega (arith, length-drop n xs)

  pub All-append {κ} : (P : A → Type κ) (xs ys : List A) → All P xs → All P ys → All P (xs ++ ys)
  All-append P [] ys p q = q
  All-append P (x ∷ xs) ys p q = (p.0, All-append P xs ys p.1 q)

  pub All-replicate {κ} : (P : A → Type κ) (n : ℕ) (a : A) → P a → All P (replicate n a)
  All-replicate P zero a p = tt
  All-replicate P (suc n) a p = (p, All-replicate P n a p)

  pub take-append_of : (n : ℕ) (xs ys : List A) → length xs ≡ n → take n (xs ++ ys) ≡ xs
  take-append_of n xs ys e = rw (← e) (take-append xs ys)

  pub drop-append_of : (n : ℕ) (xs ys : List A) → length xs ≡ n → drop n (xs ++ ys) ≡ ys
  drop-append_of n xs ys e = rw (← e) (drop-append xs ys)

  pub take-length : (xs : List A) → take (length xs) xs ≡ xs
  take-length [] = refl
  take-length (x ∷ xs) = ap (◌∷◌ x) (take-length xs)

  pub drop-drop : (m n : ℕ) (xs : List A) → drop n (drop m xs) ≡ drop (m + n) xs
  drop-drop zero n xs = rw (zero-add n)
  drop-drop (suc m) zero [] = rw suc-add
  drop-drop (suc m) (suc n) [] = rw suc-add
  drop-drop (suc m) n (x ∷ xs) = rw suc-add (drop-drop m n xs)

  pub take-take-drop : (m n : ℕ) (xs : List A) → take m xs ++ take n (drop m xs) ≡ take (m + n) xs
  take-take-drop zero n xs = rw (zero-add n)
  take-take-drop (suc m) zero [] = rw suc-add
  take-take-drop (suc m) (suc n) [] = rw suc-add
  take-take-drop (suc m) n (x ∷ xs) = rw suc-add (ap (◌∷◌ x) (take-take-drop m n xs))

  -- A cut after, and a cut at or before, the place of one element.
  pub take-append_after :
      (n : ℕ) (before : List A) (a : A) (after : List A)
      → length before < n
      → take n (before ++ a ∷ after) ≡ before ++ a ∷ take (n - 1 - length before) after
  take-append_after zero before a after h = absurd (omega arith)
  take-append_after (suc n) [] a after h = rw (cut n)
    where
      cut : (k : ℕ) → suc k - 1 - 0 ≡ k
      cut k = omega arith
  take-append_after (suc n) (x ∷ before) a after h =
      rw (cut n (length before)) (ap (◌∷◌ x) (take-append_after n before a after (omega arith)))
    where
      cut : (k l : ℕ) → suc k - 1 - suc l ≡ k - 1 - l
      cut k l = omega arith

  pub drop-append_after :
      (n : ℕ) (before : List A) (a : A) (after : List A)
      → length before < n
      → drop n (before ++ a ∷ after) ≡ drop (n - 1 - length before) after
  drop-append_after zero before a after h = absurd (omega arith)
  drop-append_after (suc n) [] a after h = rw (cut n)
    where
      cut : (k : ℕ) → suc k - 1 - 0 ≡ k
      cut k = omega arith
  drop-append_after (suc n) (x ∷ before) a after h =
      rw (cut n (length before)) (drop-append_after n before a after (omega arith))
    where
      cut : (k l : ℕ) → suc k - 1 - suc l ≡ k - 1 - l
      cut k l = omega arith

  pub take-append_before :
      (n : ℕ) (before rest : List A) → n ≤ length before → take n (before ++ rest) ≡ take n before
  take-append_before zero before rest h = refl
  take-append_before (suc n) [] rest h = absurd (omega arith)
  take-append_before (suc n) (x ∷ before) rest h =
      ap (◌∷◌ x) (take-append_before n before rest (omega arith))

  pub drop-append_before :
      (n : ℕ) (before rest : List A)
      → n ≤ length before
      → drop n (before ++ rest) ≡ drop n before ++ rest
  drop-append_before zero before rest h = refl
  drop-append_before (suc n) [] rest h = absurd (omega arith)
  drop-append_before (suc n) (x ∷ before) rest h = drop-append_before n before rest (omega arith)

  pub All-take {κ} : (P : A → Type κ) (n : ℕ) (xs : List A) → All P xs → All P (take n xs)
  All-take P zero xs v = tt
  All-take P (suc n) [] v = tt
  All-take P (suc n) (x ∷ xs) v = (v.0, All-take P n xs v.1)

  pub All-drop {κ} : (P : A → Type κ) (n : ℕ) (xs : List A) → All P xs → All P (drop n xs)
  All-drop P zero xs v = v
  All-drop P (suc n) [] v = tt
  All-drop P (suc n) (x ∷ xs) v = All-drop P n xs v.1

  pub append_middle_injective :
      (before : List A) (a b : A) (xs ys : List A) → before ++ a ∷ xs ≡ before ++ b ∷ ys → a ≡ b
  append_middle_injective [] a b xs ys e = cc
  append_middle_injective (x ∷ before) a b xs ys e = append_middle_injective before a b xs ys (cc)

module _ {ℓ} {A : Type ℓ} where
  pub get_elem?-append :
      (xs ys : List A) (i : ℕ) {a : A} → get_elem? xs i ≡ some a → get_elem? (xs ++ ys) i ≡ some a
  get_elem?-append [] ys i e = cc
  get_elem?-append (x ∷ xs) ys zero e = e
  get_elem?-append (x ∷ xs) ys (suc i) e = get_elem?-append xs ys i e

  pub get_elem?-append_length :
      (xs : List A) (a : A) (ys : List A) → get_elem? (xs ++ a ∷ ys) (length xs) ≡ some a
  get_elem?-append_length [] a ys = refl
  get_elem?-append_length (x ∷ xs) a ys = get_elem?-append_length xs a ys

  pub get_elem?-lt : (xs : List A) (i : ℕ) {a : A} → get_elem? xs i ≡ some a → i < length xs
  get_elem?-lt [] i e = cc
  get_elem?-lt (x ∷ xs) zero e = omega arith
  get_elem?-lt (x ∷ xs) (suc i) e = omega (arith, get_elem?-lt xs i e)

  pub All-map {κ κ'} :
      {P : A → Type κ} {Q : A → Type κ'} (xs : List A) → ((a : A) → P a → Q a) → All P xs → All Q xs
  All-map [] f p = tt
  All-map (x ∷ xs) f p = (f x p.0, All-map xs f p.1)

  pub All-zip {κ κ' κ''} :
      {P : A → Type κ} {Q : A → Type κ'} {R : A → Type κ''} (xs : List A)
      → ((a : A) → P a → Q a → R a)
      → All P xs
      → All Q xs
      → All R xs
  All-zip [] f p q = tt
  All-zip (x ∷ xs) f p q = (f x p.0 q.0, All-zip xs f p.1 q.1)

  pub All-get_elem? {κ} :
      (P : A → Type κ) (xs : List A) (i : ℕ) {a : A} → All P xs → get_elem? xs i ≡ some a → P a
  All-get_elem? P [] i v e = absurd (cc)
  All-get_elem? P (x ∷ xs) zero v e = subst P (some-injective _ _ e) v.0
  All-get_elem? P (x ∷ xs) (suc i) v e = All-get_elem? P xs i v.1 e
