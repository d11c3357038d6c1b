-- ===== src/Flashq/Nor.antt =====
-- A NOR flash behind the partition API: what it is documented to do, and reads of consecutive bytes.
use mathlib.Core.Path.{ap₂}
use edgesync_espidf.Prelude.{
  ℕ, zero, suc, ◌+◌, ◌≤◌, ◌<◌, ◌≡◌, refl, ◌∙◌, ap, ◌⊎◌, true, some, List, [], ◌∷◌, ◌++◌, length,
  take, drop, take-append_of, drop-append_of, arith,
}
use edgesync_espidf.Flashq.Partition.{Partition}

-- The bytes of a flash from an offset on.
abbrev pub bytes_from : (ℕ → ℕ) → ℕ → ℕ → List ℕ
bytes_from f off zero = []
bytes_from f off (suc n) = f off ∷ bytes_from f (off + 1) n

pub length-bytes_from : (f : ℕ → ℕ) (off n : ℕ) → length (bytes_from f off n) ≡ n
length-bytes_from f off zero = refl
length-bytes_from f off (suc n) = ap suc (length-bytes_from f (off + 1) n)

pub bytes_from-add :
    (f : ℕ → ℕ) (off m n : ℕ)
    → bytes_from f off (m + n) ≡ bytes_from f off m ++ bytes_from f (off + m) n
bytes_from-add f off zero n = rw (zero_left n, zero_right off)
  where
    zero_left : (k : ℕ) → 0 + k ≡ k
    zero_left k = omega arith

    zero_right : (k : ℕ) → k + 0 ≡ k
    zero_right k = omega arith
bytes_from-add f off (suc m) n =
    rw (suc_left m n, suc_right off m) (ap (◌∷◌ (f off)) (bytes_from-add f (off + 1) m n))
  where
    suc_left : (k l : ℕ) → suc k + l ≡ suc (k + l)
    suc_left k l = omega arith

    suc_right : (k l : ℕ) → k + suc l ≡ k + 1 + l
    suc_right k l = omega arith

pub bytes_from-same :
    (f g : ℕ → ℕ) (off n : ℕ)
    → ((i : ℕ) → off ≤ i → i < off + n → g i ≡ f i)
    → bytes_from g off n ≡ bytes_from f off n
bytes_from-same f g off zero h = refl
bytes_from-same f g off (suc n) h =
    ap₂ ◌∷◌ (h off (omega arith) (omega arith))
      (bytes_from-same f g (off + 1) n (λ i a b. h i (omega arith) (omega arith)))

-- The front and the rest of bytes that lie in the flash.
pub bytes_from-take :
    (f : ℕ → ℕ) (off m n : ℕ) → take m (bytes_from f off (m + n)) ≡ bytes_from f off m
bytes_from-take f off m n =
    ap (take m) (bytes_from-add f off m n) ∙ take-append_of m _ _ (length-bytes_from f off m)

pub bytes_from-drop :
    (f : ℕ → ℕ) (off m n : ℕ) → drop m (bytes_from f off (m + n)) ≡ bytes_from f (off + m) n
bytes_from-drop f off m n =
    ap (drop m) (bytes_from-add f off m n) ∙ drop-append_of m _ _ (length-bytes_from f off m)

-- A partition of `size` bytes, where `byte` says what a flash holds: reads inside it succeed and give
-- what it holds, and a write or an erasure, even one that fails, changes nothing outside of its range. What a
-- write leaves in its range is not assumed; an erasure that succeeds leaves blank bytes.
pub record IsNor (P : Partition) (size : ℕ) (byte : P.Flash → ℕ → ℕ) : Type 0 where
  pub reads :
      (f : P.Flash) (off len : ℕ)
      → off + len ≤ size
      → P.read f off len ≡ some (bytes_from (byte f) off len)
  pub writes_inside :
      (f : P.Flash) (off : ℕ) (bytes : List ℕ) (i : ℕ)
      → (i < off) ⊎ (off + length bytes ≤ i)
      → byte (P.write f off bytes).1 i ≡ byte f i
  pub erases_inside :
      (f : P.Flash) (off len i : ℕ)
      → (i < off) ⊎ (off + len ≤ i)
      → byte (P.erase f off len).1 i ≡ byte f i
  pub erases :
      (f : P.Flash) (off len i : ℕ)
      → (P.erase f off len).0 ≡ true
      → off ≤ i
      → i < off + len
      → byte (P.erase f off len).1 i ≡ 255
