-- ===== src/Action.antt =====
-- Actions on a state: an action that fails leaves the state that it had reached.
pub mod Outcome
pub mod Keeps
use edgesync_espidf.Prelude.{Bool, true, false}
use edgesync_espidf.Types.{EspErr}

-- What a call returns: a value with ESP_OK, or an error code; and the state behind it.
pub data Res (S A : Type 0) : Type 0 where
  ok : A → S → Res S A
  fail : EspErr → S → Res S A

abbrev pub M : Type 0 → Type 0 → Type 0
M S A = S → Res S A

abbrev pub pure : {S A : Type 0} → A → M S A
pure a c = ok a c

abbrev pub raise : {S A : Type 0} → EspErr → M S A
raise e c = fail e c

-- `if (err != ESP_OK) { return err; }` after the first action.
infixl 5 ◌>>=◌ ◌>>◌
abbrev pub ◌>>=◌ : {S A B : Type 0} → M S A → (A → M S B) → M S B
◌>>=◌ m f c = elim (m c) [ ok a c' ↦ f a c' | fail e c' ↦ fail e c' ]

abbrev pub ◌>>◌ : {S B : Type 0} → M S (Unit {0}) → M S B → M S B
m >> k = m >>= λ _. k

-- The state reached, whether the call succeeded or not.
abbrev pub state_of : {S A : Type 0} → Res S A → S
state_of (ok a c) = c
state_of (fail e c) = c

abbrev pub succeeds : {S A : Type 0} → Res S A → Bool
succeeds (ok a c) = true
succeeds (fail e c) = false

abbrev pub gets : {S A : Type 0} → (S → A) → M S A
gets f c = ok (f c) c

abbrev pub modify : {S : Type 0} → (S → S) → M S (Unit {0})
modify f c = ok tt (f c)
