-- ===== src/Action/Keeps.antt =====
-- Actions that keep a relation between the state before and the state behind, whether they succeed
-- or fail, and that fail with an error code only.
use edgesync_espidf.Prelude.{
  ◌≡◌, refl, ◌⊎◌, inl, inr, Bool, true, false, Option, none, some, if◌then◌else◌,
}
use mathlib.Core.Path.{subst}
use edgesync_espidf.Types.{EspErr}
use edgesync_espidf.Action.{Res, ok, fail, M, pure, raise, ◌>>=◌, gets, modify}
use edgesync_espidf.Action.Outcome.{Ends, Ends-bind, Ends-map}

-- A code that stands for a failure.
abbrev pub IsFailure : EspErr → Type 0
IsFailure EspErr.esp_ok = ⊥
IsFailure e = Unit

pub IsFailure-ne : (e : EspErr) → IsFailure e → ¬ (e ≡ EspErr.esp_ok)
IsFailure-ne e h same = subst IsFailure same h

pub IsFailure-cases : (e : EspErr) → (e ≡ EspErr.esp_ok) ⊎ IsFailure e
IsFailure-cases EspErr.esp_ok = inl refl
IsFailure-cases e = inr tt

pub record IsPreorder {S : Type 0} (R : S → S → Type 0) : Type 0 where
  pub refl_of : (c : S) → R c c
  pub trans_of : (a b c : S) → R a b → R b c → R a c

-- A call from the state `c` keeps the relation.
abbrev pub KeptIn : {S A : Type 0} → (S → S → Type 0) → S → Res S A → Type 0
KeptIn R c r = Ends (λ a d. R c d) (λ e d. R c d × IsFailure e) r

-- An action that does so from every state.
pub record Keeps {S A : Type 0} (R : S → S → Type 0) (m : M S A) : Type 0 where
  pub at : (c : S) → KeptIn R c (m c)

module _ {S : Type 0} {R : S → S → Type 0} (pre : IsPreorder R) where
  pub KeptIn-bind :
      {A B : Type 0} (m : M S A) (f : A → M S B) (c : S)
      → KeptIn R c (m c)
      → ((a : A) (c' : S) → R c c' → KeptIn R c (f a c'))
      → KeptIn R c ((m >>= f) c)
  KeptIn-bind m f c h k =
      Ends-bind m f c (λ a d. R c d) (λ b d. R c d) (λ e d. R c d × IsFailure e) h k

  pub KeptIn-trans : {A : Type 0} (c c' : S) (r : Res S A) → R c c' → KeptIn R c' r → KeptIn R c r
  KeptIn-trans c c' r p h =
      Ends-map r (λ a d. R c' d) (λ a d. R c d) (λ e d. R c' d × IsFailure e)
        (λ e d. R c d × IsFailure e) h (λ a d q. pre.trans_of c c' d p q)
        (λ e d q. (pre.trans_of c c' d p q.0, q.1))

  pub KeptIn-from : {A : Type 0} (m : M S A) (c c' : S) → R c c' → Keeps R m → KeptIn R c (m c')
  KeptIn-from m c c' p h = KeptIn-trans c c' (m c') p (h.at c')

  pub Keeps-bind :
      {A B : Type 0} (m : M S A) (f : A → M S B)
      → Keeps R m
      → ((a : A) → Keeps R (f a))
      → Keeps R (m >>= f)
  Keeps-bind m f h k = record {
    at = λ c. KeptIn-bind m f c (h.at c) (λ a c' p. KeptIn-from (f a) c c' p (k a));
  }

  pub Keeps-pure : {A : Type 0} (a : A) → Keeps R (pure a)
  Keeps-pure a = record { at = λ c. pre.refl_of c }

  pub Keeps-gets : {A : Type 0} (f : S → A) → Keeps R (gets f)
  Keeps-gets f = record { at = λ c. pre.refl_of c }

  pub Keeps-raise : {A : Type 0} (e : EspErr) → IsFailure e → Keeps R (raise {A = A} e)
  Keeps-raise e h = record { at = λ c. (pre.refl_of c, h) }

module _ {S : Type 0} {R : S → S → Type 0} where
  -- An assignment to fields.
  pub Keeps-modify : (f : S → S) → ((c : S) → R c (f c)) → Keeps R (modify f)
  Keeps-modify f h = record { at = h }

  pub Keeps-if :
      {A : Type 0} (b : Bool) (m n : M S A) → Keeps R m → Keeps R n → Keeps R (if b then m else n)
  Keeps-if true m n p q = p
  Keeps-if false m n p q = q

pub ruleset keeps = (Keeps-bind, Keeps-pure, Keeps-gets, Keeps-raise, Keeps-if)

module _ {S : Type 0} (R : S → S → Type 0) (c : S) where
  pub KeptIn-if :
      {A : Type 0} (b : Bool) (r s : Res S A)
      → KeptIn R c r
      → KeptIn R c s
      → KeptIn R c (if b then r else s)
  KeptIn-if true r s p q = p
  KeptIn-if false r s p q = q

  pub KeptIn-option :
      {A B : Type 0} (o : Option B) (r : Res S A) (k : B → Res S A)
      → KeptIn R c r
      → ((b : B) → KeptIn R c (k b))
      → KeptIn R c (elim o [ none ↦ r | some b ↦ k b ])
  KeptIn-option none r k p q = p
  KeptIn-option (some b) r k p q = q b

  -- A call whose failure is handled.
  pub KeptIn-handle :
      {A B : Type 0} (r : Res S B) (k : B → M S A) (h : EspErr → M S A)
      → KeptIn R c r
      → ((b : B) (c' : S) → R c c' → KeptIn R c (k b c'))
      → ((e : EspErr) (c' : S) → R c c' × IsFailure e → KeptIn R c (h e c'))
      → KeptIn R c (elim r [ ok b c' ↦ k b c' | fail e c' ↦ h e c' ])
  KeptIn-handle (ok b c') k h p q g = q b c' p
  KeptIn-handle (fail e c') k h p q g = g e c' p
