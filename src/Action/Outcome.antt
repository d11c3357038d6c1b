-- ===== src/Action/Outcome.antt =====
-- Rules for what a call ends in: one condition for success, one for failure.
use mathlib.Core.Path.{subst}
use edgesync_espidf.Prelude.{◌≡◌, refl, sym, Bool, true, false, if◌then◌else◌, Option, none, some}
use edgesync_espidf.Types.{EspErr}
use edgesync_espidf.Action.{Res, ok, fail, M, ◌>>=◌}

abbrev pub Ends : {S A : Type 0} → (A → S → Type 0) → (EspErr → S → Type 0) → Res S A → Type 0
Ends Q E (ok a c) = Q a c
Ends Q E (fail e c) = E e c

module _ {S A B : Type 0} where
  bind_cases :
      (r : Res S A) (f : A → M S B) (P : A → S → Type 0) (Q : B → S → Type 0)
      (E : EspErr → S → Type 0)
      → Ends P E r
      → ((a : A) (c' : S) → P a c' → Ends Q E (f a c'))
      → Ends Q E (elim r [ ok a c' ↦ f a c' | fail e c' ↦ fail e c' ])
  bind_cases (ok a c') f P Q E h k = k a c' h
  bind_cases (fail e c') f P Q E h k = h

  -- The rule for one step and the rest of a block.
  pub Ends-bind :
      (m : M S A) (f : A → M S B) (c : S) (P : A → S → Type 0) (Q : B → S → Type 0)
      (E : EspErr → S → Type 0)
      → Ends P E (m c)
      → ((a : A) (c' : S) → P a c' → Ends Q E (f a c'))
      → Ends Q E ((m >>= f) c)
  Ends-bind m f c P Q E h k = bind_cases (m c) f P Q E h k

module _ {S A : Type 0} where
  -- Weaker conditions.
  pub Ends-map :
      (r : Res S A) (P Q : A → S → Type 0) (E E' : EspErr → S → Type 0)
      → Ends P E r
      → ((a : A) (c' : S) → P a c' → Q a c')
      → ((e : EspErr) (c' : S) → E e c' → E' e c')
      → Ends Q E' r
  Ends-map (ok a c') P Q E E' h k j = k a c' h
  Ends-map (fail e c') P Q E E' h k j = j e c' h

module _ {S A : Type 0} where
  -- A test, and a match on an option.
  pub Ends-if :
      (b : Bool) (r s : Res S A) (Q : A → S → Type 0) (E : EspErr → S → Type 0)
      → (b ≡ true → Ends Q E r)
      → (b ≡ false → Ends Q E s)
      → Ends Q E (if b then r else s)
  Ends-if true r s Q E h k = h refl
  Ends-if false r s Q E h k = k refl

module _ {S A : Type 0} where
  -- A test that chooses between two actions.
  pub Ends-if_action :
      (b : Bool) (m k : M S A) (c : S) (Q : A → S → Type 0) (E : EspErr → S → Type 0)
      → (b ≡ true → Ends Q E (m c))
      → (b ≡ false → Ends Q E (k c))
      → Ends Q E ((if b then m else k) c)
  Ends-if_action true m k c Q E h j = h refl
  Ends-if_action false m k c Q E h j = j refl

module _ {S A B : Type 0} where
  pub Ends-option :
      (o : Option B) (r : Res S A) (f : B → Res S A) (Q : A → S → Type 0) (E : EspErr → S → Type 0)
      → (o ≡ none → Ends Q E r)
      → ((b : B) → o ≡ some b → Ends Q E (f b))
      → Ends Q E (elim o [ none ↦ r | some b ↦ f b ])
  Ends-option none r f Q E h k = h refl
  Ends-option (some b) r f Q E h k = k b refl

  -- The match on an option that is known.
  pub Ends-none :
      (o : Option B) (r : Res S A) (f : B → Res S A) (Q : A → S → Type 0) (E : EspErr → S → Type 0)
      → o ≡ none
      → Ends Q E r
      → Ends Q E (elim o [ none ↦ r | some b ↦ f b ])
  Ends-none o r f Q E e h =
      subst (λ (x : Option B). Ends Q E (elim x [ none ↦ r | some b ↦ f b ])) (sym e) h

  pub Ends-some :
      (o : Option B) (b : B) (r : Res S A) (f : B → Res S A) (Q : A → S → Type 0)
      (E : EspErr → S → Type 0)
      → o ≡ some b
      → Ends Q E (f b)
      → Ends Q E (elim o [ none ↦ r | some b ↦ f b ])
  Ends-some o b r f Q E e h =
      subst (λ (x : Option B). Ends Q E (elim x [ none ↦ r | some y ↦ f y ])) (sym e) h

module _ {S A : Type 0} where
  -- Two conditions at once: the success of one, the failure of the other.
  pub Ends-both :
      (r : Res S A) (P Q : A → S → Type 0) (E E' : EspErr → S → Type 0)
      → Ends P E r
      → Ends Q E' r
      → Ends (λ a c'. P a c' × Q a c') E' r
  Ends-both (ok a c') P Q E E' h k = (h, k)
  Ends-both (fail e c') P Q E E' h k = k

module _ {S A B : Type 0} where
  -- A call both of whose ends are handled.
  pub Ends-handle :
      (r : Res S B) (k : B → M S A) (h : EspErr → M S A) (P : B → S → Type 0)
      (F : EspErr → S → Type 0) (Q : A → S → Type 0) (E : EspErr → S → Type 0)
      → Ends P F r
      → ((b : B) (c : S) → P b c → Ends Q E (k b c))
      → ((e : EspErr) (c : S) → F e c → Ends Q E (h e c))
      → Ends Q E (elim r [ ok b c ↦ k b c | fail e c ↦ h e c ])
  Ends-handle (ok b c) k h P F Q E p q g = q b c p
  Ends-handle (fail e c) k h P F Q E p q g = g e c p

module _ {S A B : Type 0} where
  -- The rule for a first step that is known to succeed.
  pub Ends-known :
      (m : M S A) (f : A → M S B) (c c' : S) (a : A) (Q : B → S → Type 0) (E : EspErr → S → Type 0)
      → m c ≡ ok a c'
      → Ends Q E (f a c')
      → Ends Q E ((m >>= f) c)
  Ends-known m f c c' a Q E e h =
      subst (λ (r : Res S A). Ends Q E (elim r [ ok x d ↦ f x d | fail y d ↦ fail y d ])) (sym e) h

module _ {S A : Type 0} where
  -- No condition at all.
  abbrev pub Anything : Res S A → Type 0
  Anything r = Ends (λ a c. Unit {0}) (λ e c. Unit {0}) r

  pub Ends-Anything : (r : Res S A) → Anything r
  Ends-Anything (ok a c) = tt
  Ends-Anything (fail e c) = tt

module _ {S A B : Type 0} where
  -- A call both of whose ends are handled, that is known to succeed.
  pub Ends-known_handle :
      (r : Res S B) (k : B → M S A) (h : EspErr → M S A) (b : B) (c : S) (Q : A → S → Type 0)
      (E : EspErr → S → Type 0)
      → r ≡ ok b c
      → Ends Q E (k b c)
      → Ends Q E (elim r [ ok x d ↦ k x d | fail e d ↦ h e d ])
  Ends-known_handle r k h b c Q E e p =
      subst (λ (x : Res S B). Ends Q E (elim x [ ok y d ↦ k y d | fail y d ↦ h y d ])) (sym e) p
