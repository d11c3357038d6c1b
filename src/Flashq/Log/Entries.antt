-- ===== src/Flashq/Log/Entries.antt =====
-- The entries of an index under the assignments and removals of the calls.
use edgesync_espidf.Prelude.{
  ℕ, zero, suc, ◌-◌, ◌≡◌, refl, ap, List, [], ◌∷◌, length, set, All, All-take,
}
use edgesync_espidf.Flashq.Context.{Entry}
use edgesync_espidf.Flashq.Helpers.{zero_entry, entry_at, update_at, remove_entry_at}

pub update_at-same :
    (xs : List Entry) (pos : ℕ) (f g : Entry → Entry)
    → f (entry_at xs pos) ≡ g (entry_at xs pos)
    → update_at xs pos f ≡ update_at xs pos g
update_at-same [] pos f g e = refl
update_at-same (x ∷ xs) zero f g e = ap (λ y. y ∷ xs) e
update_at-same (x ∷ xs) (suc pos) f g e = ap (◌∷◌ x) (update_at-same xs pos f g e)

pub update_at-update_at :
    (xs : List Entry) (pos : ℕ) (f g : Entry → Entry)
    → update_at (update_at xs pos g) pos f ≡ update_at xs pos (λ e. f (g e))
update_at-update_at [] pos f g = refl
update_at-update_at (x ∷ xs) zero f g = refl
update_at-update_at (x ∷ xs) (suc pos) f g = ap (◌∷◌ x) (update_at-update_at xs pos f g)

module _ (Q : Entry → Type 0) where
  pub All-entry_at : (xs : List Entry) (pos : ℕ) → Q zero_entry → All Q xs → Q (entry_at xs pos)
  All-entry_at [] pos z v = z
  All-entry_at (x ∷ xs) zero z v = v.0
  All-entry_at (x ∷ xs) (suc pos) z v = All-entry_at xs pos z v.1

  pub All-update_at :
      (xs : List Entry) (pos : ℕ) (f : Entry → Entry)
      → Q (f (entry_at xs pos))
      → All Q xs
      → All Q (update_at xs pos f)
  All-update_at [] pos f q v = tt
  All-update_at (x ∷ xs) zero f q v = (q, v.1)
  All-update_at (x ∷ xs) (suc pos) f q v = (v.0, All-update_at xs pos f q v.1)

  All-set : (xs : List Entry) (pos : ℕ) (e : Entry) → Q e → All Q xs → All Q (set xs pos e)
  All-set [] pos e q v = tt
  All-set (x ∷ xs) zero e q v = (q, v.1)
  All-set (x ∷ xs) (suc pos) e q v = (v.0, All-set xs pos e q v.1)

  pub All-remove_entry_at :
      (xs : List Entry) (pos : ℕ) → Q zero_entry → All Q xs → All Q (remove_entry_at xs pos)
  unfolding remove_entry_at
  All-remove_entry_at xs pos z v =
      All-take Q (length xs - 1) (set xs pos (entry_at xs (length xs - 1)))
        (All-set xs pos _ (All-entry_at xs (length xs - 1) z v) v)
