-- ===== src/Flashq/Log/Requeue.antt =====
-- The last loop of scan_region, which makes every IN_FLIGHT entry PENDING, as a map over the index.
use mathlib.Core.List.{map, append_assoc}
use edgesync_espidf.Prelude.{
  ℕ, zero, suc, ◌+◌, ◌≡◌, ◌≢◌, refl, sym, ◌∙◌, ap, inl, inr, Bool-cases, List, [], ◌∷◌, ◌++◌,
  length, length-append, ◌==◌, ==→eq, if◌then◌else◌, u8, arith,
}
use edgesync_espidf.Types.{state_pending, state_in_flight}
use edgesync_espidf.Action.Outcome.{Ends, Ends-bind, Ends-if, Ends-map}
use edgesync_espidf.Action.Keeps.{IsFailure}
use edgesync_espidf.Flashq.Partition.{Partition}
use edgesync_espidf.Flashq.Context.{Entry, Ctx, Res, ok, fail}
use edgesync_espidf.Flashq.Positions.{IsRested}
use edgesync_espidf.Flashq.Helpers.{entry_at, update_at}
use edgesync_espidf.Flashq.Append.{append_state_update_locked}
use edgesync_espidf.Flashq.Frame.{core, cores, Frame}
use edgesync_espidf.Flashq.Scan.{requeue_entry, requeue_in_flight}
use edgesync_espidf.Flashq.Recovery.Requeued.{append_state_update_locked-Ends}
use edgesync_espidf.Flashq.Log.Entries.{update_at-same, update_at-update_at, All-entry_at}
use edgesync_espidf.Flashq.Log.Update.{Fails}

-- A message that was claimed before a restart can be claimed again, at once.
abbrev pub requeued : Entry → Entry
requeued e =
    if e.state == state_in_flight
    then record e { state = state_pending; next_retry_at_us = 0 }
    else e

-- The loop over `left` entries from `pos` on.
requeue_from : ℕ → ℕ → List Entry → List Entry
requeue_from zero pos xs = xs
requeue_from (suc left) pos xs = requeue_from left (pos + 1) (update_at xs pos requeued)

update_at_self :
    (xs : List Entry) (pos : ℕ) (f : Entry → Entry)
    → f (entry_at xs pos) ≡ entry_at xs pos
    → update_at xs pos f ≡ xs
update_at_self [] pos f e = refl
update_at_self (x ∷ xs) zero f e = ap (λ y. y ∷ xs) e
update_at_self (x ∷ xs) (suc pos) f e = ap (◌∷◌ x) (update_at_self xs pos f e)

update_at-append :
    (done : List Entry) (x : Entry) (xs : List Entry) (f : Entry → Entry)
    → update_at (done ++ x ∷ xs) (length done) f ≡ done ++ f x ∷ xs
update_at-append [] x xs f = refl
update_at-append (y ∷ done) x xs f = ap (◌∷◌ y) (update_at-append done x xs f)

-- The offsets of the records have no part in an assignment to other fields.
cores-update_at :
    (xs : List Entry) (pos : ℕ) (f : Entry → Entry)
    → ((e : Entry) → core (f e) ≡ f (core e))
    → cores (update_at xs pos f) ≡ update_at (cores xs) pos f
cores-update_at [] pos f h = refl
cores-update_at (x ∷ xs) zero f h = ap (λ y. y ∷ cores xs) (h x)
cores-update_at (x ∷ xs) (suc pos) f h = ap (◌∷◌ (core x)) (cores-update_at xs pos f h)

core-requeued : (e : Entry) → core (requeued e) ≡ requeued (core e)
core-requeued e = elim (Bool-cases (e.state == state_in_flight)) [
  | inl flying ↦ rw flying refl
  | inr resting ↦ rw resting refl
]

cores-requeue_from :
    (left pos : ℕ) (xs : List Entry)
    → cores (requeue_from left pos xs) ≡ requeue_from left pos (cores xs)
unfolding requeue_from
cores-requeue_from zero pos xs = refl
cores-requeue_from (suc left) pos xs =
    cores-requeue_from left (pos + 1) (update_at xs pos requeued)
    ∙ ap (requeue_from left (pos + 1)) (cores-update_at xs pos requeued core-requeued)

requeue_from-map :
    (done xs : List Entry)
    → requeue_from (length xs) (length done) (done ++ xs) ≡ done ++ map requeued xs
unfolding requeue_from
requeue_from-map done [] = refl
requeue_from-map done (x ∷ xs) =
    let longer : length (done ++ requeued x ∷ []) ≡ length done + 1 =
      omega (arith, length-append done (requeued x ∷ [])) in
    ap (requeue_from (length xs) (length done + 1))
      (update_at-append done x xs requeued ∙ sym (append_assoc done (requeued x ∷ []) xs))
    ∙ rw longer at (requeue_from-map (done ++ requeued x ∷ []) xs)
    ∙ append_assoc done (requeued x ∷ []) (map requeued xs)

module _ (P : Partition) where
  open P use {Flash}

  requeue_entry-cores :
      (pos : ℕ) (c : Ctx Flash)
      → Ends
          (λ a d. cores d.index ≡ cores (update_at c.index pos requeued))
          Fails
          (requeue_entry P pos c)
  unfolding requeue_entry
  requeue_entry-cores pos c =
      let Q : Unit {0} → Ctx Flash → Type 0 =
        λ a d. cores d.index ≡ cores (update_at c.index pos requeued) in
      let clear : Entry → Entry = λ e. record e { next_retry_at_us = 0 } in
      let wait : Entry → Entry = λ e. record e { state = u8 state_pending } in
      let cleared : Ctx Flash = record c { index = update_at c.index pos clear } in
      Ends-if ((entry_at c.index pos).state == state_in_flight) _ _ Q Fails
        (λ flying.
          Ends-map (append_state_update_locked P pos state_pending cleared)
            (λ a d. (e : Ctx Flash) × Frame cleared e × (d.index ≡ update_at e.index pos wait)) Q
            (λ x d. Frame cleared d × IsFailure x) Fails
            (append_state_update_locked-Ends P pos state_pending cleared)
            (λ a d (e, p, set).
              ap (λ xs. cores xs) set
              ∙ cores-update_at e.index pos wait (λ x. refl)
              ∙ ap (λ xs. update_at xs pos wait) p.same_index
              ∙ sym (cores-update_at cleared.index pos wait (λ x. refl))
              ∙ ap (λ xs. cores xs)
                  (update_at-update_at c.index pos wait clear
                    ∙ update_at-same c.index pos (λ x. wait (clear x)) requeued (rw flying refl)))
            (λ x d h. tt))
        (λ resting.
          ap (λ xs. cores xs) (sym (update_at_self c.index pos requeued (rw resting refl))))

  requeue_loop-cores :
      (left pos : ℕ) (c : Ctx Flash)
      → Ends
          (λ a d. cores d.index ≡ cores (requeue_from left pos c.index))
          Fails
          (requeue_in_flight P left pos c)
  unfolding requeue_in_flight requeue_from
  requeue_loop-cores zero pos c = refl
  requeue_loop-cores (suc left) pos c =
      let next : List Entry = update_at c.index pos requeued in
      Ends-bind (requeue_entry P pos) _ c (λ a d. cores d.index ≡ cores next)
        (λ a d. cores d.index ≡ cores (requeue_from left (pos + 1) next)) Fails
        (requeue_entry-cores pos c)
        (λ a d e.
          Ends-map (requeue_in_flight P left (pos + 1) d)
            (λ a x. cores x.index ≡ cores (requeue_from left (pos + 1) d.index))
            (λ a x. cores x.index ≡ cores (requeue_from left (pos + 1) next)) Fails Fails
            (requeue_loop-cores left (pos + 1) d)
            (λ b x h.
              h
              ∙ cores-requeue_from left (pos + 1) d.index
              ∙ ap (requeue_from left (pos + 1)) e
              ∙ sym (cores-requeue_from left (pos + 1) next))
            (λ x y h. tt))

  -- The whole loop.
  pub requeue_in_flight-cores :
      (c : Ctx Flash)
      → Ends
          (λ a d. cores d.index ≡ cores (map requeued c.index))
          Fails
          (requeue_in_flight P (length c.index) 0 c)
  requeue_in_flight-cores c =
      rw (requeue_from-map [] c.index) at (requeue_loop-cores (length c.index) 0 c)

  requeue_entry-rested :
      (pos : ℕ) (c : Ctx Flash) → IsRested c.index → requeue_entry P pos c ≡ ok tt c
  unfolding requeue_entry
  requeue_entry-rested pos c h =
      let rests : (entry_at c.index pos).state ≢ state_in_flight =
        All-entry_at (λ (e : Entry). e.state ≢ state_in_flight) c.index pos
          (λ e. absurd (omega arith)) h in
      elim (Bool-cases ((entry_at c.index pos).state == state_in_flight)) [
        | inl flying ↦ absurd (rests (==→eq _ _ flying))
        | inr resting ↦ rw (resting, requeue_entry) refl
      ]

  -- Where there is no IN_FLIGHT entry, the loop does nothing.
  pub requeue_in_flight-rested :
      (left pos : ℕ) (c : Ctx Flash) → IsRested c.index → requeue_in_flight P left pos c ≡ ok tt c
  unfolding requeue_in_flight
  requeue_in_flight-rested zero pos c h = refl
  requeue_in_flight-rested (suc left) pos c h =
      ap
        (λ (r : Res Flash (Unit {0})). elim r as (λ x. Res Flash (Unit {0})) [
          | ok a d ↦ requeue_in_flight P left (pos + 1) d
          | fail e d ↦ fail e d
        ])
        (requeue_entry-rested pos c h)
      ∙ requeue_in_flight-rested left (pos + 1) c h
