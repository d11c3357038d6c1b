-- ===== src/Flashq/Log/Recover.antt =====
-- op_recover over a NOR flash that holds a log.
use mathlib.Core.List.{map}
use mathlib.Core.Path.{subst, ap₂}
use edgesync_espidf.Prelude.{
  ℕ, ◌+◌, ◌-◌, ◌*◌, ◌≤◌, ◌<◌, ◌≡◌, refl, sym, ◌∙◌, ap, ◌⊎◌, inl, inr, true, some, List, length,
  if◌then◌else◌, arith,
}
use edgesync_espidf.Types.{EspErr}
use edgesync_espidf.Action.{Res, ok, fail, succeeds}
use edgesync_espidf.Flashq.Positions.{IsRested}
use edgesync_espidf.Action.Outcome.{
  Ends, Ends-bind, Ends-if, Ends-map, Ends-handle, Ends-option, Ends-some,
}
use edgesync_espidf.Flashq.Partition.{Partition}
use edgesync_espidf.Flashq.Context.{Entry, Ctx}
use edgesync_espidf.Flashq.Helpers.{
  region_offset, region_hdr_size, region_header_read, erase_region, ensure_region_erased,
}
use edgesync_espidf.Flashq.Frame.{cores}
use edgesync_espidf.Flashq.Scan.{load_region, scan_region, requeue_in_flight}
use edgesync_espidf.Flashq.Recovery.{
  active_generation_of, choose_region, header_of_region, start_fresh, resume, recover,
}
use edgesync_espidf.Flashq.Nor.{IsNor}
use edgesync_espidf.Flashq.Log.{IsLogged, rebooted}
use edgesync_espidf.Flashq.Log.Headers.{regions_cases, header_of_region-same, IsMarked-same}
use edgesync_espidf.Flashq.Log.Scan.{IsCut, load_region-rebooted}
use edgesync_espidf.Flashq.Log.Update.{Fails}
use edgesync_espidf.Flashq.Log.Requeue.{requeued, requeue_in_flight-cores, requeue_in_flight-rested}

Ends-unless :
    {S A : Type 0} (r : Res S A) (Q : A → S → Type 0) (H : Type 0)
    → Ends Q (λ e d. Unit {0}) r
    → (H → succeeds r ≡ true)
    → Ends Q (λ e d. ¬ H) r
Ends-unless (ok a c) Q H h k = h
Ends-unless (fail e c) Q H h k = λ p. cc (k p)

module _ (P : Partition) where
  open P use {Flash, read, erase}

  -- The index holds what `c` held, IN_FLIGHT entries PENDING again, but for the offsets of the records.
  abbrev pub Restores : Ctx Flash → Unit {0} → Ctx Flash → Type 0
  Restores c a d = cores d.index ≡ cores (map requeued c.index)

  -- Every erasure succeeds.
  abbrev pub IsErasable : Type 0
  IsErasable = (f : Flash) (off len : ℕ) → (erase f off len).0 ≡ true

  -- An erasure can fail, or `c` has an IN_FLIGHT entry to write back.
  abbrev pub Excused : Ctx Flash → EspErr → Ctx Flash → Type 0
  Excused c e d = ¬ (IsErasable × IsRested c.index)

  pub region_header_read-state :
      (region : ℕ) (c : Ctx Flash)
      → Ends (λ a d. d ≡ c) (λ e d. d ≡ c) (region_header_read P region c)
  unfolding region_header_read
  region_header_read-state region c =
      Ends-option (read c.flash (region_offset P c region) region_hdr_size) _ _ (λ a d. d ≡ c)
        (λ e d. d ≡ c) (λ e. refl) (λ raw e. refl)

module _ (P : Partition) (size : ℕ) (byte : P.Flash → ℕ → ℕ) (nor : IsNor P size byte) where
  open P use {Flash, erase}

  -- Only the flash is another one, and that only in a region.
  abbrev pub OnlyIn : ℕ → Ctx Flash → Ctx Flash → Type 0
  OnlyIn region c d =
      (d ≡ record c { flash = d.flash })
      × ((i : ℕ)
          → (i < region_offset P c region) ⊎ (region_offset P c region + c.region_size ≤ i)
          → byte d.flash i ≡ byte c.flash i)

  abbrev Unerased : EspErr → Ctx Flash → Type 0
  Unerased e d = ¬ (IsErasable P)

  erase_region-OnlyIn :
      (region : ℕ) (c : Ctx Flash)
      → Ends (λ a d. OnlyIn region c d) Unerased (erase_region P region c)
  unfolding erase_region
  erase_region-OnlyIn region c =
      let (erased, f) = erase c.flash (region_offset P c region) c.region_size in
      Ends-if erased _ _ (λ a d. OnlyIn region c d) Unerased
        (λ h.
          (refl, λ i out. nor.erases_inside c.flash (region_offset P c region) c.region_size i out))
        (λ h all. cc (all c.flash (region_offset P c region) c.region_size))

  ensure_region_erased-OnlyIn :
      (region : ℕ) (c : Ctx Flash)
      → Ends (λ a d. OnlyIn region c d) Unerased (ensure_region_erased P region c)
  unfolding ensure_region_erased
  ensure_region_erased-OnlyIn region c =
      Ends-handle (region_header_read P region c)
        (λ found c'. if found.1 then ok tt c' else erase_region P region c')
        (λ e c'. erase_region P region c') (λ a d. d ≡ c) (λ e d. d ≡ c) (λ a d. OnlyIn region c d)
        Unerased (region_header_read-state P region c)
        (λ found d same.
          subst
            (λ (x : Ctx Flash).
              Ends (λ a d. OnlyIn region c d) Unerased
                (if found.1 then ok tt x else erase_region P region x))
            (sym same)
            (Ends-if found.1 (ok tt c) (erase_region P region c) (λ a d. OnlyIn region c d) Unerased
              (λ blank. (refl, λ i out. refl)) (λ used. erase_region-OnlyIn region c)))
        (λ e d same.
          subst
            (λ (x : Ctx Flash). Ends (λ a d. OnlyIn region c d) Unerased (erase_region P region x))
            (sym same) (erase_region-OnlyIn region c))

  -- The other region lies outside of the active one.
  pub other_outside :
      (active region_size i : ℕ)
      → active ≤ 1
      → active * region_size ≤ i
      → i < active * region_size + region_size
      → (i < (1 - active) * region_size) ⊎ ((1 - active) * region_size + region_size ≤ i)
  other_outside active region_size i two lo hi = elim (regions_cases active two) [
    | inl first ↦ rw first (inl (omega (arith, first, rw first at hi)))
    | inr second ↦ rw second (inr (omega (arith, second, rw second at lo)))
  ]

  module _ (c : Ctx Flash) (v : IsLogged P size byte c) (f : Flash) (cut : IsCut P byte c f) where
    -- The context of the restarted device.
    abbrev pub restarted : Ctx Flash
    restarted = record (rebooted c) { flash = f }

    pub marked-rebooted :
        choose_region
          (active_generation_of (header_of_region P 0 restarted))
          (active_generation_of (header_of_region P 1 restarted))
        ≡ some (c.active_region, c.active_generation)
    marked-rebooted =
        let d : Ctx Flash = record c { flash = f } in
        ap₂ choose_region
          (ap active_generation_of (
            header_of_region-same P size byte nor d restarted 0 refl (omega (arith, v.placed))
              (λ i lo hi. refl)))
          (ap active_generation_of (
            header_of_region-same P size byte nor d restarted 1 refl (omega (arith, v.placed))
              (λ i lo hi. refl)))
        ∙ IsMarked-same P size byte nor c f v.placed cut.same v.marked c.cursor c.next_seq
            c.awaiting_gc_count c.updates_since_compaction c.index

    requeue-Restores :
        (d : Ctx Flash)
        → d.index ≡ c.index
        → Ends (Restores P c) (Excused P c) (requeue_in_flight P (length d.index) 0 d)
    requeue-Restores d same =
        Ends-unless (requeue_in_flight P (length d.index) 0 d) (Restores P c)
          (IsErasable P × IsRested c.index)
          (Ends-map (requeue_in_flight P (length d.index) 0 d)
            (λ a x. cores x.index ≡ cores (map requeued d.index)) (Restores P c) Fails Fails
            (requeue_in_flight-cores P d) (λ a x h. h ∙ ap (λ xs. cores (map requeued xs)) same)
            (λ e x h. tt))
          (λ h. ap succeeds (
            requeue_in_flight-rested P (length d.index) 0 d
              (subst (λ (xs : List Entry). IsRested xs) (sym same) h.1)))

    scan_region-Restores :
        (d : Ctx Flash)
        → OnlyIn (1 - c.active_region) restarted d
        → Ends (Restores P c) (Excused P c) (scan_region P c.active_region c.active_generation d)
    unfolding scan_region
    scan_region-Restores d (only, same) =
        let read_back : load_region P c.active_region c.active_generation d
            ≡ record c { flash = d.flash; compactions_total = 0; updates_since_compaction = 0 } =
          ap (load_region P c.active_region c.active_generation) only
          ∙ load_region-rebooted P size byte nor c f d.flash v cut (λ i lo hi.
            same i (other_outside c.active_region c.region_size i v.placed.two_regions lo hi)) in
        subst
          (λ (x : Ctx Flash).
            Ends (Restores P c) (Excused P c) (requeue_in_flight P (length x.index) 0 x))
          (sym read_back)
          (requeue-Restores
            (record c { flash = d.flash; compactions_total = 0; updates_since_compaction = 0 })
            refl)

    pub recover-Restores :
        Ends (Restores P c) (Excused P c) (recover P (record (rebooted c) { flash = f }))
    unfolding recover resume
    recover-Restores =
        Ends-some
          (choose_region (active_generation_of (header_of_region P 0 restarted))
            (active_generation_of (header_of_region P 1 restarted)))
          (c.active_region, c.active_generation) (start_fresh P restarted)
          (λ chosen. resume P chosen restarted) (Restores P c) (Excused P c) marked-rebooted
          (Ends-bind (ensure_region_erased P (1 - c.active_region)) _ restarted
            (λ a d. OnlyIn (1 - c.active_region) restarted d) (Restores P c) (Excused P c)
            (Ends-map (ensure_region_erased P (1 - c.active_region) restarted)
              (λ a d. OnlyIn (1 - c.active_region) restarted d)
              (λ a d. OnlyIn (1 - c.active_region) restarted d) Unerased (Excused P c)
              (ensure_region_erased-OnlyIn (1 - c.active_region) restarted) (λ a d h. h)
              (λ e d h all. h all.0))
            (λ a d h. scan_region-Restores d h))
