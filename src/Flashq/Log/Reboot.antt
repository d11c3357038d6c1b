-- ===== src/Flashq/Log/Reboot.antt =====
-- op_recover after a restart: the log goes on behind it.
use mathlib.Core.Path.{subst}
use edgesync_espidf.Prelude.{ℕ, ◌+◌, ◌-◌, ◌≤◌, ◌<◌, ◌≡◌, refl, sym, ◌∙◌, ap, inl, inr, length}
use edgesync_espidf.Action.{state_of}
use edgesync_espidf.Action.Outcome.{Ends, Ends-bind, Ends-both, Ends-some}
use edgesync_espidf.Flashq.Partition.{Partition}
use edgesync_espidf.Flashq.Context.{Ctx}
use edgesync_espidf.Flashq.Helpers.{region_offset, ensure_region_erased}
use edgesync_espidf.Flashq.Scan.{load_region, scan_region}
use edgesync_espidf.Flashq.Recovery.{
  active_generation_of, choose_region, header_of_region, start_fresh, resume, recover,
}
use edgesync_espidf.Flashq.Nor.{IsNor}
use edgesync_espidf.Flashq.Log.{IsMarked, IsLogged, rebooted}
use edgesync_espidf.Flashq.Log.Scan.{IsCut-idle, load_region-rebooted}
use edgesync_espidf.Flashq.Log.Update.{Fails}
use edgesync_espidf.Flashq.Log.Recover.{other_outside, marked-rebooted}
use edgesync_espidf.Flashq.Log.Rooms.{Ends-state_of, HasRooms, requeue_in_flight-IsLogged}
use edgesync_espidf.Flashq.Log.Regions.{
  Cleared, ensure_region_erased-Cleared, read_back, IsAlone, IsAlone-IsMarked, read_back-IsMarked,
  read_back-IsLogged,
}

module _ (P : Partition) where
  open P use {Flash}

  -- What op_recover has read before that loop, if no power was lost during a write.
  abbrev pub loaded : Ctx Flash → Ctx Flash → Ctx Flash
  loaded c d = load_region P c.active_region c.active_generation d

  -- No compaction is due when a restarted device makes IN_FLIGHT entries PENDING again.
  abbrev pub HasRequeueRoom : Ctx Flash → Type 0
  HasRequeueRoom c =
      let d = loaded c (state_of (ensure_region_erased P (1 - c.active_region) (rebooted c))) in
      HasRooms P (length d.index) 0 d

module _ (P : Partition) (size : ℕ) (byte : P.Flash → ℕ → ℕ) (nor : IsNor P size byte) where
  open P use {Flash}

  abbrev Logged : Unit {0} → Ctx Flash → Type 0
  Logged a d = IsLogged P size byte d

  module _ (c : Ctx Flash) (v : IsLogged P size byte c) where
    scan_region-IsLogged :
        (d : Ctx Flash)
        → d ≡ record (rebooted c) { flash = d.flash }
        → IsMarked P (read_back P size byte nor c v d.flash)
        → ((i : ℕ)
            → region_offset P c c.active_region ≤ i
            → i < region_offset P c c.active_region + c.region_size
            → byte d.flash i ≡ byte c.flash i)
        → HasRooms P (length (loaded P c d).index) 0 (loaded P c d)
        → Ends Logged Fails (scan_region P c.active_region c.active_generation d)
    unfolding scan_region
    scan_region-IsLogged d only marked kept rooms =
        let same : loaded P c d ≡ read_back P size byte nor c v d.flash =
          ap (loaded P c) only
          ∙ load_region-rebooted P size byte nor c c.flash d.flash v
              (IsCut-idle P size byte nor c v) kept in
        requeue_in_flight-IsLogged P size byte nor (length (loaded P c d).index) 0 (loaded P c d)
          (subst (λ (x : Ctx Flash). IsLogged P size byte x) (sym same)
            (read_back-IsLogged P size byte nor c v d.flash marked kept))
          rooms

    -- Behind op_recover of a restarted device the calls can go on.
    pub recover-IsLogged : HasRequeueRoom P c → Ends Logged Fails (recover P (rebooted c))
    unfolding recover resume
    recover-IsLogged rooms =
        let R : Ctx Flash → Type 0 =
          λ d. HasRooms P (length (loaded P c d).index) 0 (loaded P c d) in
        let other : ℕ = 1 - c.active_region in
        Ends-some
          (choose_region (active_generation_of (header_of_region P 0 (rebooted c)))
            (active_generation_of (header_of_region P 1 (rebooted c))))
          (c.active_region, c.active_generation) (start_fresh P (rebooted c))
          (λ chosen. resume P chosen (rebooted c)) Logged Fails
          (marked-rebooted P size byte nor c v c.flash (IsCut-idle P size byte nor c v))
          (Ends-bind (ensure_region_erased P other) _ (rebooted c)
            (λ a d. Cleared P size byte nor other (rebooted c) d × R d) Logged Fails
            (Ends-both (ensure_region_erased P other (rebooted c))
              (λ a d. Cleared P size byte nor other (rebooted c) d) (λ a d. R d) Fails Fails
              (ensure_region_erased-Cleared P size byte nor other (rebooted c))
              (Ends-state_of (ensure_region_erased P other (rebooted c)) R rooms))
            (λ a d (cleared, room). elim cleared [
              | inl same ↦
                  subst
                    (λ (x : Ctx Flash).
                      R x → Ends Logged Fails (scan_region P c.active_region c.active_generation x))
                    (sym same)
                    (scan_region-IsLogged (rebooted c) refl (read_back-IsMarked P size byte nor c v)
                      (λ i lo hi. refl))
                    room
              | inr (only, blank, kept) ↦
                  let alone : IsAlone P size byte nor c v d.flash = record {
                    blank = blank;
                    kept = λ i lo hi. kept i (
                        other_outside P size byte nor c.active_region c.region_size i
                          v.placed.two_regions lo hi);
                  } in
                  scan_region-IsLogged d only (IsAlone-IsMarked P size byte nor c v d.flash alone)
                    alone.kept room
            ]))
