-- ===== src/Flashq/Log/Regions.antt =====
-- The region beside the active one, which op_recover erases.
use mathlib.Core.Path.{subst, ap₂}
use edgesync_espidf.Prelude.{
  ℕ, ◌+◌, ◌-◌, ◌*◌, ◌≤◌, ◌<◌, ◌≡◌, refl, sym, ◌∙◌, ap, ◌⊎◌, inl, inr, Bool-cases, Option, none,
  some, List, leb, if◌then◌else◌, arith,
}
use edgesync_espidf.Action.{ok}
use edgesync_espidf.Action.Outcome.{Ends, Ends-handle, Ends-if, Ends-map}
use edgesync_espidf.Flashq.Partition.{Partition}
use edgesync_espidf.Flashq.Context.{Ctx}
use edgesync_espidf.Flashq.Helpers.{
  region_offset, region_hdr_size, region_header_of, bytes_all_ff, region_header_read, erase_region,
  ensure_region_erased,
}
use edgesync_espidf.Flashq.Recovery.{active_generation_of, choose_region, header_of_region}
use edgesync_espidf.Flashq.Nor.{bytes_from-same, IsNor}
use edgesync_espidf.Flashq.Log.{unscanned, IsMarked, IsLogged}
use edgesync_espidf.Flashq.Log.Append.{IsStored-same}
use edgesync_espidf.Flashq.Log.Headers.{regions_cases, header_of_region-read, header_of_region-same}
use edgesync_espidf.Flashq.Log.Update.{Fails}
use edgesync_espidf.Flashq.Log.Recover.{region_header_read-state}
use edgesync_espidf.Flashq.Log.Start.{Erased, erase_region-Erased, blank_header-inactive}

abbrev region_of : Option (ℕ × ℕ) → ℕ
region_of none = 2
region_of (some chosen) = chosen.0

-- The chosen region is chosen too where the other one is not ACTIVE.
choose_region-first :
    (x y : Option ℕ) (generation : ℕ)
    → choose_region x y ≡ some (0, generation)
    → choose_region x none ≡ some (0, generation)
unfolding choose_region
choose_region-first none none g h = h
choose_region-first none (some b) g h = absurd (omega (arith, ap region_of h))
choose_region-first (some a) none g h = h
choose_region-first (some a) (some b) g h = elim (Bool-cases (leb b a)) [
  | inl le ↦ rw le at h
  | inr lt ↦ absurd (omega (arith, ap region_of (rw lt at h)))
]

choose_region-second :
    (x y : Option ℕ) (generation : ℕ)
    → choose_region x y ≡ some (1, generation)
    → choose_region none y ≡ some (1, generation)
unfolding choose_region
choose_region-second none none g h = h
choose_region-second none (some b) g h = h
choose_region-second (some a) none g h = absurd (omega (arith, ap region_of h))
choose_region-second (some a) (some b) g h = elim (Bool-cases (leb b a)) [
  | inl le ↦ absurd (omega (arith, ap region_of (rw le at h)))
  | inr lt ↦ rw lt at h
]

module _ (P : Partition) (size : ℕ) (byte : P.Flash → ℕ → ℕ) (nor : IsNor P size byte) where
  open P use {Flash}

  -- Either nothing was changed, or the region was erased.
  abbrev pub Cleared : ℕ → Ctx Flash → Ctx Flash → Type 0
  Cleared region c d = (d ≡ c) ⊎ Erased P size byte nor region c d

  erase_region-Cleared :
      (region : ℕ) (c : Ctx Flash)
      → Ends (λ a d. Cleared region c d) Fails (erase_region P region c)
  erase_region-Cleared region c =
      Ends-map (erase_region P region c) (λ a d. Erased P size byte nor region c d)
        (λ a d. Cleared region c d) Fails Fails (erase_region-Erased P size byte nor region c)
        (λ a d h. inr h) (λ e d h. tt)

  pub ensure_region_erased-Cleared :
      (region : ℕ) (c : Ctx Flash)
      → Ends (λ a d. Cleared region c d) Fails (ensure_region_erased P region c)
  unfolding ensure_region_erased
  ensure_region_erased-Cleared region c =
      Ends-handle (region_header_read P region c)
        (λ found c'. if found.1 then ok tt c' else erase_region P region c')
        (λ e c'. erase_region P region c') (λ a d. d ≡ c) (λ e d. d ≡ c) (λ a d. Cleared region c d)
        Fails (region_header_read-state P region c)
        (λ found d same.
          subst
            (λ (x : Ctx Flash).
              Ends (λ a d. Cleared region c d) Fails
                (if found.1 then ok tt x else erase_region P region x))
            (sym same)
            (Ends-if found.1 (ok tt c) (erase_region P region c) (λ a d. Cleared region c d) Fails
              (λ blank. inl refl) (λ used. erase_region-Cleared region c)))
        (λ e d same.
          subst
            (λ (x : Ctx Flash). Ends (λ a d. Cleared region c d) Fails (erase_region P region x))
            (sym same) (erase_region-Cleared region c))

  -- An erased region is not ACTIVE.
  blank_region-inactive :
      (c : Ctx Flash) (region : ℕ)
      → region_offset P c region + region_hdr_size ≤ size
      → ((i : ℕ)
          → region_offset P c region ≤ i
          → i < region_offset P c region + region_hdr_size
          → byte c.flash i ≡ 255)
      → active_generation_of (header_of_region P region c) ≡ none
  blank_region-inactive c region inside blank =
      ap active_generation_of (header_of_region-read P size byte nor c region inside)
      ∙ ap (λ (raw : List ℕ). active_generation_of (some (region_header_of raw, bytes_all_ff raw)))
          (bytes_from-same (λ i. 255) (byte c.flash) (region_offset P c region) region_hdr_size
            blank)
      ∙ blank_header-inactive (region_offset P c region)

  module _ (c : Ctx Flash) (v : IsLogged P size byte c) where
    -- What scan_region reads back over a flash.
    abbrev pub read_back : Flash → Ctx Flash
    read_back g = record c { flash = g; compactions_total = 0; updates_since_compaction = 0 }

    -- The other region of `c` is blank in `g`, and the active one as it was.
    pub record IsAlone (g : Flash) : Type 0 where
      pub blank :
          (i : ℕ)
          → region_offset P c (1 - c.active_region) ≤ i
          → i < region_offset P c (1 - c.active_region) + c.region_size
          → byte g i ≡ 255
      pub kept :
          (i : ℕ)
          → region_offset P c c.active_region ≤ i
          → i < region_offset P c c.active_region + c.region_size
          → byte g i ≡ byte c.flash i

    -- The bytes of a region's header are bytes of the region.
    header_kept :
        (g : Flash) (region : ℕ)
        → c.active_region ≡ region
        → IsAlone g
        → active_generation_of (header_of_region P region (read_back g))
          ≡ active_generation_of (header_of_region P region c)
    header_kept g region e h =
        let kept : (i : ℕ)
            → region * c.region_size ≤ i
            → i < region * c.region_size + c.region_size
            → byte g i ≡ byte c.flash i =
          rw e at h.kept in
        let inside : region * c.region_size + c.region_size ≤ size =
          rw e at v.placed.region_inside in
        ap active_generation_of (
          header_of_region-same P size byte nor c (read_back g) region refl
            (omega (arith, v.placed, inside)) (λ i lo hi. kept i lo (omega (arith, v.placed, hi))))

    header_blank :
        (g : Flash) (region : ℕ)
        → region ≤ 1
        → 1 - c.active_region ≡ region
        → IsAlone g
        → active_generation_of (header_of_region P region (read_back g)) ≡ none
    header_blank g region two e h =
        let blank : (i : ℕ)
            → region * c.region_size ≤ i
            → i < region * c.region_size + c.region_size
            → byte g i ≡ 255 =
          rw e at h.blank in
        blank_region-inactive (read_back g) region
          (elim (regions_cases region two) [
            | inl first ↦ rw first (omega (arith, v.placed))
            | inr second ↦ rw second (omega (arith, v.placed))
          ])
          (λ i lo hi. blank i lo (omega (arith, v.placed, hi)))

    pub IsAlone-IsMarked : (g : Flash) → IsAlone g → IsMarked P (read_back g)
    IsAlone-IsMarked g h = elim (regions_cases c.active_region v.placed.two_regions) [
      | inl first ↦
          ap₂ choose_region (header_kept g 0 first h)
            (header_blank g 1 (omega arith) (omega (arith, first)) h)
          ∙ rw first (choose_region-first _ _ c.active_generation (rw first at v.marked))
      | inr second ↦
          ap₂ choose_region (header_blank g 0 (omega arith) (omega (arith, second)) h)
            (header_kept g 1 second h)
          ∙ rw second (choose_region-second _ _ c.active_generation (rw second at v.marked))
    ]

    -- Nothing was erased.
    pub read_back-IsMarked : IsMarked P (read_back c.flash)
    read_back-IsMarked =
        ap₂ choose_region
          (ap active_generation_of (
            header_of_region-same P size byte nor c (read_back c.flash) 0 refl
              (omega (arith, v.placed)) (λ i lo hi. refl)))
          (ap active_generation_of (
            header_of_region-same P size byte nor c (read_back c.flash) 1 refl
              (omega (arith, v.placed)) (λ i lo hi. refl)))
        ∙ v.marked

    -- The log of `c` over a flash with the same active region.
    pub read_back-IsLogged :
        (g : Flash)
        → IsMarked P (read_back g)
        → ((i : ℕ)
            → region_offset P c c.active_region ≤ i
            → i < region_offset P c c.active_region + c.region_size
            → byte g i ≡ byte c.flash i)
        → IsLogged P size byte (read_back g)
    read_back-IsLogged g marked kept = record {
      scanned = v.scanned;
      held = record {
        log = v.held.log;
        stored =
            IsStored-same (region_offset P c c.active_region) c.region_size c.index_capacity
              (byte c.flash) (byte g) v.held.log (unscanned c.data_start)
              (λ i lo hi.
                kept i lo
                  (omega (arith, rw v.held.replayed at hi, v.off_is, v.placed.cursor_inside)))
              v.held.stored;
        replayed = v.held.replayed;
        blank = λ i lo hi. kept i (omega (arith, lo)) (omega (arith, hi)) ∙ v.held.blank i lo hi;
      };
      off_is = v.off_is;
      seq_is = v.seq_is;
      seq_fits = v.seq_fits;
      index_is = v.index_is;
      gc_is = v.gc_is;
      entries_fit = v.entries_fit;
      marked = marked;
      distinct = v.distinct;
      placed = record {
        size_fits = v.placed.size_fits;
        two_regions = v.placed.two_regions;
        regions_inside = v.placed.regions_inside;
        region_inside = v.placed.region_inside;
        data_behind_header = v.placed.data_behind_header;
        header_fits = v.placed.header_fits;
        cursor_behind_header = v.placed.cursor_behind_header;
        cursor_inside = v.placed.cursor_inside;
        update_fits = v.placed.update_fits;
      };
    }
