-- ===== src/Flashq/Log/Start.antt =====
-- The fresh start of op_recover: an empty log.
use mathlib.Core.Option.{some-injective}
use mathlib.Core.Path.{subst, ap₂}
use edgesync_espidf.Prelude.{
  ℕ, ◌+◌, ◌*◌, ◌^◌, ◌≤◌, ◌<◌, ◌≡◌, refl, sym, ◌∙◌, ap, ◌⊎◌, inl, inr, Option, none, some, List, [],
  ◌∷◌, arith,
}
use edgesync_espidf.Types.{EspErr}
use edgesync_espidf.Action.Outcome.{Ends, Ends-bind, Ends-if, Ends-map, Ends-both}
use edgesync_espidf.Format.{hdr_magic}
use edgesync_espidf.Flashq.Partition.{Partition}
use edgesync_espidf.Flashq.Context.{Ctx, M, ◌>>=◌, ◌>>◌, gets, modify}
use edgesync_espidf.Flashq.Create.{IsGeometry}
use edgesync_espidf.Flashq.Helpers.{
  region_offset, region_hdr_size, region_header_bytes, region_header_of, bytes_all_ff,
  status_active, erase_region, partition_write_verify,
}
use edgesync_espidf.Flashq.Written.{Stored, SameButFlash, partition_write_verify-Ends}
use edgesync_espidf.Flashq.Recovery.{
  active_generation_of, choose_region, header_of_region, start_fresh,
}
use edgesync_espidf.Flashq.Nor.{bytes_from, bytes_from-same, IsNor}
use edgesync_espidf.Flashq.Log.{unscanned, IsMarked, IsLogged}
use edgesync_espidf.Flashq.Log.Write.{Writes, partition_write_verify-Writes}
use edgesync_espidf.Flashq.Log.Headers.{header_of_region-read}
use edgesync_espidf.Flashq.Log.Update.{Fails}

-- The header of region 0 that start_fresh writes.
abbrev fresh_header : List ℕ
fresh_header = region_header_bytes (record {
  magic = hdr_magic;
  generation = 1;
  status = status_active;
  reserved = 0 ∷ 0 ∷ 0 ∷ [];
})

-- It is read back as ACTIVE with generation 1, and a blank header as no region's.
fresh_header-active :
    active_generation_of (some (region_header_of fresh_header, bytes_all_ff fresh_header)) ≡ some 1
unfolding active_generation_of bytes_all_ff
fresh_header-active = refl

pub blank_header-inactive :
    (off : ℕ)
    → active_generation_of (
        some (
          region_header_of (bytes_from (λ i. 255) off region_hdr_size),
          bytes_all_ff (bytes_from (λ i. 255) off region_hdr_size),
        ))
      ≡ none
unfolding active_generation_of bytes_all_ff
blank_header-inactive off = refl

halves : (i n : ℕ) → (i < n) ⊎ (n ≤ i)
halves i n = ground arith

module _ (P : Partition) (size : ℕ) (byte : P.Flash → ℕ → ℕ) (nor : IsNor P size byte) where
  open P use {Flash, erase}

  -- The bytes of a range are blank, and only the flash is another one.
  abbrev pub Erased : ℕ → Ctx Flash → Ctx Flash → Type 0
  Erased region c d =
      (d ≡ record c { flash = d.flash })
      × ((i : ℕ)
          → region_offset P c region ≤ i
          → i < region_offset P c region + c.region_size
          → byte d.flash i ≡ 255)
      × ((i : ℕ)
          → (i < region_offset P c region) ⊎ (region_offset P c region + c.region_size ≤ i)
          → byte d.flash i ≡ byte c.flash i)

  pub erase_region-Erased :
      (region : ℕ) (c : Ctx Flash) → Ends (λ a d. Erased region c d) Fails (erase_region P region c)
  unfolding erase_region
  erase_region-Erased region c =
      let (erased, f) = erase c.flash (region_offset P c region) c.region_size in
      Ends-if erased _ _ (λ a d. Erased region c d) Fails
        (λ h. (
          refl,
          λ i lo hi. nor.erases c.flash (region_offset P c region) c.region_size i h lo hi,
          λ i out. nor.erases_inside c.flash (region_offset P c region) c.region_size i out,
        ))
        (λ h. tt)

  module _ (c : Ctx Flash) (geometry : IsGeometry size c) (small : size ≤ 2 ^ 31)
      (header_fits : region_hdr_size ≤ c.data_start) where
    -- The flash behind the header's write.
    record IsFresh (f : Flash) : Type 0 where
      marked_active : bytes_from (byte f) (0 * c.region_size) region_hdr_size ≡ fresh_header
      blank : (i : ℕ) → region_hdr_size ≤ i → i < c.region_size + c.region_size → byte f i ≡ 255

    -- The state that start_fresh sets, over a flash.
    abbrev started : Flash → Ctx Flash
    started f = record c {
      flash = f;
      index = [];
      cursor = c.data_start;
      next_seq = 1;
      active_region = 0;
      active_generation = 1;
      awaiting_gc_count = 0;
      compactions_total = 0;
    }

    IsFresh-IsMarked : (f : Flash) → IsFresh f → IsMarked P (started f)
    unfolding choose_region
    IsFresh-IsMarked f h =
        let parse : List ℕ → Option ℕ =
          λ raw. active_generation_of (some (region_header_of raw, bytes_all_ff raw)) in
        let low : active_generation_of (header_of_region P 0 (started f)) ≡ some 1 =
          ap active_generation_of (
            header_of_region-read P size byte nor (started f) 0
              (omega (arith, geometry.regions_fit, header_fits, geometry.data_behind_header)))
          ∙ ap parse h.marked_active
          ∙ fresh_header-active in
        let high : active_generation_of (header_of_region P 1 (started f)) ≡ none =
          ap active_generation_of (
            header_of_region-read P size byte nor (started f) 1
              (omega (arith, geometry.regions_fit, header_fits, geometry.data_behind_header)))
          ∙ ap parse (
              bytes_from-same (λ i. 255) (byte f) (1 * c.region_size) region_hdr_size
                (λ i lo hi.
                  h.blank i (omega (arith, header_fits, geometry.data_behind_header))
                    (omega (arith, header_fits, geometry.data_behind_header))))
          ∙ blank_header-inactive (1 * c.region_size) in
        ap₂ choose_region low high

    IsFresh-IsLogged : (f : Flash) → IsFresh f → IsLogged P size byte (started f)
    IsFresh-IsLogged f h = record {
      scanned = unscanned c.data_start;
      held = record {
        log = [];
        stored = tt;
        replayed = refl;
        blank = λ i lo hi. h.blank i (omega arith) (omega arith);
      };
      off_is = refl;
      seq_is = refl;
      seq_fits = omega arith;
      index_is = refl;
      gc_is = refl;
      entries_fit = tt;
      marked = IsFresh-IsMarked f h;
      distinct = λ i j bi bj e. absurd (omega arith);
      placed = record {
        size_fits = small;
        two_regions = omega arith;
        regions_inside = geometry.regions_fit;
        region_inside = omega (arith, geometry.regions_fit);
        data_behind_header = geometry.data_behind_header;
        header_fits = header_fits;
        cursor_behind_header = omega arith;
        cursor_inside = omega (arith, geometry.data_behind_header);
        update_fits = geometry.records_fit 0 0 (omega arith) (omega arith);
      };
    }

    abbrev Logged : Unit {0} → Ctx Flash → Type 0
    Logged a d = IsLogged P size byte d

    abbrev write_header : M Flash (Unit {0})
    write_header = do
      base ← gets (λ (x : Ctx Flash). region_offset P x 0)
      partition_write_verify P base fresh_header
      modify (λ (x : Ctx Flash). record x {
        index = [];
        cursor = x.data_start;
        next_seq = 1;
        active_region = 0;
        active_generation = 1;
        compactions_total = 0;
        awaiting_gc_count = 0;
      })

    write_header-IsLogged :
        (f : Flash)
        → ((i : ℕ) → i < c.region_size + c.region_size → byte f i ≡ 255)
        → Ends Logged Fails (write_header (record c { flash = f }))
    write_header-IsLogged f blank =
        let base : ℕ = region_offset P c 0 in
        let c₂ : Ctx Flash = record c { flash = f } in
        let W : Ctx Flash → Type 0 = λ d. SameButFlash P c₂ d × Stored P d base fresh_header in
        let E : EspErr → Ctx Flash → Type 0 = λ e d. Writes P base fresh_header c₂ d in
        Ends-bind (partition_write_verify P base fresh_header) _ c₂
          (λ a d. W d × Writes P base fresh_header c₂ d) Logged Fails
          (Ends-map (partition_write_verify P base fresh_header c₂)
            (λ a d. W d × Writes P base fresh_header c₂ d)
            (λ a d. W d × Writes P base fresh_header c₂ d) E Fails
            (Ends-both (partition_write_verify P base fresh_header c₂) (λ a d. W d)
              (λ a d. Writes P base fresh_header c₂ d) _ E
              (partition_write_verify-Ends P base fresh_header c₂)
              (partition_write_verify-Writes P base fresh_header c₂))
            (λ a d h. h) (λ e d h. tt))
          (λ a d h.
            let (only, stored) = h.0 in
            subst
              (λ (x : Ctx Flash). IsLogged P size byte (record x {
                index = [];
                cursor = x.data_start;
                next_seq = 1;
                active_region = 0;
                active_generation = 1;
                compactions_total = 0;
                awaiting_gc_count = 0;
              }))
              (sym only)
              (IsFresh-IsLogged d.flash (record {
                marked_active = some-injective _ _ (
                    sym (
                      nor.reads d.flash base region_hdr_size (
                        omega
                          (arith, geometry.regions_fit, header_fits, geometry.data_behind_header)))
                    ∙ stored);
                blank = λ i lo hi.
                    ap (λ (x : Flash). byte x i) h.1
                    ∙ nor.writes_inside f base fresh_header i (inr (omega (arith, lo)))
                    ∙ blank i hi;
              })))

    pub start_fresh-IsLogged : Ends Logged Fails (start_fresh P c)
    unfolding start_fresh
    start_fresh-IsLogged =
        Ends-bind (erase_region P 0) _ c (λ a d. Erased 0 c d) Logged Fails
          (erase_region-Erased 0 c)
          λ a c₁ (only, blank, kept).
            subst (λ (x : Ctx Flash). Ends Logged Fails ((erase_region P 1 >> write_header) x))
              (sym only)
              (Ends-bind (erase_region P 1) _ (record c { flash = c₁.flash })
                (λ a d. Erased 1 (record c { flash = c₁.flash }) d) Logged Fails
                (erase_region-Erased 1 (record c { flash = c₁.flash }))
                λ b c₂ (only', blank', kept').
                  subst (λ (x : Ctx Flash). Ends Logged Fails (write_header x)) (sym only')
                    (write_header-IsLogged c₂.flash (λ i hi. elim (halves i c.region_size) [
                      | inl low ↦
                          kept' i (inl (omega (arith, low)))
                          ∙ blank i (omega arith) (omega (arith, low))
                      | inr high ↦ blank' i (omega (arith, high)) (omega (arith, hi))
                    ])))
