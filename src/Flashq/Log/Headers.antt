-- ===== src/Flashq/Log/Headers.antt =====
-- The headers of the regions, which no write to the log touches.
use edgesync_espidf.Prelude.{
  ℕ, ◌+◌, ◌*◌, ◌≤◌, ◌<◌, ◌≡◌, refl, sym, ◌∙◌, ap, ◌⊎◌, inl, inr, Bool, Option, some, List, arith,
}
use mathlib.Core.Path.{ap₂}
use edgesync_espidf.Flashq.Partition.{Partition}
use edgesync_espidf.Flashq.Context.{Entry, Ctx}
use edgesync_espidf.Flashq.Helpers.{
  RegionHeader, region_offset, region_hdr_size, region_header_read, region_header_of, bytes_all_ff,
}
use edgesync_espidf.Flashq.Recovery.{active_generation_of, choose_region, header_of_region}
use edgesync_espidf.Flashq.Nor.{bytes_from, bytes_from-same, IsNor}
use edgesync_espidf.Flashq.Log.{IsPlaced, IsMarked}

-- The active region is the first or the second.
pub regions_cases : (n : ℕ) → n ≤ 1 → (n ≡ 0) ⊎ (n ≡ 1)
regions_cases n h = ground arith

module _ (P : Partition) (size : ℕ) (byte : P.Flash → ℕ → ℕ) (nor : IsNor P size byte) where
  open P use {Flash}

  abbrev pub header_in : Ctx Flash → Flash → ℕ → Option (RegionHeader × Bool)
  header_in c f region =
      let raw = bytes_from (byte f) (region_offset P c region) region_hdr_size in
      some (region_header_of raw, bytes_all_ff raw)

  pub header_of_region-read :
      (c : Ctx Flash) (region : ℕ)
      → region_offset P c region + region_hdr_size ≤ size
      → header_of_region P region c ≡ header_in c c.flash region
  unfolding header_of_region region_header_read
  header_of_region-read c region inside =
      rw
        (
          nor.reads c.flash (region_offset P c region) region_hdr_size inside,
          header_of_region,
          region_header_read,
        )
        refl

  pub header_of_region-same :
      (c d : Ctx Flash) (region : ℕ)
      → d.region_size ≡ c.region_size
      → region_offset P c region + region_hdr_size ≤ size
      → ((i : ℕ)
          → region_offset P c region ≤ i
          → i < region_offset P c region + region_hdr_size
          → byte d.flash i ≡ byte c.flash i)
      → header_of_region P region d ≡ header_of_region P region c
  header_of_region-same c d region same_size inside same =
      header_of_region-read d region (rw same_size inside)
      ∙ ap (λ (raw : List ℕ). some (region_header_of raw, bytes_all_ff raw))
          (ap (λ (n : ℕ). bytes_from (byte d.flash) (region * n) region_hdr_size) same_size
            ∙ bytes_from-same (byte c.flash) (byte d.flash) (region_offset P c region)
                region_hdr_size same)
      ∙ sym (header_of_region-read c region inside)

  pub IsMarked-same :
      (c : Ctx Flash) (f : Flash)
      → IsPlaced size c
      → ((i : ℕ)
          → (i < region_offset P c c.active_region + c.cursor)
            ⊎ (region_offset P c c.active_region + c.region_size ≤ i)
          → byte f i ≡ byte c.flash i)
      → IsMarked P c
      → (cursor next_seq gc updates : ℕ) (index : List Entry)
      → IsMarked P (record c {
        flash = f;
        cursor = cursor;
        next_seq = next_seq;
        index = index;
        awaiting_gc_count = gc;
        updates_since_compaction = updates;
      })
  IsMarked-same c f p same marked cursor next_seq gc updates index =
      let d : Ctx Flash = record c {
        flash = f;
        cursor = cursor;
        next_seq = next_seq;
        index = index;
        awaiting_gc_count = gc;
        updates_since_compaction = updates;
      } in
      let low : header_of_region P 0 d ≡ header_of_region P 0 c =
        header_of_region-same c d 0 refl (omega (arith, p))
          (λ i lo hi. same i (inl (omega (arith, p)))) in
      let high : header_of_region P 1 d ≡ header_of_region P 1 c =
        header_of_region-same c d 1 refl (omega (arith, p)) (λ i lo hi.
          same i (elim (regions_cases c.active_region p.two_regions) [
            | inl first ↦ inr (rw first (omega (arith, p)))
            | inr second ↦ inl (rw second (omega (arith, p)))
          ])) in
      ap₂ choose_region (ap active_generation_of low) (ap active_generation_of high) ∙ marked
