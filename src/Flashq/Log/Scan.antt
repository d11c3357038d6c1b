-- ===== src/Flashq/Log/Scan.antt =====
-- scan_region on a region that holds a log.
use edgesync_espidf.Prelude.{
  ℕ, zero, suc, ◌+◌, ◌^◌, ◌≤◌, ◌<◌, ◌≡◌, refl, ◌∙◌, ap, ◌⊎◌, inl, inr, true, false, none, some,
  List, [], ◌∷◌, leb, ltb, le→leb, le→ltb, leb→le, Bool-cases, Bool, if◌then◌else◌, u32, arith,
}
use edgesync_espidf.Format.{Header, decode_header, verify_body, hdr_size, round4, header_of_bytes}
use edgesync_espidf.Flashq.Partition.{Partition}
use edgesync_espidf.Flashq.Context.{Ctx}
use edgesync_espidf.Flashq.Helpers.{region_offset}
use edgesync_espidf.Flashq.Scan.{
  ScanState, total_needed, apply_record, checked_record, record_at, scan_loop, load_region,
}
use edgesync_espidf.Flashq.Scan.Stops.{off-apply_record}
use edgesync_espidf.Flashq.Nor.{bytes_from, bytes_from-same, IsNor}
use edgesync_espidf.Flashq.Log.Append.{IsStored-same}
use edgesync_espidf.Flashq.Log.{
  body_size, unscanned, replay, IsStoredAt, IsStored, IsRejected, IsLogged, rebooted,
}

-- A blank header has no magic.
decode_header-blank :
    (b : ℕ → ℕ) (off : ℕ)
    → ((i : ℕ) → off ≤ i → i < off + hdr_size → b i ≡ 255)
    → decode_header (bytes_from b off hdr_size) ≡ none
unfolding decode_header header_of_bytes
decode_header-blank b off h = ap decode_header (bytes_from-same (λ i. 255) b off hdr_size h)

IsRejected-same :
    (base region_size off : ℕ) (b b' : ℕ → ℕ)
    → ((i : ℕ) → base ≤ i → i < base + region_size → b' i ≡ b i)
    → off + hdr_size ≤ region_size
    → IsRejected b base region_size off
    → IsRejected b' base region_size off
IsRejected-same base region_size off b b' same room r =
    let header : bytes_from b' (base + off) hdr_size ≡ bytes_from b (base + off) hdr_size =
      bytes_from-same b b' (base + off) hdr_size
        (λ i lo hi. same i (omega (arith, lo)) (omega (arith, hi))) in
    elim r [
      | inl bad ↦ inl (ap decode_header header ∙ bad)
      | inr (hdr, accepted, inside, bad) ↦ inr (
        hdr,
        ap decode_header header ∙ accepted,
        inside,
        ap (verify_body hdr) (
              bytes_from-same b b' (base + off + hdr_size) (body_size hdr)
                (λ i lo hi. same i (omega (arith, lo)) (omega (arith, hi, inside))))
            ∙ bad,
      )
    ]

if_same : {A : Type 0} (b : Bool) (x : A) → (if b then x else x) ≡ x
if_same true x = refl
if_same false x = refl

module _ (P : Partition) (size : ℕ) (byte : P.Flash → ℕ → ℕ) (nor : IsNor P size byte)
    (c : Ctx P.Flash) (region : ℕ) (small : size ≤ 2 ^ 31)
    (inside : region_offset P c region + c.region_size ≤ size) where
  record_at-stored :
      (off : ℕ) (hdr : Header)
      → IsStoredAt (byte c.flash) (region_offset P c region) c.region_size off hdr
      → record_at P c region off ≡ some hdr
  unfolding record_at checked_record
  record_at-stored off hdr v =
      let base : ℕ = region_offset P c region in
      rw
        (
          nor.reads c.flash (base + off) hdr_size (omega (arith, v.within, v.whole)),
          v.accepted,
          le→ltb c.region_size (u32 (off + total_needed hdr)) (omega (arith, v.within, v.no_wrap)),
          nor.reads c.flash (base + off + hdr_size) (body_size hdr)
              (omega (arith, v.within, v.whole)),
          v.intact,
          record_at,
          checked_record,
        )
        refl

  record_at-rejected :
      (off : ℕ)
      → off + hdr_size ≤ c.region_size
      → IsRejected (byte c.flash) (region_offset P c region) c.region_size off
      → record_at P c region off ≡ none
  unfolding record_at checked_record
  record_at-rejected off room (inl bad) =
      let base : ℕ = region_offset P c region in
      rw (nor.reads c.flash (base + off) hdr_size (omega arith), bad, record_at) refl
  record_at-rejected off room (inr (hdr, accepted, inside_region, bad)) =
      let base : ℕ = region_offset P c region in
      rw
        (
          nor.reads c.flash (base + off) hdr_size (omega arith),
          accepted,
          nor.reads c.flash (base + off + hdr_size) (body_size hdr) (omega (arith, inside_region)),
          bad,
          record_at,
          checked_record,
        )
        (if_same (ltb c.region_size (u32 (off + total_needed hdr))) none)

  -- The loop goes through the log, and ends behind it.
  scan_loop-replay :
      (fuel : ℕ) (log : List Header) (s : ScanState)
      → c.region_size < fuel + s.off
      → IsStored (byte c.flash) (region_offset P c region) c.region_size c.index_capacity log s
      → ((replay c.index_capacity log s).off + hdr_size ≤ c.region_size
          → IsRejected
              (byte c.flash)
              (region_offset P c region)
              c.region_size
              (replay c.index_capacity log s).off)
      → scan_loop P fuel c region s ≡ replay c.index_capacity log s
  unfolding scan_loop
  scan_loop-replay zero [] s enough v rejected = refl
  scan_loop-replay zero (hdr ∷ log) s enough v rejected =
      absurd (omega (arith, v.0.within, v.0.whole))
  scan_loop-replay (suc fuel) [] s enough v rejected =
      elim (Bool-cases (leb (s.off + hdr_size) c.region_size)) [
        | inr over ↦ rw (over, scan_loop) refl
        | inl fits ↦
            let room : s.off + hdr_size ≤ c.region_size = leb→le _ _ fits in
            rw (fits, record_at-rejected s.off room (rejected room), scan_loop) refl
      ]
  scan_loop-replay (suc fuel) (hdr ∷ log) s enough v rejected =
      let next : ScanState = apply_record c.index_capacity hdr s in
      let moved : next.off ≡ s.off + round4 (total_needed hdr) =
        off-apply_record c.index_capacity hdr s in
      rw
        (
          le→leb (s.off + hdr_size) c.region_size (omega (arith, v.0.within, v.0.whole)),
          record_at-stored s.off hdr v.0,
          scan_loop,
        )
        (scan_loop-replay fuel log next (omega (arith, moved, v.0.whole)) v.1 rejected)

-- The flash behind a write that a loss of power cut off: only the free space of the active region differs, and what
-- lies at the cursor is no record.
pub record IsCut (P : Partition) (byte : P.Flash → ℕ → ℕ) (c : Ctx P.Flash) (f : P.Flash)
    : Type 0 where
  pub same :
      (i : ℕ)
      → (i < region_offset P c c.active_region + c.cursor)
        ⊎ (region_offset P c c.active_region + c.region_size ≤ i)
      → byte f i ≡ byte c.flash i
  pub rejected :
      c.cursor + hdr_size ≤ c.region_size
      → IsRejected (byte f) (region_offset P c c.active_region) c.region_size c.cursor

module _ (P : Partition) (size : ℕ) (byte : P.Flash → ℕ → ℕ) (nor : IsNor P size byte) where
  -- Where nothing was being written.
  pub IsCut-idle : (c : Ctx P.Flash) → IsLogged P size byte c → IsCut P byte c c.flash
  IsCut-idle c v = record {
    same = λ i h. refl;
    rejected = λ room. inl (
        decode_header-blank (byte c.flash) (region_offset P c c.active_region + c.cursor)
          (λ i lo hi. v.held.blank i (omega (arith, lo, v.off_is)) (omega (arith, hi))));
  }

  -- The state that scan_region reads from the flash of a rebooted device is the one of before, but for the
  -- two counters that are not stored. `g` has the same active region as the cut flash `f`.
  pub load_region-rebooted :
      (c : Ctx P.Flash) (f g : P.Flash)
      → IsLogged P size byte c
      → IsCut P byte c f
      → ((i : ℕ)
          → region_offset P c c.active_region ≤ i
          → i < region_offset P c c.active_region + c.region_size
          → byte g i ≡ byte f i)
      → load_region P c.active_region c.active_generation (record (rebooted c) { flash = g })
        ≡ record c { flash = g; compactions_total = 0; updates_since_compaction = 0 }
  unfolding load_region
  load_region-rebooted c f g v cut same =
      let base : ℕ = region_offset P c c.active_region in
      let log : List Header = v.held.log in
      let end : (replay c.index_capacity log (unscanned c.data_start)).off ≡ c.cursor =
        ap (λ (s : ScanState). s.off) v.held.replayed ∙ v.off_is in
      let stored : IsStored (byte g) base c.region_size c.index_capacity log
          (unscanned c.data_start) =
        IsStored-same base c.region_size c.index_capacity (byte c.flash) (byte g) log
          (unscanned c.data_start)
          (λ i lo hi.
            same i lo (omega (arith, hi, end, v.placed.cursor_inside))
            ∙ cut.same i (inl (rw end at hi)))
          v.held.stored in
      let found : scan_loop P c.region_size (record (rebooted c) { flash = g }) c.active_region
            (unscanned c.data_start)
          ≡ v.scanned =
        scan_loop-replay P size byte nor (record (rebooted c) { flash = g }) c.active_region
          v.placed.size_fits v.placed.region_inside c.region_size log (unscanned c.data_start)
          (omega (arith, v.placed.header_fits)) stored
          (λ room. rw end (
            IsRejected-same base c.region_size c.cursor (byte f) (byte g) same (rw end at room)
              (cut.rejected (rw end at room))))
        ∙ v.held.replayed in
      let seq : u32 (v.scanned.max_seq_seen + 1) ≡ c.next_seq =
        omega (arith, v.seq_is, v.seq_fits) in
      rw found (λ i. record c {
        flash = g;
        cursor = v.off_is i;
        next_seq = seq i;
        index = v.index_is i;
        awaiting_gc_count = v.gc_is i;
        compactions_total = 0;
        updates_since_compaction = 0;
      })
