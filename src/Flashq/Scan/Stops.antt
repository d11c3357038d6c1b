-- ===== src/Flashq/Scan/Stops.antt =====
-- How the loop of scan_region (edgesync_storage_flashq.c) ends.
use edgesync_espidf.Prelude.{
  ℕ, zero, suc, ◌+◌, ◌^◌, ◌≤◌, ◌<◌, ◌≡◌, refl, sym, ap, ◌⊎◌, inl, inr, Bool, true, false,
  Bool-cases, ◌||◌, Option, Option-cases, none, some, List, length, ltb, leb, ◌==◌, if◌then◌else◌,
  u32, arith,
}
use mathlib.Core.Option.{some-injective}
use edgesync_espidf.Types.{state_delivered, state_removed}
use edgesync_espidf.Format.{
  Header, decode_header, verify_body, hdr_size, round4, rec_message, rec_update,
}
use edgesync_espidf.Flashq.Partition.{Partition}
use edgesync_espidf.Flashq.Context.{Ctx}
use edgesync_espidf.Flashq.Helpers.{region_offset, find_entry}
use edgesync_espidf.Flashq.Scan.{
  ScanState, total_needed, apply_message, apply_update_at, apply_update, apply_record,
  checked_record, record_at, scan_loop, load_region,
}

module _ {A B : Type 0} where
  -- What a match on an option that gives a value has matched.
  some_inverse :
      (o : Option A) (f : A → Option B) (b : B)
      → elim o [ none ↦ none | some a ↦ f a ] ≡ some b
      → (a : A) × (o ≡ some a) × (f a ≡ some b)
  some_inverse none f b e = absurd (cc)
  some_inverse (some a) f b e = (a, refl, e)

if_inverse :
    {A : Type 0} (c : Bool) (o : Option A) (a : A) → (if c then o else none) ≡ some a → o ≡ some a
if_inverse true o a e = e
if_inverse false o a e = absurd (cc)

unless_inverse :
    {A : Type 0} (c : Bool) (o : Option A) (a : A) → (if c then none else o) ≡ some a → o ≡ some a
unless_inverse true o a e = absurd (cc)
unless_inverse false o a e = e

-- No branch of the body but its last statement moves `off`.
off-if :
    (b : Bool) (s s' : ScanState) (off : ℕ)
    → s.off ≡ off
    → s'.off ≡ off
    → (if b then s else s').off ≡ off
off-if true s s' off h h' = h
off-if false s s' off h h' = h'

off-apply_update : (hdr : Header) (s : ScanState) → (apply_update hdr s).off ≡ s.off
unfolding apply_update apply_update_at
off-apply_update hdr s = elim (Option-cases (find_entry s.index hdr.message_id)) [
  | inl unknown ↦ rw (unknown, apply_update) refl
  | inr (pos, known) ↦
      rw (known, apply_update)
        (off-if ((hdr.state == state_delivered) || (hdr.state == state_removed)) _ _ s.off refl
          refl)
]

pub off-apply_record :
    (index_capacity : ℕ) (hdr : Header) (s : ScanState)
    → (apply_record index_capacity hdr s).off ≡ s.off + round4 (total_needed hdr)
unfolding apply_record apply_message
off-apply_record index_capacity hdr s =
    let seen : ScanState = record s {
      max_seq_seen = if ltb s.max_seq_seen hdr.seq then hdr.seq else s.max_seq_seen;
    } in
    ap (λ n. n + round4 (total_needed hdr))
      (off-if (hdr.type == rec_message) (apply_message index_capacity hdr seen) _ s.off
        (off-if (leb index_capacity (length s.index)) _ _ s.off refl refl)
        (off-if (hdr.type == rec_update) (apply_update hdr seen) seen s.off
          (off-apply_update hdr seen) refl))

module _ (P : Partition) (size : ℕ) where
  open P use {Flash, read}

  -- esp_partition_read reads nothing outside of the partition.
  pub record IsBounded : Type 0 where
    pub inside :
        (f : Flash) (offset len : ℕ) (bytes : List ℕ)
        → read f offset len ≡ some bytes
        → offset + len ≤ size

  -- The condition of the loop is false, or the loop breaks.
  abbrev pub IsStopped : Ctx Flash → ℕ → ℕ → Type 0
  IsStopped ctx region off =
      (leb (off + hdr_size) ctx.region_size ≡ false) ⊎ (record_at P ctx region off ≡ none)

  module _ (bounded : IsBounded) (small : size ≤ 2 ^ 31) where
    round4_advances :
        (contents offset : ℕ)
        → offset + u32 (u32 contents + 4) ≤ size
        → 64 ≤ round4 (u32 (hdr_size + u32 contents + 4))
    unfolding round4
    round4_advances contents offset inside = omega arith

    -- A valid record has a body inside the partition, so that its size did not wrap to nothing.
    record_at-advances :
        (ctx : Ctx Flash) (region off : ℕ) (hdr : Header)
        → record_at P ctx region off ≡ some hdr
        → 64 ≤ round4 (total_needed hdr)
    unfolding record_at checked_record round4
    record_at-advances ctx region off hdr e =
        let (hdr_buf, got, rest) =
          some_inverse (read ctx.flash (region_offset P ctx region + off) hdr_size) _ hdr e in
        let (hdr', decoded, checked) = some_inverse (decode_header hdr_buf) _ hdr rest in
        let (body, given, verified) =
          some_inverse
            (read ctx.flash (region_offset P ctx region + off + hdr_size)
              (u32 (u32 (hdr'.destination_len + hdr'.body_len) + 4)))
            _ hdr
            (unless_inverse (ltb ctx.region_size (u32 (off + total_needed hdr'))) _ hdr checked) in
        let same : hdr' ≡ hdr =
          some-injective _ _ (if_inverse (verify_body hdr' body) (some hdr') hdr verified) in
        rw (sym same) (
          round4_advances (hdr'.destination_len + hdr'.body_len)
            (region_offset P ctx region + off + hdr_size) (bounded.inside ctx.flash _ _ body given))

    scan_loop-IsStopped :
        (fuel : ℕ) (ctx : Ctx Flash) (region : ℕ) (s : ScanState)
        → ctx.region_size < fuel + s.off
        → IsStopped ctx region (scan_loop P fuel ctx region s).off
    unfolding scan_loop
    scan_loop-IsStopped zero ctx region s enough = inl (ground arith)
    scan_loop-IsStopped (suc fuel) ctx region s enough =
        elim (Bool-cases (leb (s.off + hdr_size) ctx.region_size)) [
          | inr over ↦ rw (over, scan_loop) (inl over)
          | inl fits ↦ elim (Option-cases (record_at P ctx region s.off)) [
            | inl broken ↦ rw (fits, broken, scan_loop) (inr broken)
            | inr (hdr, valid) ↦
                let next = apply_record ctx.index_capacity hdr s in
                let moved = off-apply_record ctx.index_capacity hdr s in
                let far = record_at-advances ctx region s.off hdr valid in
                rw (fits, valid, scan_loop)
                  (scan_loop-IsStopped fuel ctx region next (omega (arith, moved, far)))
          ]
        ]

    -- For a partition of at most 2 GiB outside of which nothing is read, and regions with a header: the loop of
    -- scan_region ends by its own conditions, within as many rounds as a region has bytes. Where it leaves the cursor,
    -- no further header fits in the region, or there is no valid record.
    pub load_region-IsStopped :
        (region generation : ℕ) (ctx : Ctx Flash)
        → 0 < ctx.data_start
        → IsStopped ctx region (load_region P region generation ctx).cursor
    unfolding load_region
    load_region-IsStopped region generation ctx header =
        scan_loop-IsStopped ctx.region_size ctx region _ (omega arith)
