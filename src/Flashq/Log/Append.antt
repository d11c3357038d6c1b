-- ===== src/Flashq/Log/Append.antt =====
-- A log that append_locked makes longer by one record.
use edgesync_espidf.Prelude.{
  ℕ, ◌+◌, ◌-◌, ◌^◌, ◌≤◌, ◌<◌, ◌≡◌, refl, sym, ◌∙◌, ap, ◌⊎◌, inl, inr, List, [], ◌∷◌, ◌++◌, length,
  drop, arith,
}
use edgesync_espidf.Format.{Header, decode_header, verify_body, hdr_size, round4, record_total_size}
use edgesync_espidf.Format.Size.{max_body_len}
use edgesync_espidf.Format.Records.{IsRecord}
use edgesync_espidf.Format.Prefix.{decode_header-append, verify_body-append}
use edgesync_espidf.Flashq.Scan.{ScanState, total_needed, apply_record}
use edgesync_espidf.Flashq.Scan.Stops.{off-apply_record}
use edgesync_espidf.Flashq.Nor.{
  bytes_from, bytes_from-add, bytes_from-same, bytes_from-drop, length-bytes_from,
}
use edgesync_espidf.Flashq.Log.{body_size, unscanned, replay, IsStoredAt, IsStored, Holds}

off-le-replay : (cap : ℕ) (log : List Header) (s : ScanState) → s.off ≤ (replay cap log s).off
off-le-replay cap [] s = omega arith
off-le-replay cap (hdr ∷ log) s =
    omega (arith, off-le-replay cap log (apply_record cap hdr s), off-apply_record cap hdr s)

replay-append :
    (cap : ℕ) (log : List Header) (hdr : Header) (s : ScanState)
    → replay cap (log ++ hdr ∷ []) s ≡ apply_record cap hdr (replay cap log s)
replay-append cap [] hdr s = refl
replay-append cap (x ∷ log) hdr s = replay-append cap log hdr (apply_record cap x s)

module _ (base region_size cap : ℕ) where
  -- A record stays where no byte of it changes.
  IsStoredAt-same :
      (b b' : ℕ → ℕ) (off : ℕ) (hdr : Header)
      → ((i : ℕ) → base ≤ i → i < base + (off + round4 (total_needed hdr)) → b' i ≡ b i)
      → IsStoredAt b base region_size off hdr
      → IsStoredAt b' base region_size off hdr
  IsStoredAt-same b b' off hdr same v = record {
    accepted =
        ap decode_header (
          bytes_from-same b b' (base + off) hdr_size
            (λ i lo hi. same i (omega (arith, lo)) (omega (arith, v.whole))))
        ∙ v.accepted;
    intact =
        ap (verify_body hdr) (
          bytes_from-same b b' (base + off + hdr_size) (body_size hdr)
            (λ i lo hi. same i (omega (arith, lo)) (omega (arith, v.whole))))
        ∙ v.intact;
    within = v.within;
    whole = v.whole;
    no_wrap = v.no_wrap;
  }

  pub IsStored-same :
      (b b' : ℕ → ℕ) (log : List Header) (s : ScanState)
      → ((i : ℕ) → base ≤ i → i < base + (replay cap log s).off → b' i ≡ b i)
      → IsStored b base region_size cap log s
      → IsStored b' base region_size cap log s
  IsStored-same b b' [] s same v = tt
  IsStored-same b b' (hdr ∷ log) s same v =
      let next : ScanState = apply_record cap hdr s in
      (
        IsStoredAt-same b b' s.off hdr
            (λ i lo hi.
              same i lo (omega (arith, off-apply_record cap hdr s, off-le-replay cap log next)))
            v.0,
        IsStored-same b b' log next same v.1,
      )

  IsStored-append :
      (b : ℕ → ℕ) (log : List Header) (hdr : Header) (s : ScanState)
      → IsStored b base region_size cap log s
      → IsStoredAt b base region_size (replay cap log s).off hdr
      → IsStored b base region_size cap (log ++ hdr ∷ []) s
  IsStored-append b [] hdr s v w = (w, tt)
  IsStored-append b (x ∷ log) hdr s v w =
      (v.0, IsStored-append b log hdr (apply_record cap x s) v.1 w)

  -- A record behind the log, in bytes that were blank.
  pub Holds-append :
      (b b' : ℕ → ℕ) (data_start : ℕ) (s : ScanState) (hdr : Header)
      → Holds b base region_size cap data_start s
      → ((i : ℕ) → (i < base + s.off) ⊎ (base + s.off + round4 (total_needed hdr) ≤ i) → b' i ≡ b i)
      → IsStoredAt b' base region_size s.off hdr
      → Holds b' base region_size cap data_start (apply_record cap hdr s)
  Holds-append b b' data_start s hdr h same v =
      let old : IsStored b' base region_size cap h.log (unscanned data_start) =
        IsStored-same b b' h.log (unscanned data_start)
          (λ i lo hi. same i (inl (rw h.replayed at hi))) h.stored in
      record {
        log = h.log ++ hdr ∷ [];
        stored = IsStored-append b' h.log hdr (unscanned data_start) old (rw (sym h.replayed) at v);
        replayed =
            replay-append cap h.log hdr (unscanned data_start)
            ∙ ap (apply_record cap hdr) h.replayed;
        blank = λ i lo hi.
            let moved = off-apply_record cap hdr s in
            same i (inr (omega (arith, moved))) ∙ h.blank i (omega (arith, moved)) hi;
      }

  -- A buffer with an encoded record, as it lies in the flash.
  pub IsStoredAt-record :
      (b : ℕ → ℕ) (off : ℕ) (hdr : Header) (buf destination payload : List ℕ)
      → IsRecord buf hdr destination payload
      → hdr.destination_len < 2 ^ 16
      → hdr.body_len ≤ max_body_len
      → length buf ≡ record_total_size hdr.destination_len hdr.body_len
      → bytes_from b (base + off) (length buf) ≡ buf
      → off + length buf ≤ region_size
      → IsStoredAt b base region_size off hdr × (round4 (total_needed hdr) ≡ length buf)
  unfolding record_total_size round4
  IsStoredAt-record b off hdr buf destination payload rec hd hb len there room =
      let rest : ℕ = length buf - hdr_size in
      let tail : ℕ = rest - body_size hdr in
      let sum : length buf ≡ hdr_size + rest = omega (arith, len) in
      let sum' : rest ≡ body_size hdr + tail = omega (arith, len) in
      let all : bytes_from b (base + off) hdr_size ++ bytes_from b (base + off + hdr_size) rest
          ≡ buf =
        sym (bytes_from-add b (base + off) hdr_size rest)
        ∙ ap (bytes_from b (base + off)) (sym sum)
        ∙ there in
      let behind : drop hdr_size buf
          ≡ bytes_from b (base + off + hdr_size) (body_size hdr)
            ++ bytes_from b (base + off + hdr_size + body_size hdr) tail =
        ap (drop hdr_size) (sym there ∙ ap (bytes_from b (base + off)) sum)
        ∙ bytes_from-drop b (base + off) hdr_size rest
        ∙ ap (bytes_from b (base + off + hdr_size)) sum'
        ∙ bytes_from-add b (base + off + hdr_size) (body_size hdr) tail in
      (
        record {
          accepted =
              decode_header-append (bytes_from b (base + off) hdr_size) _ hdr
                (length-bytes_from b (base + off) hdr_size) (ap decode_header all ∙ rec.accepted);
          intact =
              verify_body-append hdr (bytes_from b (base + off + hdr_size) (body_size hdr)) _
                (length-bytes_from b (base + off + hdr_size) (body_size hdr)) (omega arith)
                (ap (verify_body hdr) (sym behind) ∙ rec.intact);
          within = omega (arith, len);
          whole = omega arith;
          no_wrap = omega arith;
        },
        omega (arith, len),
      )
