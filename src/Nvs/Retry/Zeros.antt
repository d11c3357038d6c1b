-- ===== src/Nvs/Retry/Zeros.antt =====
-- The scratch buffer when encode_common copies a payload that lies in it.
use mathlib.Core.List.{append_assoc}
use edgesync_espidf.Prelude.{
  ℕ, zero, suc, ◌+◌, ◌-◌, ◌≤◌, ◌≡◌, refl, sym, ◌∙◌, ap, List, ◌∷◌, ◌++◌, length, take, drop,
  replicate, take-length, drop-append_of, length-append, arith, u16,
}
use edgesync_espidf.Format.{
  hdr_size, max_destination_len, record_total_size, header_bytes, sealed_header, message_header,
}
use edgesync_espidf.Format.RoundTrip.{length-header_bytes}
use edgesync_espidf.Format.Size.{max_body_len, record_total_size_bounds}
use edgesync_espidf.Flashq.Compaction.{fields_of}
use edgesync_espidf.Nvs.{NvsEntry}
use edgesync_espidf.Nvs.Entries.{scratch_at_copy}

take-replicate :
    (n m : ℕ) (b : ℕ) (rest : List ℕ) → n ≤ m → take n (replicate m b ++ rest) ≡ replicate n b
take-replicate zero m b rest h = refl
take-replicate (suc n) zero b rest h = absurd (omega arith)
take-replicate (suc n) (suc m) b rest h =
    ap (λ xs. b ∷ xs) (take-replicate n m b rest (omega arith))

replicate-fits : (n m : ℕ) (b : ℕ) (rest : List ℕ) → n ≤ m → n ≤ length (replicate m b ++ rest)
replicate-fits n zero b rest h = omega arith
replicate-fits zero (suc m) b rest h = omega arith
replicate-fits (suc n) (suc m) b rest h =
    let ih = replicate-fits n m b rest (omega arith) in omega (arith, ih)

drop-front :
    (n : ℕ) (xs ys zs rest : List ℕ)
    → length xs + length ys ≡ n
    → drop n ((xs ++ (ys ++ zs)) ++ rest) ≡ zs ++ rest
drop-front n xs ys zs rest h =
    ap (λ bs. drop n bs)
      (append_assoc xs (ys ++ zs) rest
        ∙ ap (λ bs. xs ++ bs) (append_assoc ys zs rest)
        ∙ sym (append_assoc xs ys (zs ++ rest)))
    ∙ drop-append_of n (xs ++ ys) (zs ++ rest) (length-append xs ys ∙ h)

-- The scratch buffer behind the destination, when the payload is copied: the record's length was
-- zeroed before.
pub scratch_at_copy-zeros :
    (e : NvsEntry) (destination scratch : List ℕ)
    → length destination ≤ max_destination_len
    → e.payload_len ≤ max_body_len
    → (take e.payload_len
          (drop (hdr_size + length destination) (scratch_at_copy e destination scratch))
        ≡ replicate e.payload_len 0)
      × (e.payload_len
          ≤ length (drop (hdr_size + length destination) (scratch_at_copy e destination scratch)))
unfolding scratch_at_copy
scratch_at_copy-zeros e destination scratch d b =
    let dl : u16 (length destination) ≡ length destination = omega arith in
    let room = record_total_size_bounds (length destination) e.payload_len (omega arith) b in
    let n : ℕ =
      record_total_size (length destination) e.payload_len - (hdr_size + length destination) in
    rw (dl, take-length destination)
      (rw
        (drop-front (hdr_size + length destination)
          (header_bytes
            (sealed_header (message_header (fields_of e) 0) (length destination) e.payload_len))
          destination (replicate n 0) _
          (omega (
            arith,
            length-header_bytes
                (sealed_header (message_header (fields_of e) 0) (length destination) e.payload_len),
          )))
        (
          take-replicate e.payload_len n 0 _ (omega (arith, room)),
          replicate-fits e.payload_len n 0 _ (omega (arith, room)),
        ))
