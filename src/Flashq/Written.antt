-- ===== src/Flashq/Written.antt =====
-- What a write of append_locked leaves in the flash.
use edgesync_espidf.Prelude.{
  ℕ, ◌+◌, ◌≡◌, refl, ◌∙◌, ap, true, some, List, [], ◌∷◌, length, arith, u32, ==→eq,
}
use mathlib.Core.Path.{ap₂}
use edgesync_espidf.Types.{EspErr}
use edgesync_espidf.Flashq.Partition.{Partition}
use edgesync_espidf.Flashq.Context.{Ctx}
use edgesync_espidf.Action.Outcome.{Ends, Ends-bind, Ends-map, Ends-if, Ends-option}
use edgesync_espidf.Flashq.Helpers.{
  same_bytes, region_offset, verify_written, partition_write_verify, append_locked,
}

-- `memcmp` found no difference.
same_bytes-eq : (xs ys : List ℕ) → same_bytes xs ys ≡ true → xs ≡ ys
unfolding same_bytes
same_bytes-eq [] [] e = refl
same_bytes-eq [] (y ∷ ys) e = absurd (cc)
same_bytes-eq (x ∷ xs) [] e = absurd (cc)
same_bytes-eq (x ∷ xs) (y ∷ ys) e =
    ap₂ ◌∷◌ (==→eq x y (ground arith)) (same_bytes-eq xs ys (ground arith))

module _ (P : Partition) where
  open P use {Flash, read, write}

  -- Only the flash contents differ.
  abbrev pub SameButFlash : Ctx Flash → Ctx Flash → Type 0
  SameButFlash c c' = c' ≡ record c { flash = c'.flash }

  -- The bytes lie in the flash where they were written.
  abbrev pub Stored : Ctx Flash → ℕ → List ℕ → Type 0
  Stored c abs_offset bytes = read c.flash abs_offset (length bytes) ≡ some bytes

  abbrev Fails : Ctx Flash → EspErr → Ctx Flash → Type 0
  Fails c e c' = SameButFlash c c' × (e ≡ EspErr.storage_err)

  abbrev Writes : ℕ → List ℕ → Ctx Flash → Unit {0} → Ctx Flash → Type 0
  Writes abs_offset bytes c a c' = SameButFlash c c' × Stored c' abs_offset bytes

  verify_written-Ends :
      (abs_offset : ℕ) (bytes : List ℕ) (c : Ctx Flash)
      → Ends (Writes abs_offset bytes c) (Fails c) (verify_written P abs_offset bytes c)
  unfolding verify_written
  verify_written-Ends abs_offset bytes c =
      Ends-option (read c.flash abs_offset (length bytes)) _ _ (Writes abs_offset bytes c) (Fails c)
        (λ failed. (refl, refl))
        λ back e.
          Ends-if (same_bytes back bytes) _ _ (Writes abs_offset bytes c) (Fails c)
            (λ same. (refl, e ∙ ap some (same_bytes-eq back bytes same))) (λ other. (refl, refl))

  -- A write that succeeds left its bytes in the flash, whatever the partition did.
  pub partition_write_verify-Ends :
      (abs_offset : ℕ) (bytes : List ℕ) (c : Ctx Flash)
      → Ends (Writes abs_offset bytes c) (Fails c) (partition_write_verify P abs_offset bytes c)
  unfolding partition_write_verify
  partition_write_verify-Ends abs_offset bytes c =
      let (written, f) = write c.flash abs_offset bytes in
      let c₁ : Ctx Flash = record c { flash = f } in
      Ends-if written _ _ (Writes abs_offset bytes c) (Fails c)
        (λ h.
          Ends-map (verify_written P abs_offset bytes c₁) (Writes abs_offset bytes c₁)
            (Writes abs_offset bytes c) (Fails c₁) (Fails c)
            (verify_written-Ends abs_offset bytes c₁) (λ a c' p. p) (λ e c' p. p))
        (λ h. (refl, refl))

  -- The state behind a successful append.
  pub record IsAppended (c c' : Ctx Flash) (buf : List ℕ) : Type 0 where
    pub only : c' ≡ record c {
      flash = c'.flash;
      cursor = c.cursor + length buf;
      next_seq = u32 (c.next_seq + 1);
    }
    pub stored : Stored c' (region_offset P c c.active_region + c.cursor) buf

  -- append_locked, over any partition, succeeds only if the partition then reads back exactly the record's
  -- bytes at the old cursor of the active region, and it changes the flash, the cursor (by the
  -- record's length) and the sequence number (by one) only; if it fails, it is with
  -- EDGESYNC_ERR_STORAGE, and only the flash has changed.
  pub append_locked-Ends :
      (buf : List ℕ) (c : Ctx Flash)
      → Ends (λ a c'. IsAppended c c' buf) (Fails c) (append_locked P buf c)
  unfolding append_locked
  append_locked-Ends buf c =
      let abs_offset : ℕ = region_offset P c c.active_region + c.cursor in
      Ends-bind (partition_write_verify P abs_offset buf) _ c (Writes abs_offset buf c)
        (λ a c'. IsAppended c c' buf) (Fails c) (partition_write_verify-Ends abs_offset buf c)
        λ a c' w. record {
          only =
              ap
                (λ (d : Ctx Flash). record d {
                  cursor = d.cursor + length buf;
                  next_seq = u32 (d.next_seq + 1);
                })
                w.0;
          stored = w.1;
        }
