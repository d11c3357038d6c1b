-- ===== src/Flashq/Frame/Flash.antt =====
-- What the helpers that access the flash leave as it was.
use edgesync_espidf.Prelude.{ℕ, refl, List, length, if◌then◌else◌}
use edgesync_espidf.Flashq.Partition.{Partition}
use edgesync_espidf.Flashq.Context.{Ctx, ok}
use edgesync_espidf.Flashq.Helpers.{
  same_bytes, region_hdr_size, region_offset, verify_written, partition_write_verify, erase_region,
  ensure_region_erased, region_header_read,
}
use edgesync_espidf.Flashq.Frame.{Frame, Frame-refl, framed, Framed, Frames}
use edgesync_espidf.Action.Keeps.{KeptIn-from, KeptIn-if, KeptIn-option, KeptIn-handle}

module _ (P : Partition) where
  open P use {Flash, read, write, erase}

  -- The frame holds of a state that differs in the flash contents alone.
  pub Frame-flash : (c : Ctx Flash) (f : Flash) → Frame c (record c { flash = f })
  Frame-flash c f = record {
    same_index = refl;
    same_capacity = refl;
    same_region_size = refl;
    same_data_start = refl;
    same_data_capacity = refl;
    same_scratch_size = refl;
    seq_fits = λ h. h;
  }

  verify_written-Framed :
      (abs_offset : ℕ) (bytes : List ℕ) (c : Ctx Flash)
      → Framed c (verify_written P abs_offset bytes c)
  unfolding verify_written
  verify_written-Framed abs_offset bytes c =
      KeptIn-option Frame c (read c.flash abs_offset (length bytes)) _ _ (Frame-refl c, tt)
        λ back. KeptIn-if Frame c (same_bytes back bytes) _ _ (Frame-refl c) (Frame-refl c, tt)

  pub partition_write_verify-Frames :
      (abs_offset : ℕ) (bytes : List ℕ) → Frames (partition_write_verify P abs_offset bytes)
  unfolding partition_write_verify
  partition_write_verify-Frames abs_offset bytes = record {
    at = λ c.
        let (written, f) = write c.flash abs_offset bytes in
        KeptIn-if Frame c written _ _
          (KeptIn-from framed (verify_written P abs_offset bytes) c (record c { flash = f })
            (Frame-flash c f) (record { at = verify_written-Framed abs_offset bytes }))
          (Frame-flash c f, tt);
  }

  pub erase_region-Frames : (region : ℕ) → Frames (erase_region P region)
  unfolding erase_region
  erase_region-Frames region = record {
    at = λ c.
        let (erased, f) = erase c.flash (region_offset P c region) c.region_size in
        KeptIn-if Frame c erased _ _ (Frame-flash c f) (Frame-flash c f, tt);
  }

  region_header_read-Frames : (region : ℕ) → Frames (region_header_read P region)
  unfolding region_header_read
  region_header_read-Frames region = record {
    at = λ c.
        KeptIn-option Frame c (read c.flash (region_offset P c region) region_hdr_size) _ _
          (Frame-refl c, tt) (λ raw. Frame-refl c);
  }

  pub ensure_region_erased-Frames : (region : ℕ) → Frames (ensure_region_erased P region)
  unfolding ensure_region_erased
  ensure_region_erased-Frames region = record {
    at = λ c.
        let go : (c' : Ctx Flash) → Frame c c' → Framed c (erase_region P region c') =
          λ c' p. KeptIn-from framed (erase_region P region) c c' p (erase_region-Frames region) in
        KeptIn-handle Frame c (region_header_read P region c)
          (λ h c'. if h.1 then ok tt c' else erase_region P region c')
          (λ e c'. erase_region P region c') ((region_header_read-Frames region).at c)
          (λ h c' p. KeptIn-if Frame c h.1 _ _ p (go c' p)) (λ e c' p. go c' p.0);
  }
