-- ===== src/Flashq/Log/Write.antt =====
-- append_locked over a NOR flash that holds a log.
use mathlib.Core.Option.{some-injective}
use edgesync_espidf.Prelude.{
  ℕ, ◌+◌, ◌^◌, ◌≤◌, ◌<◌, ◌≡◌, refl, sym, ◌∙◌, ◌⊎◌, List, length, u32, arith,
}
use edgesync_espidf.Types.{EspErr}
use edgesync_espidf.Action.Outcome.{Ends, Ends-bind, Ends-if, Ends-option, Ends-map, Ends-both}
use edgesync_espidf.Format.{Header, record_total_size}
use edgesync_espidf.Format.Size.{max_body_len}
use edgesync_espidf.Format.Records.{IsRecord}
use edgesync_espidf.Flashq.Partition.{Partition}
use edgesync_espidf.Flashq.Context.{Ctx}
use edgesync_espidf.Flashq.Helpers.{
  region_offset, same_bytes, append_locked, partition_write_verify, verify_written,
}
use edgesync_espidf.Flashq.Written.{IsAppended, append_locked-Ends}
use edgesync_espidf.Flashq.Scan.{ScanState, apply_record}
use edgesync_espidf.Flashq.Scan.Stops.{off-apply_record}
use edgesync_espidf.Flashq.Nor.{bytes_from, IsNor}
use edgesync_espidf.Flashq.Log.{Holds}
use edgesync_espidf.Flashq.Log.Append.{Holds-append, IsStoredAt-record}

module _ (P : Partition) where
  open P use {Flash, read, write}

  abbrev pub Writes : ℕ → List ℕ → Ctx Flash → Ctx Flash → Type 0
  Writes abs_offset bytes c d = d.flash ≡ (write c.flash abs_offset bytes).1

  pub partition_write_verify-Writes :
      (abs_offset : ℕ) (bytes : List ℕ) (c : Ctx Flash)
      → Ends
          (λ a d. Writes abs_offset bytes c d)
          (λ e d. Writes abs_offset bytes c d)
          (partition_write_verify P abs_offset bytes c)
  unfolding partition_write_verify verify_written
  partition_write_verify-Writes abs_offset bytes c =
      let (written, f) = write c.flash abs_offset bytes in
      Ends-if written _ _ (λ a d. Writes abs_offset bytes c d) (λ e d. Writes abs_offset bytes c d)
        (λ h.
          Ends-option (read f abs_offset (length bytes)) _ _ (λ a d. Writes abs_offset bytes c d)
            (λ e d. Writes abs_offset bytes c d) (λ failed. refl)
            (λ back e.
              Ends-if (same_bytes back bytes) _ _ (λ a d. Writes abs_offset bytes c d)
                (λ e d. Writes abs_offset bytes c d) (λ same. refl) (λ other. refl)))
        (λ h. refl)

  -- Whatever it returns, append_locked called one write.
  pub append_locked-Writes :
      (buf : List ℕ) (c : Ctx Flash)
      → Ends
          (λ a d. Writes (region_offset P c c.active_region + c.cursor) buf c d)
          (λ e d. Writes (region_offset P c c.active_region + c.cursor) buf c d)
          (append_locked P buf c)
  unfolding append_locked
  append_locked-Writes buf c =
      let abs_offset : ℕ = region_offset P c c.active_region + c.cursor in
      Ends-bind (partition_write_verify P abs_offset buf) _ c (λ a d. Writes abs_offset buf c d)
        (λ a d. Writes abs_offset buf c d) (λ e d. Writes abs_offset buf c d)
        (partition_write_verify-Writes abs_offset buf c) (λ a d w. w)

module _ (P : Partition) (size : ℕ) (byte : P.Flash → ℕ → ℕ) (nor : IsNor P size byte) where
  open P use {Flash}

  abbrev pub HoldsIn : Ctx Flash → Flash → ScanState → Type 0
  HoldsIn c f s =
      Holds (byte f) (region_offset P c c.active_region) c.region_size c.index_capacity c.data_start
        s

  -- The state behind a successful append_locked, and the log in its flash.
  pub record IsLonger (c d : Ctx Flash) (buf : List ℕ) (s : ScanState) : Type 0 where
    pub only : d ≡ record c {
      flash = d.flash;
      cursor = c.cursor + length buf;
      next_seq = u32 (c.next_seq + 1);
    }
    pub held : HoldsIn c d.flash s
    pub same :
        (i : ℕ)
        → (i < region_offset P c c.active_region + c.cursor)
          ⊎ (region_offset P c c.active_region + c.region_size ≤ i)
        → byte d.flash i ≡ byte c.flash i
    pub moved : s.off ≡ c.cursor + length buf

  module _ (c : Ctx Flash) (s : ScanState) (held : HoldsIn c c.flash s) (off_is : s.off ≡ c.cursor)
      (buf : List ℕ) (hdr : Header) (destination payload : List ℕ)
      (rec : IsRecord buf hdr destination payload) (hd : hdr.destination_len < 2 ^ 16)
      (hb : hdr.body_len ≤ max_body_len)
      (len : length buf ≡ record_total_size hdr.destination_len hdr.body_len)
      (room : c.cursor + length buf ≤ c.region_size)
      (inside : region_offset P c c.active_region + c.region_size ≤ size) where
    IsLonger-appended :
        (d : Ctx Flash)
        → IsAppended P c d buf
        → Writes P (region_offset P c c.active_region + c.cursor) buf c d
        → IsLonger c d buf (apply_record c.index_capacity hdr s)
    IsLonger-appended d a w =
        let base : ℕ = region_offset P c c.active_region in
        let there : bytes_from (byte d.flash) (base + s.off) (length buf) ≡ buf = rw off_is (
          some-injective _ _
            (sym (nor.reads d.flash (base + c.cursor) (length buf) (omega arith)) ∙ a.stored)) in
        let (stored, long) =
          IsStoredAt-record base c.region_size c.index_capacity (byte d.flash) s.off hdr buf
            destination payload rec hd hb len there (omega arith) in
        record {
          only = a.only;
          held =
              Holds-append base c.region_size c.index_capacity (byte c.flash) (byte d.flash)
                c.data_start s hdr held
                (λ i h. rw w (
                  nor.writes_inside c.flash (base + c.cursor) buf i (ground (arith, off_is, long))))
                stored;
          same =
              λ i h. rw w (nor.writes_inside c.flash (base + c.cursor) buf i (ground (arith, h)));
          moved = omega (arith, off-apply_record c.index_capacity hdr s, off_is, long);
        }

    pub append_locked-IsLonger :
        Ends
          (λ a d. IsLonger c d buf (apply_record c.index_capacity hdr s))
          (λ e d. Unit {0})
          (append_locked P buf c)
    append_locked-IsLonger =
        let E : EspErr → Ctx Flash → Type 0 = λ e d. Unit {0} in
        let W : Ctx Flash → Type 0 =
          Writes P (region_offset P c c.active_region + c.cursor) buf c in
        Ends-map (append_locked P buf c) (λ a d. IsAppended P c d buf × W d) _ (λ e d. W d) E
          (Ends-both (append_locked P buf c) (λ a d. IsAppended P c d buf) (λ a d. W d) _
            (λ e d. W d) (append_locked-Ends P buf c) (append_locked-Writes P buf c))
          (λ a d h. IsLonger-appended d h.0 h.1) (λ e d h. tt)
