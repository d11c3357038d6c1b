-- ===== src/Flashq/Log/Update.antt =====
-- The calls that write an UPDATE record, over a NOR flash that holds a log.
use edgesync_espidf.Prelude.{
  ℕ, ◌+◌, ◌^◌, ◌≤◌, ◌<◌, ◌≡◌, refl, sym, ◌∙◌, ap, ◌⊎◌, Bool, false, ◌||◌, [], ltb, ltb→le,
  if◌then◌else◌, u32, arith,
}
use mathlib.Core.Path.{subst}
use edgesync_espidf.Types.{EspErr}
use edgesync_espidf.Action.Outcome.{Ends, Ends-bind, Ends-if_action, Ends-known}
use edgesync_espidf.Format.{Header, RecordFields, record_total_size, encode_update, rec_update}
use edgesync_espidf.Format.Records.{IsFitFields}
use edgesync_espidf.Format.Encode.{Describes, encode_update_lem}
use edgesync_espidf.Flashq.Partition.{Partition}
use edgesync_espidf.Flashq.Context.{Entry, Ctx, M, ok, pure, raise, ◌>>=◌, ◌>>◌, gets, modify}
use edgesync_espidf.Flashq.Helpers.{region_offset, entry_at, update_at, append_locked}
use edgesync_espidf.Flashq.Compaction.{scratch_of, compact_locked}
use edgesync_espidf.Flashq.Append.{
  free_bytes, low_space, too_churned, compact_if_due, ensure_space_locked,
}
use edgesync_espidf.Flashq.Scan.{ScanState, apply_record}
use edgesync_espidf.Flashq.Nor.{IsNor}
use edgesync_espidf.Flashq.Log.{IsPlaced}
use edgesync_espidf.Flashq.Log.Write.{HoldsIn, IsLonger, append_locked-IsLonger}

-- No compaction is due for a record of this length.
abbrev pub IsRoomy : {F : Type 0} → ℕ → Ctx F → Type 0
IsRoomy needed_len c = (low_space c needed_len || too_churned c) ≡ false

-- The failure of a call, of which nothing is said.
abbrev pub Fails : {F : Type 0} → EspErr → Ctx F → Type 0
Fails e d = Unit {0}

module _ (P : Partition) where
  open P use {Flash}

  compact_if_due-roomy :
      (needed_len : ℕ) (c : Ctx Flash)
      → IsRoomy needed_len c
      → compact_if_due P needed_len c ≡ ok tt c
  unfolding compact_if_due
  compact_if_due-roomy needed_len c roomy =
      ap (λ (due : Bool). if due then compact_locked P c else ok tt c) roomy

  pub ensure_space_locked-roomy :
      (needed_len : ℕ) (c : Ctx Flash)
      → IsRoomy needed_len c
      → Ends
          (λ a d. (d ≡ c) × (needed_len ≤ free_bytes c))
          Fails
          (ensure_space_locked P needed_len c)
  unfolding ensure_space_locked
  ensure_space_locked-roomy needed_len c roomy =
      let Q : Unit {0} → Ctx Flash → Type 0 = λ a d. (d ≡ c) × (needed_len ≤ free_bytes c) in
      Ends-known (compact_if_due P needed_len)
        (λ u. gets free_bytes >>= λ room.
          if ltb room needed_len then raise EspErr.storage_err else pure tt)
        c c tt Q Fails (compact_if_due-roomy needed_len c roomy)
        (Ends-if_action (ltb (free_bytes c) needed_len) (raise EspErr.storage_err) (pure tt) c Q
          Fails (λ small. tt) (λ room. (refl, ltb→le (free_bytes c) needed_len room)))

  -- What append_state_update_locked and the claim of a message have in common.
  abbrev pub update_written : ℕ → (Entry → RecordFields) → (Entry → Entry) → M Flash (Unit {0})
  update_written pos fields f = do
    ensure_space_locked P (record_total_size 0 0)
    buf ←
        gets (λ c.
          scratch_of (encode_update c.scratch_size (fields (entry_at c.index pos)) c.next_seq))
    append_locked P buf
    modify (λ c. record c {
      index = update_at c.index pos f;
      updates_since_compaction = u32 (c.updates_since_compaction + 1);
    })

pub room_of :
    {F : Type 0} {size : ℕ} {c : Ctx F} (n : ℕ)
    → IsPlaced size c
    → n ≤ free_bytes c
    → c.cursor + n ≤ c.region_size
room_of {c = c} n p h = omega arith

module _ (P : Partition) (size : ℕ) (byte : P.Flash → ℕ → ℕ) (nor : IsNor P size byte) where
  open P use {Flash}

  -- The state behind a written UPDATE record, and the log in its flash.
  pub record IsUpdated (c d : Ctx Flash) (s : ScanState) (pos : ℕ) (fields : Entry → RecordFields)
      (f : Entry → Entry) : Type 0 where
    pub hdr : Header
    pub flash : Flash
    pub described : Describes hdr rec_update (fields (entry_at c.index pos)) c.next_seq 0 0
    pub held : HoldsIn P size byte nor c flash (apply_record c.index_capacity hdr s)
    pub same :
        (i : ℕ)
        → (i < region_offset P c c.active_region + c.cursor)
          ⊎ (region_offset P c c.active_region + c.region_size ≤ i)
        → byte flash i ≡ byte c.flash i
    pub moved : (apply_record c.index_capacity hdr s).off ≡ c.cursor + record_total_size 0 0
    pub room : c.cursor + record_total_size 0 0 ≤ c.region_size
    pub only : d ≡ record c {
      flash = flash;
      cursor = c.cursor + record_total_size 0 0;
      next_seq = u32 (c.next_seq + 1);
      index = update_at c.index pos f;
      updates_since_compaction = u32 (c.updates_since_compaction + 1);
    }

  module _ (c : Ctx Flash) (s : ScanState) (held : HoldsIn P size byte nor c c.flash s)
      (off_is : s.off ≡ c.cursor) (placed : IsPlaced size c) (pos : ℕ)
      (fields : Entry → RecordFields) (fit : IsFitFields (fields (entry_at c.index pos)))
      (seq_fits : c.next_seq < 2 ^ 32) (f : Entry → Entry) where
    -- The write, and the entry behind it.
    append_update-IsUpdated :
        record_total_size 0 0 ≤ free_bytes c
        → Ends
            (λ a d. IsUpdated c d s pos fields f)
            Fails
            ((append_locked P (
                  scratch_of
                    (encode_update c.scratch_size (fields (entry_at c.index pos)) c.next_seq))
                >> modify (λ c. record c {
                  index = update_at c.index pos f;
                  updates_since_compaction = u32 (c.updates_since_compaction + 1);
                }))
              c)
    append_update-IsUpdated free =
        let (buf, hdr, e, len, rec, des) =
          encode_update_lem c.scratch_size (fields (entry_at c.index pos)) c.next_seq fit seq_fits
            placed.update_fits in
        let room : c.cursor + record_total_size 0 0 ≤ c.region_size = room_of _ placed free in
        rw e (
          Ends-bind (append_locked P buf) _ c
            (λ a d. IsLonger P size byte nor c d buf (apply_record c.index_capacity hdr s)) _ Fails
            (append_locked-IsLonger P size byte nor c s held off_is buf hdr [] [] rec
              (omega (arith, des.destination_len_is)) (omega (arith, des.body_len_is))
              (rw (des.destination_len_is, des.body_len_is) len) (rw len room) placed.region_inside)
            (λ a d l. record {
              hdr = hdr;
              flash = d.flash;
              described = des;
              held = l.held;
              same = l.same;
              moved = rw (sym len) l.moved;
              room = room;
              only =
                  ap
                    (λ (x : Ctx Flash). record x {
                      index = update_at x.index pos f;
                      updates_since_compaction = u32 (x.updates_since_compaction + 1);
                    })
                    l.only
                  ∙ ap
                      (λ (n : ℕ). record c {
                        flash = d.flash;
                        cursor = c.cursor + n;
                        next_seq = u32 (c.next_seq + 1);
                        index = update_at c.index pos f;
                        updates_since_compaction = u32 (c.updates_since_compaction + 1);
                      })
                      len;
            }))

    pub update_written-IsUpdated :
        IsRoomy (record_total_size 0 0) c
        → Ends (λ a d. IsUpdated c d s pos fields f) Fails (update_written P pos fields f c)
    update_written-IsUpdated roomy =
        Ends-bind (ensure_space_locked P (record_total_size 0 0)) _ c
          (λ a d. (d ≡ c) × (record_total_size 0 0 ≤ free_bytes c))
          (λ a d. IsUpdated c d s pos fields f) Fails
          (ensure_space_locked-roomy P (record_total_size 0 0) c roomy)
          (λ a d (same, free).
            subst
              (λ (x : Ctx Flash).
                Ends (λ a d. IsUpdated c d s pos fields f) Fails
                  ((append_locked P (
                        scratch_of
                          (encode_update x.scratch_size (fields (entry_at x.index pos)) x.next_seq))
                      >> modify (λ c. record c {
                        index = update_at c.index pos f;
                        updates_since_compaction = u32 (c.updates_since_compaction + 1);
                      }))
                    x))
              (sym same) (append_update-IsUpdated free))
