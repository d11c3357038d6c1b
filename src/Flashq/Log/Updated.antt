-- ===== src/Flashq/Log/Updated.antt =====
-- A log that an UPDATE record makes longer, and the index that goes with it.
use mathlib.Core.Path.{subst}
use edgesync_espidf.Prelude.{
  ℕ, ◌+◌, ◌^◌, ◌≤◌, ◌<◌, ◌≡◌, sym, ◌∙◌, ap, ◌⊎◌, true, false, some, List, All, u8, u32, arith,
}
use edgesync_espidf.Format.{Header, RecordFields, rec_update, record_total_size}
use edgesync_espidf.Format.Records.{IsFitFields}
use edgesync_espidf.Format.Encode.{Describes}
use edgesync_espidf.Flashq.Partition.{Partition}
use edgesync_espidf.Flashq.Context.{Entry, Ctx}
use edgesync_espidf.Flashq.Helpers.{
  region_offset, find_entry, zero_entry, entry_at, update_at, remove_entry_at,
}
use edgesync_espidf.Flashq.Compaction.{fields_of}
use edgesync_espidf.Flashq.Scan.{ScanState, apply_record, updated}
use edgesync_espidf.Flashq.Nor.{IsNor}
use edgesync_espidf.Flashq.Log.{IsPlaced, IsMarked, IsLogged}
use edgesync_espidf.Flashq.Log.Headers.{IsMarked-same}
use edgesync_espidf.Flashq.Log.Write.{HoldsIn}
use edgesync_espidf.Flashq.Log.Replay.{is_last, apply_record-update, apply_record-last}
use edgesync_espidf.Flashq.Log.Update.{IsUpdated}
use edgesync_espidf.Flashq.Log.Entries.{All-remove_entry_at}
use edgesync_espidf.Flashq.Ids.{ids}
use edgesync_espidf.Flashq.Log.Distinct.{IsDistinct, IsDistinct-ids, IsDistinct-remove_entry_at}

-- The fields of every entry fit a record.
abbrev pub AllFit : List Entry → Type 0
AllFit xs = All (λ (e : Entry). IsFitFields (fields_of e)) xs

pub zero_entry-IsFitFields : IsFitFields (fields_of zero_entry)
zero_entry-IsFitFields = omega arith

module _ (P : Partition) (size : ℕ) (byte : P.Flash → ℕ → ℕ) (nor : IsNor P size byte) where
  open P use {Flash}

  -- The state behind a write, from what its flash holds.
  pub IsLogged-moved :
      (c : Ctx Flash) (f : Flash) (s : ScanState) (cursor next_seq gc updates : ℕ)
      (index : List Entry)
      → IsPlaced size c
      → IsMarked P c
      → HoldsIn P size byte nor c f s
      → ((i : ℕ)
          → (i < region_offset P c c.active_region + c.cursor)
            ⊎ (region_offset P c c.active_region + c.region_size ≤ i)
          → byte f i ≡ byte c.flash i)
      → s.off ≡ cursor
      → c.cursor ≤ cursor
      → cursor ≤ c.region_size
      → s.max_seq_seen + 1 ≡ next_seq
      → next_seq < 2 ^ 32
      → s.index ≡ index
      → s.awaiting_gc_count ≡ gc
      → AllFit index
      → IsDistinct index
      → IsLogged P size byte (record c {
        flash = f;
        cursor = cursor;
        next_seq = next_seq;
        index = index;
        awaiting_gc_count = gc;
        updates_since_compaction = updates;
      })
  IsLogged-moved c f s cursor next_seq gc updates index p marked held same off ahead inside seq fits
        i g v h =
      record {
        scanned = s;
        held = held;
        off_is = off;
        seq_is = seq;
        seq_fits = fits;
        index_is = i;
        gc_is = g;
        entries_fit = v;
        marked = IsMarked-same P size byte nor c f p same marked cursor next_seq gc updates index;
        distinct = h;
        placed = record {
          size_fits = p.size_fits;
          two_regions = p.two_regions;
          regions_inside = p.regions_inside;
          region_inside = p.region_inside;
          data_behind_header = p.data_behind_header;
          header_fits = p.header_fits;
          cursor_behind_header = omega (arith, p.cursor_behind_header);
          cursor_inside = inside;
          update_fits = p.update_fits;
        };
      }

  -- `c` is the logged state, `ix` its index with the assignments that the caller made before the write.
  module _ (c : Ctx Flash) (v : IsLogged P size byte c) (ix : List Entry) (pos : ℕ)
      (fields : Entry → RecordFields) (f : Entry → Entry) (d : Ctx Flash)
      (u : IsUpdated P size byte nor (record c { index = ix }) d v.scanned pos fields f)
      (known : find_entry c.index (fields (entry_at ix pos)).id ≡ some pos)
      (same : (hdr : Header)
        → Describes hdr rec_update (fields (entry_at ix pos)) c.next_seq 0 0
        → update_at c.index pos (updated hdr) ≡ update_at ix pos f)
      (seq_fits : c.next_seq + 1 < 2 ^ 32) (fits : AllFit (update_at ix pos f))
      (same_ids : ids (update_at ix pos f) ≡ ids c.index) where
    distinct : IsDistinct (update_at ix pos f)
    distinct = IsDistinct-ids c.index (update_at ix pos f) same_ids v.distinct

    found : find_entry v.scanned.index u.hdr.message_id ≡ some pos
    found = rw (v.index_is, u.described.id_is) known

    newer : v.scanned.max_seq_seen < u.hdr.seq
    newer = omega (arith, u.described.seq_is, v.seq_is)

    -- The message goes on.
    pub IsLogged-update :
        is_last (u8 (fields (entry_at ix pos)).state) ≡ false → IsLogged P size byte d
    IsLogged-update goes_on =
        let next : ScanState = apply_record c.index_capacity u.hdr v.scanned in
        let e =
          apply_record-update c.index_capacity u.hdr v.scanned newer pos u.described.type_is found
            (rw u.described.state_is goes_on) in
        subst (IsLogged P size byte) (sym u.only) (
          IsLogged-moved c u.flash next (c.cursor + record_total_size 0 0) (u32 (c.next_seq + 1))
            c.awaiting_gc_count (u32 (c.updates_since_compaction + 1)) (update_at ix pos f) v.placed
            v.marked u.held u.same u.moved (omega arith) u.room
            (omega (arith, ap (λ (s : ScanState). s.max_seq_seen) e, u.described.seq_is, seq_fits))
            (omega arith)
            (ap (λ (s : ScanState). s.index) e
              ∙ ap (λ (xs : List Entry). update_at xs pos (updated u.hdr)) v.index_is
              ∙ same u.hdr u.described)
            (ap (λ (s : ScanState). s.awaiting_gc_count) e ∙ v.gc_is) fits distinct)

    -- The message is finished, and its entry is removed.
    pub IsLogged-last :
        is_last (u8 (fields (entry_at ix pos)).state) ≡ true
        → IsLogged P size byte (record d {
          index = remove_entry_at d.index pos;
          awaiting_gc_count = u32 (d.awaiting_gc_count + 1);
        })
    IsLogged-last last =
        let next : ScanState = apply_record c.index_capacity u.hdr v.scanned in
        let e =
          apply_record-last c.index_capacity u.hdr v.scanned newer pos u.described.type_is found
            (rw u.described.state_is last) in
        subst
          (λ (x : Ctx Flash). IsLogged P size byte (record x {
            index = remove_entry_at x.index pos;
            awaiting_gc_count = u32 (x.awaiting_gc_count + 1);
          }))
          (sym u.only)
          (IsLogged-moved c u.flash next (c.cursor + record_total_size 0 0) (u32 (c.next_seq + 1))
            (u32 (c.awaiting_gc_count + 1)) (u32 (c.updates_since_compaction + 1))
            (remove_entry_at (update_at ix pos f) pos) v.placed v.marked u.held u.same u.moved
            (omega arith) u.room
            (omega (arith, ap (λ (s : ScanState). s.max_seq_seen) e, u.described.seq_is, seq_fits))
            (omega arith)
            (ap (λ (s : ScanState). s.index) e
              ∙ ap (λ (xs : List Entry). remove_entry_at (update_at xs pos (updated u.hdr)) pos)
                  v.index_is
              ∙ ap (λ (xs : List Entry). remove_entry_at xs pos) (same u.hdr u.described))
            (ap (λ (s : ScanState). s.awaiting_gc_count) e ∙ ap (λ (n : ℕ). u32 (n + 1)) v.gc_is)
            (All-remove_entry_at _ (update_at ix pos f) pos zero_entry-IsFitFields fits)
            (IsDistinct-remove_entry_at (update_at ix pos f) pos distinct))
