-- ===== src/Flashq/Log/Calls.antt =====
-- The calls on a stored message, over a NOR flash that holds a log.
use mathlib.Core.Path.{subst}
use edgesync_espidf.Prelude.{
  ℕ, ◌+◌, ◌^◌, ◌<◌, ◌≡◌, refl, sym, ◌∙◌, ap, Bool, true, false, some, List, length, if◌then◌else◌,
  u8, arith,
}
use edgesync_espidf.Types.{
  EspErr, err_code, state_pending, state_delivered, state_dead_letter, state_removed,
}
use edgesync_espidf.Action.Outcome.{Ends, Ends-bind, Ends-map, Ends-option}
use edgesync_espidf.Format.{Header, RecordFields, rec_update, record_total_size}
use edgesync_espidf.Format.Records.{IsFitFields}
use edgesync_espidf.Format.Encode.{Describes}
use edgesync_espidf.Flashq.Partition.{Partition}
use edgesync_espidf.Flashq.Context.{Entry, Ctx}
use edgesync_espidf.Flashq.Helpers.{find_entry, entry_at, update_at}
use edgesync_espidf.Flashq.Compaction.{fields_of}
use edgesync_espidf.Flashq.Append.{append_state_update_locked}
use edgesync_espidf.Flashq.Ids.{find_entry-ids, ids-update_at}
use edgesync_espidf.Flashq.Positions.{entry_at-update_at}
use edgesync_espidf.Flashq.Scan.{updated}
use edgesync_espidf.Flashq.Ops.{
  finish_entry, mark_delivered, remove_message, retry_entry, schedule_retry,
}
use edgesync_espidf.Flashq.Nor.{IsNor}
use edgesync_espidf.Flashq.Log.{IsPlaced, IsLogged}
use edgesync_espidf.Flashq.Log.Replay.{is_last}
use edgesync_espidf.Flashq.Log.Update.{Fails, IsRoomy, IsUpdated, update_written-IsUpdated}
use edgesync_espidf.Flashq.Log.Entries.{
  update_at-same, update_at-update_at, All-entry_at, All-update_at,
}
use edgesync_espidf.Flashq.Log.Updated.{zero_entry-IsFitFields, IsLogged-update, IsLogged-last}

-- Room for an UPDATE record without a compaction, and for one more sequence number.
pub record HasRoom {F : Type 0} (c : Ctx F) : Type 0 where
  pub roomy : IsRoomy (record_total_size 0 0) c
  pub seq_left : c.next_seq + 1 < 2 ^ 32

retry_state-goes_on :
    (dead_letter : Bool)
    → is_last (u8 (if dead_letter then state_dead_letter else state_pending)) ≡ false
retry_state-goes_on true = refl
retry_state-goes_on false = refl

-- What an UPDATE record with a new state sets in the entry that it was made from.
updated-state :
    (hdr : Header) (e : Entry) (state seq : ℕ)
    → Describes hdr rec_update (record (fields_of e) { state = state }) seq 0 0
    → updated hdr e ≡ record e { state = u8 state }
updated-state hdr e state seq d = λ i. record e {
  state = d.state_is i;
  attempt_count = d.attempt_count_is i;
  last_attempt_at_us = d.last_attempt_at_us_is i;
  next_retry_at_us = d.next_retry_at_us_is i;
  last_error = d.last_error_is i;
}

module _ (P : Partition) (size : ℕ) (byte : P.Flash → ℕ → ℕ) (nor : IsNor P size byte) where
  open P use {Flash}

  pub entry-fits :
      (c : Ctx Flash) (pos : ℕ)
      → IsLogged P size byte c
      → IsFitFields (fields_of (entry_at c.index pos))
  entry-fits c pos v =
      All-entry_at (λ (e : Entry). IsFitFields (fields_of e)) c.index pos zero_entry-IsFitFields
        v.entries_fit

  -- op_mark_delivered and op_remove of the entry at `pos`, which is the first with its id.
  pub finish_entry-IsLogged :
      (last_state pos : ℕ) (c : Ctx Flash)
      → is_last (u8 last_state) ≡ true
      → IsLogged P size byte c
      → HasRoom c
      → find_entry c.index (entry_at c.index pos).id ≡ some pos
      → Ends (λ a d. IsLogged P size byte d) Fails (finish_entry P last_state pos c)
  unfolding finish_entry append_state_update_locked
  finish_entry-IsLogged last_state pos c last v r known =
      let fields : Entry → RecordFields = λ e. record (fields_of e) { state = last_state } in
      let f : Entry → Entry = λ e. record e { state = u8 last_state } in
      let fit : IsFitFields (fields_of (entry_at c.index pos)) = entry-fits c pos v in
      Ends-bind (append_state_update_locked P pos last_state) _ c
        (λ a d. IsUpdated P size byte nor c d v.scanned pos fields f)
        (λ a d. IsLogged P size byte d) Fails
        (update_written-IsUpdated P size byte nor c v.scanned v.held v.off_is v.placed pos fields
          (omega (arith, fit)) v.seq_fits f r.roomy)
        (λ a d u.
          IsLogged-last P size byte nor c v c.index pos fields f d u known
            (λ hdr des.
              update_at-same c.index pos (updated hdr) f
                (updated-state hdr (entry_at c.index pos) last_state c.next_seq des))
            r.seq_left
            (All-update_at (λ (e : Entry). IsFitFields (fields_of e)) c.index pos f
              (omega (arith, fit)) v.entries_fit)
            (ids-update_at c.index pos f (λ e. refl)) last)

  first_with_id :
      (c : Ctx Flash) (id pos : ℕ)
      → find_entry c.index id ≡ some pos
      → find_entry c.index (entry_at c.index pos).id ≡ some pos
  first_with_id c id pos e = ap (find_entry c.index) (find_entry-ids c.index id pos e).0 ∙ e

  pub mark_delivered-IsLogged :
      (id : ℕ) (c : Ctx Flash)
      → IsLogged P size byte c
      → HasRoom c
      → Ends (λ a d. IsLogged P size byte d) Fails (mark_delivered P id c)
  unfolding mark_delivered
  mark_delivered-IsLogged id c v r =
      Ends-option (find_entry c.index id) _ _ (λ a d. IsLogged P size byte d) Fails (λ e. tt)
        (λ pos e. finish_entry-IsLogged state_delivered pos c refl v r (first_with_id c id pos e))

  pub remove_message-IsLogged :
      (id : ℕ) (c : Ctx Flash)
      → IsLogged P size byte c
      → HasRoom c
      → Ends (λ a d. IsLogged P size byte d) Fails (remove_message P id c)
  unfolding remove_message
  remove_message-IsLogged id c v r =
      Ends-option (find_entry c.index id) _ _ (λ a d. IsLogged P size byte d) Fails (λ e. tt)
        (λ pos e. finish_entry-IsLogged state_removed pos c refl v r (first_with_id c id pos e))

  IsPlaced-index :
      (c : Ctx Flash) (index : List Entry)
      → IsPlaced size c
      → IsPlaced size (record c { index = index })
  IsPlaced-index c index p = record {
    size_fits = p.size_fits;
    two_regions = p.two_regions;
    regions_inside = p.regions_inside;
    region_inside = p.region_inside;
    data_behind_header = p.data_behind_header;
    header_fits = p.header_fits;
    cursor_behind_header = p.cursor_behind_header;
    cursor_inside = p.cursor_inside;
    update_fits = p.update_fits;
  }

  -- A new state for the entry at `pos`, behind assignments `g` to fields that the record carries too.
  pub assigned-IsLogged :
      (g : Entry → Entry) (state pos : ℕ) (c : Ctx Flash)
      → ((hdr : Header) (e : Entry) → updated hdr (g e) ≡ updated hdr e)
      → ((e : Entry) → (g e).id ≡ e.id)
      → IsFitFields (fields_of (g (entry_at c.index pos)))
      → is_last (u8 state) ≡ false
      → IsLogged P size byte c
      → HasRoom c
      → pos < length c.index
      → find_entry c.index (entry_at c.index pos).id ≡ some pos
      → Ends
          (λ a d. IsLogged P size byte d)
          Fails
          (append_state_update_locked P pos state (record c { index = update_at c.index pos g }))
  unfolding append_state_update_locked
  assigned-IsLogged g state pos c over same_id fitted goes_on v r bound known =
      let f : Entry → Entry = λ e. record e { state = u8 state } in
      let fields : Entry → RecordFields = λ e. record (fields_of e) { state = state } in
      let ix : List Entry = update_at c.index pos g in
      let here : entry_at ix pos ≡ g (entry_at c.index pos) =
        entry_at-update_at c.index pos g bound in
      let joined : update_at ix pos f ≡ update_at c.index pos (λ e. f (g e)) =
        update_at-update_at c.index pos f g in
      Ends-map (append_state_update_locked P pos state (record c { index = ix }))
        (λ a d. IsUpdated P size byte nor (record c { index = ix }) d v.scanned pos fields f)
        (λ a d. IsLogged P size byte d) Fails Fails
        (update_written-IsUpdated P size byte nor (record c { index = ix }) v.scanned v.held
          v.off_is (IsPlaced-index c ix v.placed) pos fields (rw here (omega (arith, fitted)))
          v.seq_fits f r.roomy)
        (λ a d u.
          IsLogged-update P size byte nor c v ix pos fields f d u
            (rw (here, same_id (entry_at c.index pos)) known)
            (λ hdr des.
              update_at-same c.index pos (updated hdr) (λ e. f (g e))
                (sym (over hdr (entry_at c.index pos))
                  ∙ updated-state hdr (g (entry_at c.index pos)) state c.next_seq (
                      subst (λ (y : Entry). Describes hdr rec_update (fields y) c.next_seq 0 0) here
                        des))
              ∙ sym joined)
            r.seq_left
            (rw joined (
              All-update_at (λ (e : Entry). IsFitFields (fields_of e)) c.index pos (λ e. f (g e))
                (omega (arith, fitted)) v.entries_fit))
            (rw joined (ids-update_at c.index pos (λ e. f (g e)) same_id)) goes_on)
        (λ e d h. tt)

  retry_entry-IsLogged :
      (t : ℕ) (dead_letter : Bool) (x : EspErr) (pos : ℕ) (c : Ctx Flash)
      → t < 2 ^ 64
      → err_code x < 2 ^ 32
      → IsLogged P size byte c
      → HasRoom c
      → pos < length c.index
      → find_entry c.index (entry_at c.index pos).id ≡ some pos
      → Ends (λ a d. IsLogged P size byte d) Fails (retry_entry P t dead_letter x pos c)
  unfolding retry_entry
  retry_entry-IsLogged t dead_letter x pos c time code v r bound known =
      let fit : IsFitFields (fields_of (entry_at c.index pos)) = entry-fits c pos v in
      assigned-IsLogged
        (λ e. record e { next_retry_at_us = if dead_letter then 0 else t; last_error = err_code x })
        (if dead_letter then state_dead_letter else state_pending) pos c (λ hdr e. refl) (λ e. refl)
        (ground arith) (retry_state-goes_on dead_letter) v r bound known

  pub schedule_retry-IsLogged :
      (id t : ℕ) (dead_letter : Bool) (x : EspErr) (c : Ctx Flash)
      → t < 2 ^ 64
      → err_code x < 2 ^ 32
      → IsLogged P size byte c
      → HasRoom c
      → Ends (λ a d. IsLogged P size byte d) Fails (schedule_retry P id t dead_letter x c)
  unfolding schedule_retry
  schedule_retry-IsLogged id t dead_letter x c time code v r =
      Ends-option (find_entry c.index id) _ _ (λ a d. IsLogged P size byte d) Fails (λ e. tt)
        (λ pos e.
          retry_entry-IsLogged t dead_letter x pos c time code v r
            (find_entry-ids c.index id pos e).1 (first_with_id c id pos e))
