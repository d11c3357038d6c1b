-- ===== src/Flashq/Log/Replay.antt =====
-- What the replay of one more record gives.
use edgesync_espidf.Prelude.{
  ℕ, ◌+◌, ◌<◌, ◌≡◌, refl, true, false, ◌||◌, Bool, some, [], ◌∷◌, ◌++◌, length, leb, lt→ltb, eq→==,
  ◌==◌, u32, arith,
}
use edgesync_espidf.Types.{state_delivered, state_removed}
use edgesync_espidf.Format.{Header, round4, rec_message, rec_update}
use edgesync_espidf.Flashq.Helpers.{find_entry, update_at, remove_entry_at}
use edgesync_espidf.Flashq.Scan.{
  ScanState, total_needed, entry_of, updated, apply_message, apply_update_at, apply_update,
  apply_record,
}

-- The last state of a message.
abbrev pub is_last : ℕ → Bool
is_last state = (state == state_delivered) || (state == state_removed)

module _ (cap : ℕ) (hdr : Header) (s : ScanState) (newer : s.max_seq_seen < hdr.seq) where
  pub apply_record-message :
      hdr.type ≡ rec_message
      → length s.index < cap
      → apply_record cap hdr s ≡ record {
        off = s.off + round4 (total_needed hdr);
        max_seq_seen = hdr.seq;
        index = s.index ++ entry_of hdr s.off ∷ [];
        awaiting_gc_count = s.awaiting_gc_count;
      }
  unfolding apply_record apply_message
  apply_record-message type room =
      let is_message : (hdr.type == rec_message) ≡ true = eq→== _ _ type in
      let free : leb cap (length s.index) ≡ false = ground arith in
      rw (is_message, free, apply_record, apply_message) (rw (lt→ltb _ _ newer) refl)

  module _ (pos : ℕ) (type : hdr.type ≡ rec_update)
      (known : find_entry s.index hdr.message_id ≡ some pos) where
    pub apply_record-update :
        is_last hdr.state ≡ false
        → apply_record cap hdr s ≡ record {
          off = s.off + round4 (total_needed hdr);
          max_seq_seen = hdr.seq;
          index = update_at s.index pos (updated hdr);
          awaiting_gc_count = s.awaiting_gc_count;
        }
    unfolding apply_record apply_update apply_update_at
    apply_record-update goes_on =
        let other : (hdr.type == rec_message) ≡ false = ground arith in
        let is_update : (hdr.type == rec_update) ≡ true = eq→== _ _ type in
        rw
          (
            lt→ltb _ _ newer,
            other,
            is_update,
            known,
            goes_on,
            apply_record,
            apply_update,
            apply_update_at,
          )
          (rw (lt→ltb _ _ newer) refl)

    pub apply_record-last :
        is_last hdr.state ≡ true
        → apply_record cap hdr s ≡ record {
          off = s.off + round4 (total_needed hdr);
          max_seq_seen = hdr.seq;
          index = remove_entry_at (update_at s.index pos (updated hdr)) pos;
          awaiting_gc_count = u32 (s.awaiting_gc_count + 1);
        }
    unfolding apply_record apply_update apply_update_at
    apply_record-last last =
        let other : (hdr.type == rec_message) ≡ false = ground arith in
        let is_update : (hdr.type == rec_update) ≡ true = eq→== _ _ type in
        rw
          (
            lt→ltb _ _ newer,
            other,
            is_update,
            known,
            last,
            apply_record,
            apply_update,
            apply_update_at,
          )
          (rw (lt→ltb _ _ newer) refl)
