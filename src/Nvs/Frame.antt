-- ===== src/Nvs/Frame.antt =====
-- What the steps of the backend keep: the ids and the slots of the index, the marks of the slots and the limits.
pub mod Calls
use mathlib.Core.List.{map}
use edgesync_espidf.Prelude.{
  ℕ, zero, suc, ◌≡◌, refl, ◌∙◌, ap, Bool, none, some, List, [], ◌∷◌, leb, ltb, if◌then◌else◌,
}
use edgesync_espidf.Types.{EspErr}
use edgesync_espidf.Format.{Header, hdr_size, encode_message_full, decode_header, verify_body}
use edgesync_espidf.Action.{ok, fail, M}
use edgesync_espidf.Action.Outcome.{Ends-map}
use edgesync_espidf.Action.Keeps.{IsFailure, IsPreorder, KeptIn, Keeps, KeptIn-if, KeptIn-option}
use edgesync_espidf.Flashq.Compaction.{fields_of}
use edgesync_espidf.Flashq.Helpers.{update_at}
use edgesync_espidf.Flashq.Ids.{ids, ids-update_at}
use edgesync_espidf.Nvs.{Nvs, Ctx, NvsEntry, slot_of, slot_key}
use edgesync_espidf.Nvs.Entries.{
  Source, payload_read, over, put_blob, write_entry, verify_blob, read_and_verify, discard,
  erase_blob,
}

abbrev pub slots : List NvsEntry → List ℕ
slots index = map (λ (e : NvsEntry). slot_of e) index

pub slots-update_at :
    (xs : List NvsEntry) (pos : ℕ) (f : NvsEntry → NvsEntry)
    → ((e : NvsEntry) → slot_of (f e) ≡ slot_of e)
    → slots (update_at xs pos f) ≡ slots xs
slots-update_at [] pos f h = refl
slots-update_at (x ∷ xs) zero f h = ap (λ i. i ∷ slots xs) (h x)
slots-update_at (x ∷ xs) (suc pos) f h = ap (λ is. slot_of x ∷ is) (slots-update_at xs pos f h)

module _ {S : Type 0} where
  abbrev pub view : Ctx S → List ℕ × List ℕ × List Bool × ℕ × ℕ
  view c = (ids c.index, slots c.index, c.slot_used, c.index_capacity, c.max_messages)

  abbrev pub Frame : Ctx S → Ctx S → Type 0
  Frame c c' = view c' ≡ view c

  -- Assignments to fields of an entry but for its id and its slot.
  pub Frame-update_at :
      (c : Ctx S) (pos : ℕ) (f : NvsEntry → NvsEntry)
      → ((e : NvsEntry) → (f e).id ≡ e.id)
      → ((e : NvsEntry) → slot_of (f e) ≡ slot_of e)
      → Frame c (record c { index = update_at c.index pos f })
  Frame-update_at c pos f h h' =
      rw (ids-update_at c.index pos f h, slots-update_at c.index pos f h') refl

pub framed : {S : Type 0} → IsPreorder (Frame {S = S})
framed = record { refl_of = λ c. refl; trans_of = λ a b c p q. q ∙ p }

-- All but the store and the scratch buffer: what write_entry and read_and_verify keep.
abbrev pub rest : {S : Type 0} → Ctx S → List NvsEntry × List Bool × ℕ × ℕ × ℕ × ℕ
rest c =
    (c.index, c.slot_used, c.index_capacity, c.max_messages, c.max_message_size, c.scratch_size)

abbrev pub Still : {S : Type 0} → Ctx S → Ctx S → Type 0
Still c c' = rest c' ≡ rest c

pub unmoved : {S : Type 0} → IsPreorder (Still {S = S})
unmoved = record { refl_of = λ c. refl; trans_of = λ a b c p q. q ∙ p }

abbrev pub Stills : {S A : Type 0} → M (Ctx S) A → Type 0
Stills m = Keeps Still m

abbrev pub Frames : {S A : Type 0} → M (Ctx S) A → Type 0
Frames m = Keeps Frame m

module _ {S : Type 0} where
  Frame-Still : (c c' : Ctx S) → Still c c' → Frame c c'
  Frame-Still c c' p =
      ap (λ (v : List NvsEntry × List Bool × ℕ × ℕ × ℕ × ℕ). (ids v.0, slots v.0, v.1, v.2, v.3)) p

  pub Frames-Stills : {A : Type 0} (m : M (Ctx S) A) → Stills m → Frames m
  Frames-Stills m h = record {
    at = λ c.
        Ends-map (m c) (λ a d. Still c d) (λ a d. Frame c d) (λ e d. Still c d × IsFailure e)
          (λ e d. Frame c d × IsFailure e) (h.at c) (λ a d q. Frame-Still c d q)
          (λ e d q. (Frame-Still c d q.0, q.1));
  }

module _ (N : Nvs) where
  open N use {Store, get_length, get_blob, set_blob, commit, erase_key}

  put_blob-Stills : (slot : ℕ) (buf : List ℕ) → Stills (put_blob N slot buf)
  unfolding put_blob
  put_blob-Stills slot buf = record {
    at = λ c.
        let (was_set, s₁) = set_blob c.store (slot_key slot) buf in
        KeptIn-if Still c was_set _ _ (KeptIn-if Still c (commit s₁).0 _ _ refl (refl, tt))
          (refl, tt);
  }

  pub write_entry-Stills :
      (e : NvsEntry) (destination : List ℕ) (payload : Source)
      → Stills (write_entry N e destination payload)
  unfolding write_entry
  write_entry-Stills e destination payload = record {
    at = λ c.
        KeptIn-option Still c
          (encode_message_full c.scratch_size (fields_of e) destination
            (payload_read e destination payload c.scratch) e.payload_len 0)
          _ _ (refl, tt)
          (λ buf. (put_blob-Stills (slot_of e) buf).at (record c { scratch = over buf c.scratch }));
  }

  verify_blob-Stills : (bytes : List ℕ) → Stills (verify_blob N bytes)
  unfolding verify_blob
  verify_blob-Stills bytes = record {
    at = λ c.
        KeptIn-option Still c (decode_header bytes) _ _ (refl, tt)
          (λ hdr. KeptIn-if Still c (verify_body hdr _) _ _ refl (refl, tt));
  }

  pub read_and_verify-Stills : (slot : ℕ) → Stills (read_and_verify N slot)
  unfolding read_and_verify
  read_and_verify-Stills slot = record {
    at = λ c.
        KeptIn-option Still c (get_length c.store (slot_key slot)) _ _ (refl, tt)
          λ len.
            KeptIn-if Still c (ltb c.scratch_size len) _ _ (refl, tt)
              (KeptIn-option Still c (get_blob c.store (slot_key slot) len) _ _ (refl, tt)
                (λ bytes.
                  (verify_blob-Stills bytes).at (record c { scratch = over bytes c.scratch })));
  }

  pub discard-Stills : (slot : ℕ) → Stills (discard N slot)
  unfolding discard
  discard-Stills slot = record { at = λ c. refl }

  pub erase_blob-Stills : (slot : ℕ) → Stills (erase_blob N slot)
  unfolding erase_blob
  erase_blob-Stills slot = record {
    at = λ c.
        let (erased, s₁) = erase_key c.store (slot_key slot) in
        KeptIn-if Still c erased _ _ (KeptIn-if Still c (commit s₁).0 _ _ refl (refl, tt))
          (refl, tt);
  }

  pub write_entry-Frames :
      (e : NvsEntry) (destination : List ℕ) (payload : Source)
      → Frames (write_entry N e destination payload)
  write_entry-Frames e destination payload =
      Frames-Stills _ (write_entry-Stills e destination payload)

  pub read_and_verify-Frames : (slot : ℕ) → Frames (read_and_verify N slot)
  read_and_verify-Frames slot = Frames-Stills _ (read_and_verify-Stills slot)

  pub discard-Frames : (slot : ℕ) → Frames (discard N slot)
  discard-Frames slot = Frames-Stills _ (discard-Stills slot)

  pub erase_blob-Frames : (slot : ℕ) → Frames (erase_blob N slot)
  erase_blob-Frames slot = Frames-Stills _ (erase_blob-Stills slot)
