-- ===== src/Flashq/Frame.antt =====
-- What no write to the flash changes: the index but for the offsets of the records, and the geometry.
pub mod Flash
pub mod Compact
use mathlib.Core.List.{append_assoc, map, map-append}
use edgesync_espidf.Prelude.{
  ℕ, ◌+◌, ◌^◌, ◌<◌, ◌≡◌, refl, sym, ◌∙◌, ap, inl, inr, Bool, true, false, ◌||◌, Bool-cases, Option,
  none, some, List, [], ◌∷◌, ◌++◌, length, arith, u32, if◌then◌else◌,
}
use edgesync_espidf.Types.{EspErr}
use edgesync_espidf.Format.{hdr_size}
use edgesync_espidf.Flashq.Partition.{Partition}
use edgesync_espidf.Flashq.Context.{
  Entry, Ctx, Res, ok, fail, M, pure, raise, ◌>>=◌, ◌>>◌, gets, modify,
}
use edgesync_espidf.Action.Keeps.{IsPreorder, KeptIn, Keeps}
use edgesync_espidf.Action.Outcome.{Ends, Ends-bind, Ends-map}
use edgesync_espidf.Flashq.Helpers.{
  same_bytes, region_hdr_size, region_offset, verify_written, partition_write_verify, erase_region,
  ensure_region_erased, region_header_read, append_locked,
}
use edgesync_espidf.Flashq.Compaction.{
  best_effort, read_source, reencode, copy_entries, begin_region, finish_region, retire_region,
  compact_locked,
}
use edgesync_espidf.Flashq.Append.{compact_if_due, ensure_space_locked}

-- An entry without the place of its record.
abbrev pub core : Entry → Entry
core e = record e { message_offset = 0 }

abbrev pub cores : List Entry → List Entry
cores index = map core index

pub record Frame {F : Type 0} (c c' : Ctx F) : Type 0 where
  pub same_index : cores c'.index ≡ cores c.index
  pub same_capacity : c'.index_capacity ≡ c.index_capacity
  pub same_region_size : c'.region_size ≡ c.region_size
  pub same_data_start : c'.data_start ≡ c.data_start
  pub same_data_capacity : c'.data_capacity ≡ c.data_capacity
  pub same_scratch_size : c'.scratch_size ≡ c.scratch_size
  pub seq_fits : c.next_seq < 2 ^ 32 → c'.next_seq < 2 ^ 32

module _ {F : Type 0} where
  pub Frame-refl : (c : Ctx F) → Frame c c
  Frame-refl c = record {
    same_index = refl;
    same_capacity = refl;
    same_region_size = refl;
    same_data_start = refl;
    same_data_capacity = refl;
    same_scratch_size = refl;
    seq_fits = λ h. h;
  }

  pub Frame-trans : {a b c : Ctx F} → Frame a b → Frame b c → Frame a c
  Frame-trans p q = record {
    same_index = q.same_index ∙ p.same_index;
    same_capacity = q.same_capacity ∙ p.same_capacity;
    same_region_size = q.same_region_size ∙ p.same_region_size;
    same_data_start = q.same_data_start ∙ p.same_data_start;
    same_data_capacity = q.same_data_capacity ∙ p.same_data_capacity;
    same_scratch_size = q.same_scratch_size ∙ p.same_scratch_size;
    seq_fits = λ h. q.seq_fits (p.seq_fits h);
  }

pub framed : {F : Type 0} → IsPreorder (Frame {F = F})
framed = record { refl_of = Frame-refl; trans_of = λ a b c p q. Frame-trans p q }

-- A call keeps the frame, whether it succeeds or fails; and an action that does so.
abbrev pub Framed : {F A : Type 0} → Ctx F → Res F A → Type 0
Framed c r = KeptIn Frame c r

abbrev pub Frames : {F A : Type 0} → M F A → Type 0
Frames m = Keeps Frame m
