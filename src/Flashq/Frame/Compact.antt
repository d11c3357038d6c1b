-- ===== src/Flashq/Frame/Compact.antt =====
-- What compact_locked, complete or stopped half-way, leaves as it was.
use mathlib.Core.List.{append_assoc, map-append}
use edgesync_espidf.Prelude.{
  ℕ, ◌+◌, ◌≡◌, refl, sym, ◌∙◌, ap, ◌-◌, ◌||◌, some, List, [], ◌∷◌, ◌++◌, take, drop, arith, u32,
}
use edgesync_espidf.Format.{hdr_size, encode_message_full}
use edgesync_espidf.Flashq.Partition.{Partition}
use edgesync_espidf.Flashq.Context.{Entry, Ctx, ok, M}
use edgesync_espidf.Flashq.Helpers.{region_offset, partition_write_verify, append_locked}
use edgesync_espidf.Flashq.Compaction.{
  fields_of, until_nul, best_effort, read_source, reencode, write_copy, copy_entries, begin_region,
  finish_region, retire_region, compact_locked,
}
use edgesync_espidf.Flashq.Append.{low_space, too_churned, compact_if_due, ensure_space_locked}
use edgesync_espidf.Flashq.Frame.{
  core, cores, Frame, Frame-refl, Frame-trans, framed, Framed, Frames,
}
use edgesync_espidf.Action.Keeps.{
  Keeps-bind, Keeps-modify, KeptIn-bind, KeptIn-trans, KeptIn-from, KeptIn-if, KeptIn-option,
  KeptIn-handle, keeps,
}
use edgesync_espidf.Flashq.Frame.Flash.{partition_write_verify-Frames, ensure_region_erased-Frames}

module _ (P : Partition) where
  open P use {Flash, read}

  best_effort-Frames : (m : M Flash (Unit {0})) → Frames m → Frames (best_effort P m)
  best_effort-Frames m h = record {
    at = λ c.
        KeptIn-handle Frame c (m c) (λ a c'. ok tt c') (λ e c'. ok tt c') (h.at c) (λ a c' p. p)
          (λ e c' p. p.0);
  }

  begin_region-Frames : (target new_generation : ℕ) → Frames (begin_region P target new_generation)
  unfolding begin_region
  begin_region-Frames target new_generation =
      search (keeps, framed, ensure_region_erased-Frames, partition_write_verify-Frames)

  finish_region-Frames :
      (target new_cursor seq : ℕ) → Frames (finish_region P target new_cursor seq)
  unfolding finish_region
  finish_region-Frames target new_cursor seq =
      search (keeps, framed, partition_write_verify-Frames) depth 10

  retire_region-Frames : (source : ℕ) → Frames (retire_region P source)
  unfolding retire_region
  retire_region-Frames source = search (
    keeps, framed, best_effort-Frames, ensure_region_erased-Frames, partition_write_verify-Frames,
  )

  read_source-Frames : (source : ℕ) (e : Entry) → Frames (read_source P source e)
  unfolding read_source
  read_source-Frames source e = record {
    at = λ c.
        KeptIn-option Frame c
          (read c.flash (region_offset P c source + e.message_offset)
            (hdr_size + (e.destination_len + e.payload_len)))
          _ _ (Frame-refl c, tt) (λ bytes. Frame-refl c);
  }

  reencode-Frames : (e : Entry) (bytes : List ℕ) (seq : ℕ) → Frames (reencode P e bytes seq)
  unfolding reencode
  reencode-Frames e bytes seq = record {
    at = λ c.
        KeptIn-option Frame c
          (encode_message_full c.scratch_size (fields_of e)
            (until_nul (take e.destination_len (drop hdr_size bytes)))
            (some (drop e.destination_len (drop hdr_size bytes))) e.payload_len seq)
          _ _ (Frame-refl c, tt) (λ buf. Frame-refl c);
  }

  write_copy-Frames :
      (source target : ℕ) (e : Entry) (new_cursor seq : ℕ)
      → Frames (write_copy P source target e new_cursor seq)
  unfolding write_copy
  write_copy-Frames source target e new_cursor seq =
      search (keeps, framed, read_source-Frames, reencode-Frames, partition_write_verify-Frames)
        depth 8

  -- An entry that gets a new offset keeps its core.
  Frame-moved :
      (c : Ctx Flash) (done : List Entry) (e : Entry) (rest : List Entry) (offset : ℕ)
      → cores c.index ≡ cores (done ++ e ∷ rest)
      → Frame c (record c { index = done ++ record e { message_offset = offset } ∷ rest })
  Frame-moved c done e rest offset same = record {
    same_index =
        map-append core done (record e { message_offset = offset } ∷ rest)
        ∙ sym (map-append core done (e ∷ rest))
        ∙ sym same;
    same_capacity = refl;
    same_region_size = refl;
    same_data_start = refl;
    same_data_capacity = refl;
    same_scratch_size = refl;
    seq_fits = λ h. omega arith;
  }

  copy_entries-Framed :
      (source target : ℕ) (done todo : List Entry) (new_cursor seq : ℕ) (c : Ctx Flash)
      → cores c.index ≡ cores (done ++ todo)
      → Framed c (copy_entries P source target done todo new_cursor seq c)
  unfolding copy_entries
  copy_entries-Framed source target done [] new_cursor seq c same = Frame-refl c
  copy_entries-Framed source target done (e ∷ rest) new_cursor seq c same =
      KeptIn-bind framed (write_copy P source target e new_cursor seq) _ c
        ((write_copy-Frames source target e new_cursor seq).at c)
        λ len c' p.
          let moved : Entry = record e { message_offset = new_cursor } in
          let step : Frame c' (record c' { index = done ++ moved ∷ rest }) =
            Frame-moved c' done e rest new_cursor (p.same_index ∙ same) in
          KeptIn-trans framed c _ _ (Frame-trans p step) (
            copy_entries-Framed source target (done ++ moved ∷ []) rest (new_cursor + len)
              (u32 (seq + 1)) (record c' { index = done ++ moved ∷ rest })
              (ap cores (sym (append_assoc done (moved ∷ []) rest))))

  -- compact_locked, whether it succeeds or stops at any read, write or erasure that fails, keeps every entry of the index, in
  -- order, but for the offset of its record, keeps the geometry and the capacity, and keeps the
  -- sequence number a uint32_t.
  pub compact_locked-Frames : Frames (compact_locked P)
  unfolding compact_locked
  compact_locked-Frames = record {
    at = λ c.
        let target : ℕ = 1 - c.active_region in
        KeptIn-bind framed (begin_region P target (u32 (c.active_generation + 1))) _ c
          ((begin_region-Frames target (u32 (c.active_generation + 1))).at c)
          λ a c₁ p. KeptIn-trans framed c c₁ _ p (
            KeptIn-bind framed
              (copy_entries P c.active_region target [] c₁.index c₁.data_start c₁.next_seq) _ c₁
              (copy_entries-Framed c.active_region target [] c₁.index c₁.data_start c₁.next_seq c₁
                refl)
              λ b c₂ q. KeptIn-from framed _ c₁ c₂ q (
                Keeps-bind framed (finish_region P target b.0 b.1) _
                  (finish_region-Frames target b.0 b.1)
                  λ n.
                    Keeps-bind framed (retire_region P c.active_region) _
                      (retire_region-Frames c.active_region)
                      λ x. Keeps-modify _ λ d. record {
                        same_index = refl;
                        same_capacity = refl;
                        same_region_size = refl;
                        same_data_start = refl;
                        same_data_capacity = refl;
                        same_scratch_size = refl;
                        seq_fits = λ h. omega arith;
                      }));
  }

  compact_if_due-Frames : (needed_len : ℕ) → Frames (compact_if_due P needed_len)
  unfolding compact_if_due
  compact_if_due-Frames needed_len = record {
    at = λ c.
        KeptIn-if Frame c (low_space c needed_len || too_churned c) _ _ (compact_locked-Frames.at c)
          (Frame-refl c);
  }

  pub ensure_space_locked-Frames : (needed_len : ℕ) → Frames (ensure_space_locked P needed_len)
  unfolding ensure_space_locked
  ensure_space_locked-Frames needed_len = search (keeps, framed, compact_if_due-Frames)

  pub append_locked-Frames : (buf : List ℕ) → Frames (append_locked P buf)
  unfolding append_locked
  append_locked-Frames buf = record {
    at = λ c.
        KeptIn-bind framed
          (partition_write_verify P (region_offset P c c.active_region + c.cursor) buf) _ c
          ((partition_write_verify-Frames P (region_offset P c c.active_region + c.cursor) buf).at
            c)
          λ a c' p. Frame-trans p (record {
            same_index = refl;
            same_capacity = refl;
            same_region_size = refl;
            same_data_start = refl;
            same_data_capacity = refl;
            same_scratch_size = refl;
            seq_fits = λ h. omega arith;
          });
  }
