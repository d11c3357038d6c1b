-- ===== src/Flashq/Create.antt =====
-- edgesync_flashq_create: the geometry of the two regions, and the size of the scratch buffers.
use edgesync_espidf.Prelude.{
  ℕ, ◌+◌, ◌*◌, ◌/◌, ◌%◌, ◌^◌, ◌≤◌, ◌<◌, ◌≡◌, refl, ◌⊎◌, inl, inr, Bool, true, false, Bool-cases,
  not, ◌||◌, Option, none, some, [], ltb, ◌==◌, if◌then◌else◌, sub32, arith,
}
use edgesync_espidf.Types.{EspErr}
use edgesync_espidf.Format.{record_total_size, round4, max_destination_len}
use edgesync_espidf.Format.Size.{max_body_len}
use edgesync_espidf.Flashq.Context.{Ctx}
use edgesync_espidf.Flashq.Helpers.{sector_size}

module _ {F : Type 0} where
  -- The context of a partition with `size` bytes, its other fields zero as calloc leaves them.
  unfoldable pub context_of : ℕ → ℕ → ℕ → F → Ctx F
  context_of max_messages max_message_size size flash =
      let region_size = size / sector_size / 2 * sector_size in
      record {
        flash = flash;
        region_size = region_size;
        data_start = sector_size;
        data_capacity = sub32 region_size sector_size;
        active_region = 0;
        active_generation = 0;
        cursor = 0;
        next_seq = 0;
        index = [];
        index_capacity = max_messages;
        max_message_size = max_message_size;
        scratch_size = record_total_size max_destination_len max_message_size;
        compactions_total = 0;
        awaiting_gc_count = 0;
        updates_since_compaction = 0;
      }

  -- edgesync_flashq_create: `found` is the size and the contents of the partition that
  -- esp_partition_find_first gives, and `allocated` whether every allocation succeeds.
  unfoldable pub create : ℕ → ℕ → Option (ℕ × F) → Bool → EspErr ⊎ Ctx F
  create max_messages max_message_size found allocated =
      if max_messages == 0 then inl EspErr.invalid_arg else elim found [
        | none ↦ inl EspErr.storage_err
        | some (size, flash) ↦
            if not (size % sector_size == 0) || ltb (size / sector_size) 4
            then inl EspErr.storage_err
            else if allocated
            then inr (context_of max_messages max_message_size size flash)
            else inl EspErr.no_mem
      ]

  -- What the other operations rely on: two regions that lie side by side in the partition, a sector
  -- for the header and one at least for data in each, and a scratch buffer for every record.
  pub record IsGeometry (size : ℕ) (c : Ctx F) : Type 0 where
    pub regions_fit : 1 * c.region_size + c.region_size ≤ size
    pub data_behind_header : c.data_start + c.data_capacity ≡ c.region_size
    pub some_data : sector_size ≤ c.data_capacity
    pub records_fit :
        (destination_len payload_len : ℕ)
        → destination_len ≤ max_destination_len
        → payload_len ≤ c.max_message_size
        → record_total_size destination_len payload_len ≤ c.scratch_size

  context_of-IsGeometry :
      (max_messages max_message_size size : ℕ) (flash : F)
      → size < 2 ^ 32
      → max_message_size ≤ max_body_len
      → 4 ≤ size / sector_size
      → IsGeometry size (context_of max_messages max_message_size size flash)
  unfolding context_of record_total_size round4
  context_of-IsGeometry max_messages max_message_size size flash fits msg large = record {
    regions_fit = omega arith;
    data_behind_header = omega arith;
    some_data = omega arith;
    records_fit = λ d p hd hp. omega arith;
  }

  -- The partition, if there is one, has less than 4 GiB.
  abbrev pub IsSmall : Option (ℕ × F) → Type 0
  IsSmall none = Unit {0}
  IsSmall (some (size, flash)) = size < 2 ^ 32

  -- The layout of a partition: one header sector at the start of each of two regions of whole sectors, as
  -- large as they can be, and nothing stored yet.
  pub record IsLaidOut (max_messages max_message_size size : ℕ) (flash : F) (c : Ctx F)
      : Type 0 where
    pub geometry : IsGeometry size c
    pub header_sector : c.data_start ≡ 4096
    pub whole_sectors : c.region_size % 4096 ≡ 0
    pub as_large : size < 2 * (c.region_size + 4096)
    pub messages : c.index_capacity ≡ max_messages
    pub message_size : c.max_message_size ≡ max_message_size
    pub no_entries : c.index ≡ []
    pub flash_kept : c.flash ≡ flash

  -- When edgesync_flashq_create can make a context: the codes of its refusals are those of the first
  -- condition that fails.
  abbrev pub Created : ℕ → ℕ → Option (ℕ × F) → Bool → EspErr ⊎ Ctx F → Type 0
  Created max_messages max_message_size none allocated r =
      ((max_messages ≡ 0) × (r ≡ inl EspErr.invalid_arg))
      ⊎ ((1 ≤ max_messages) × (r ≡ inl EspErr.storage_err))
  Created max_messages max_message_size (some (size, flash)) allocated r =
      ((max_messages ≡ 0) × (r ≡ inl EspErr.invalid_arg))
      ⊎ ((1 ≤ max_messages)
          × ((1 ≤ size % 4096) ⊎ (size < 4 * 4096))
          × (r ≡ inl EspErr.storage_err))
      ⊎ ((1 ≤ max_messages)
          × (size % 4096 ≡ 0)
          × (4 * 4096 ≤ size)
          × (((allocated ≡ false) × (r ≡ inl EspErr.no_mem))
              ⊎ ((allocated ≡ true)
                  × ((c : Ctx F) × (r ≡ inr c)
                      × IsLaidOut max_messages max_message_size size flash c))))

  context_of-IsLaidOut :
      (max_messages max_message_size size : ℕ) (flash : F)
      → size < 2 ^ 32
      → max_message_size ≤ max_body_len
      → 4 ≤ size / sector_size
      → IsLaidOut max_messages max_message_size size flash
          (context_of max_messages max_message_size size flash)
  unfolding context_of
  context_of-IsLaidOut max_messages max_message_size size flash fits msg large = record {
    geometry = context_of-IsGeometry max_messages max_message_size size flash fits msg large;
    header_sector = refl;
    whole_sectors = omega arith;
    as_large = omega arith;
    messages = refl;
    message_size = refl;
    no_entries = refl;
    flash_kept = refl;
  }

  -- For a partition of less than 4 GiB and a largest message within max_body_len, up to which no
  -- size of a record wraps: edgesync_flashq_create returns INVALID_ARG exactly if no message is to
  -- be held; otherwise STORAGE exactly if there is no partition, or it is not a whole number of
  -- sectors or has less than four; otherwise NO_MEM exactly if an allocation fails; and otherwise a
  -- context with an empty index over the flash as it is, whose two regions lie inside the
  -- partition, each a header sector and one or more data sectors, and as many as go into the
  -- partition twice, and whose scratch buffers take the record of every destination and payload
  -- within the limits.
  pub create_outcome :
      (max_messages max_message_size : ℕ) (found : Option (ℕ × F)) (allocated : Bool)
      → max_message_size ≤ max_body_len
      → IsSmall found
      → Created max_messages max_message_size found allocated
          (create max_messages max_message_size found allocated)
  unfolding create
  create_outcome max_messages max_message_size none allocated msg fits =
      elim (Bool-cases (max_messages == 0)) [
        | inl zero_messages ↦ inl (ground arith, rw zero_messages refl)
        | inr some_messages ↦ inr (ground arith, rw some_messages refl)
      ]
  create_outcome max_messages max_message_size (some (size, flash)) allocated msg fits =
      elim (Bool-cases (max_messages == 0)) [
        | inl zero_messages ↦ inl (ground arith, rw zero_messages refl)
        | inr some_messages ↦
            elim (Bool-cases (not (size % sector_size == 0) || ltb (size / sector_size) 4)) [
              | inl bad ↦ inr (inl (ground arith, ground arith, rw (some_messages, bad) refl))
              | inr good ↦ inr (
                  inr (
                    ground arith,
                    ground arith,
                    ground arith,
                    elim (Bool-cases allocated) [
                      | inr out ↦ inl (out, rw (some_messages, good, out) refl)
                      | inl all ↦ inr (
                        all,
                        (
                          context_of max_messages max_message_size size flash,
                          rw (some_messages, good, all) refl,
                          context_of-IsLaidOut max_messages max_message_size size flash fits msg
                              (ground arith),
                        ),
                      )
                    ],
                  ))
            ]
      ]
