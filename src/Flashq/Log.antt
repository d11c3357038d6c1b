-- ===== src/Flashq/Log.antt =====
-- The log of a region (edgesync_storage_flashq.c) as a list of records, and what its replay gives.
pub mod Distinct
pub mod Scan
pub mod Append
pub mod Write
pub mod Headers
pub mod Replay
pub mod Update
pub mod Entries
pub mod Updated
pub mod Calls
pub mod Claim
pub mod Enqueue
pub mod Requeue
pub mod Recover
pub mod Start
pub mod Rooms
pub mod Regions
pub mod Reboot
pub mod Run
mod Tests
use edgesync_espidf.Prelude.{
  ℕ, ◌*◌, ◌+◌, ◌^◌, ◌≤◌, ◌<◌, ◌≡◌, ◌⊎◌, true, false, none, some, List, [], ◌∷◌, ◌++◌, length, All,
  u32,
}
use edgesync_espidf.Format.{Header, decode_header, verify_body, hdr_size, round4, record_total_size}
use edgesync_espidf.Format.Records.{IsFitFields}
use edgesync_espidf.Flashq.Partition.{Partition}
use edgesync_espidf.Flashq.Context.{Entry, Ctx}
use edgesync_espidf.Flashq.Helpers.{region_offset, region_hdr_size}
use edgesync_espidf.Flashq.Compaction.{fields_of}
use edgesync_espidf.Flashq.Scan.{ScanState, total_needed, apply_record}
use edgesync_espidf.Flashq.Recovery.{active_generation_of, choose_region, header_of_region}
use edgesync_espidf.Flashq.Nor.{bytes_from}
use edgesync_espidf.Flashq.Log.Distinct.{IsDistinct}

-- The length of a record's body with its CRC.
abbrev pub body_size : Header → ℕ
body_size hdr = u32 (u32 (hdr.destination_len + hdr.body_len) + 4)

-- What scan_region has seen of a region before its first record.
abbrev pub unscanned : ℕ → ScanState
unscanned data_start = record {
  off = data_start;
  max_seq_seen = 0;
  index = [];
  awaiting_gc_count = 0;
}

-- The records of a log, one after the other.
abbrev pub replay : ℕ → List Header → ScanState → ScanState
replay index_capacity [] s = s
replay index_capacity (hdr ∷ log) s = replay index_capacity log (apply_record index_capacity hdr s)

-- An intact record lies at `off` of the region that starts at `base`, and inside the region.
pub record IsStoredAt (b : ℕ → ℕ) (base region_size off : ℕ) (hdr : Header) : Type 0 where
  pub accepted : decode_header (bytes_from b (base + off) hdr_size) ≡ some hdr
  pub intact : verify_body hdr (bytes_from b (base + off + hdr_size) (body_size hdr)) ≡ true
  pub within : off + round4 (total_needed hdr) ≤ region_size
  pub whole : hdr_size + body_size hdr ≤ round4 (total_needed hdr)
  pub no_wrap : total_needed hdr ≤ round4 (total_needed hdr)

-- The records of the log lie in the flash, from the offset of `s` on.
abbrev pub IsStored : (ℕ → ℕ) → ℕ → ℕ → ℕ → List Header → ScanState → Type 0
IsStored b base region_size index_capacity [] s = Unit {0}
IsStored b base region_size index_capacity (hdr ∷ log) s =
    IsStoredAt b base region_size s.off hdr
    × IsStored b base region_size index_capacity log (apply_record index_capacity hdr s)

-- The flash from `base` on holds a log whose replay gives `s`, and is blank behind it.
pub record Holds (b : ℕ → ℕ) (base region_size index_capacity data_start : ℕ) (s : ScanState)
    : Type 0 where
  pub log : List Header
  pub stored : IsStored b base region_size index_capacity log (unscanned data_start)
  pub replayed : replay index_capacity log (unscanned data_start) ≡ s
  pub blank : (i : ℕ) → base + s.off ≤ i → i < base + region_size → b i ≡ 255

-- The active region lies inside of the partition, and every UPDATE record fits the scratch buffer.
pub record IsPlaced {F : Type 0} (size : ℕ) (c : Ctx F) : Type 0 where
  pub size_fits : size ≤ 2 ^ 31
  pub two_regions : c.active_region ≤ 1
  pub regions_inside : 1 * c.region_size + c.region_size ≤ size
  pub region_inside : c.active_region * c.region_size + c.region_size ≤ size
  pub data_behind_header : c.data_start + c.data_capacity ≡ c.region_size
  pub header_fits : region_hdr_size ≤ c.data_start
  pub cursor_behind_header : c.data_start ≤ c.cursor
  pub cursor_inside : c.cursor ≤ c.region_size
  pub update_fits : record_total_size 0 0 ≤ c.scratch_size

-- The headers of the regions lead op_recover to the active region.
abbrev pub IsMarked : (P : Partition) → Ctx P.Flash → Type 0
IsMarked P c =
    choose_region (active_generation_of (header_of_region P 0 c))
      (active_generation_of (header_of_region P 1 c))
    ≡ some (c.active_region, c.active_generation)

-- What the code can replay from its flash is what it has in memory.
pub record IsLogged (P : Partition) (size : ℕ) (byte : P.Flash → ℕ → ℕ) (c : Ctx P.Flash)
    : Type 0 where
  pub scanned : ScanState
  pub held :
      Holds
        (byte c.flash)
        (region_offset P c c.active_region)
        c.region_size
        c.index_capacity
        c.data_start
        scanned
  pub off_is : scanned.off ≡ c.cursor
  pub seq_is : scanned.max_seq_seen + 1 ≡ c.next_seq
  pub seq_fits : c.next_seq < 2 ^ 32
  pub index_is : scanned.index ≡ c.index
  pub gc_is : scanned.awaiting_gc_count ≡ c.awaiting_gc_count
  pub entries_fit : All (λ (e : Entry). IsFitFields (fields_of e)) c.index
  pub marked : IsMarked P c
  pub distinct : IsDistinct c.index
  pub placed : IsPlaced size c

-- The context that edgesync_flashq_create makes after a power loss over the same partition.
abbrev pub rebooted : {F : Type 0} → Ctx F → Ctx F
rebooted c = record c {
  active_region = 0;
  active_generation = 0;
  cursor = 0;
  next_seq = 0;
  index = [];
  compactions_total = 0;
  awaiting_gc_count = 0;
  updates_since_compaction = 0;
}

-- What lies at `off` is no record: its header is not accepted, or a body inside the region has another CRC.
abbrev pub IsRejected : (ℕ → ℕ) → ℕ → ℕ → ℕ → Type 0
IsRejected b base region_size off =
    (decode_header (bytes_from b (base + off) hdr_size) ≡ none)
    ⊎ ((hdr : Header) × (decode_header (bytes_from b (base + off) hdr_size) ≡ some hdr)
        × (off + hdr_size + body_size hdr ≤ region_size)
        × (verify_body hdr (bytes_from b (base + off + hdr_size) (body_size hdr)) ≡ false))
