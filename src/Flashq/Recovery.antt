-- ===== src/Flashq/Recovery.antt =====
-- op_recover: the choice of the active region, and its scan or the start of a fresh one.
pub mod Choice
pub mod Requeued
pub mod Replayed
use edgesync_espidf.Prelude.{
  ℕ, ◌-◌, Bool, not, ◌&&◌, ◌||◌, Option, none, some, [], ◌∷◌, leb, ◌==◌, if◌then◌else◌,
}
use edgesync_espidf.Format.{hdr_magic}
use edgesync_espidf.Flashq.Partition.{Partition}
use edgesync_espidf.Flashq.Context.{Ctx, ok, fail, M, ◌>>=◌, ◌>>◌, gets, modify}
use edgesync_espidf.Flashq.Helpers.{
  RegionHeader, region_header_bytes, region_offset, status_active, status_compacting, status_stale,
  region_header_read, partition_write_verify, erase_region, ensure_region_erased,
}
use edgesync_espidf.Flashq.Scan.{scan_region}

-- `valid[i]`, for a header that was read: not blank, with the magic and a known status.
abbrev pub is_valid : RegionHeader → Bool → Bool
is_valid hdr blank =
    not blank
    && ((hdr.magic == hdr_magic)
        && ((hdr.status == status_active)
            || ((hdr.status == status_compacting) || (hdr.status == status_stale))))

-- The generation of a region that is valid and ACTIVE.
unfoldable pub active_generation_of : Option (RegionHeader × Bool) → Option ℕ
active_generation_of none = none
active_generation_of (some (hdr, blank)) =
    if is_valid hdr blank && (hdr.status == status_active) then some hdr.generation else none

-- `chosen`, with the generation of the chosen region.
unfoldable pub choose_region : Option ℕ → Option ℕ → Option (ℕ × ℕ)
choose_region (some g0) (some g1) = if leb g1 g0 then some (0, g0) else some (1, g1)
choose_region (some g0) none = some (0, g0)
choose_region none (some g1) = some (1, g1)
choose_region none none = none

module _ (P : Partition) where
  open P use {Flash}

  -- The header of a region, or `none` if it could not be read.
  unfoldable pub header_of_region : ℕ → Ctx Flash → Option (RegionHeader × Bool)
  header_of_region region ctx = elim (region_header_read P region ctx) [
    | ok h c ↦ some h
    | fail e c ↦ none
  ]

  -- The branch with no ACTIVE region.
  unfoldable pub start_fresh : M Flash (Unit {0})
  start_fresh = do
    erase_region P 0
    erase_region P 1
    base ← gets (λ c. region_offset P c 0)
    partition_write_verify P base (
        region_header_bytes (record {
          magic = hdr_magic;
          generation = 1;
          status = status_active;
          reserved = 0 ∷ 0 ∷ 0 ∷ [];
        }))
    modify (λ c. record c {
      index = [];
      cursor = c.data_start;
      next_seq = 1;
      active_region = 0;
      active_generation = 1;
      awaiting_gc_count = 0;
      compactions_total = 0;
    })

  -- The branch with an ACTIVE region: the other one is erased, and this one is scanned.
  unfoldable pub resume : ℕ × ℕ → M Flash (Unit {0})
  resume (chosen, generation) = do
    ensure_region_erased P (1 - chosen)
    scan_region P chosen generation

  -- op_recover
  unfoldable pub recover : M Flash (Unit {0})
  recover ctx =
      elim (choose_region (active_generation_of (header_of_region 0 ctx))
        (active_generation_of (header_of_region 1 ctx))) [
          | none ↦ start_fresh ctx
          | some chosen ↦ resume chosen ctx
        ]
