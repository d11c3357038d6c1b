-- ===== src/Flashq/Partition.antt =====
-- The partition API of ESP-IDF (esp_partition_read, esp_partition_write, esp_partition_erase_range),
-- which the backend calls and does not implement: a parameter of the model. `Flash` is what the
-- partition holds; a call returns whether it gave ESP_OK, and a failed write or erase may have
-- changed the contents.
use edgesync_espidf.Prelude.{ℕ, Bool, Option, List}

pub record Partition : Type 1 where
  pub Flash : Type 0
  -- `read f offset len`
  pub read : Flash → ℕ → ℕ → Option (List ℕ)
  -- `write f offset bytes`
  pub write : Flash → ℕ → List ℕ → Bool × Flash
  -- `erase f offset len`
  pub erase : Flash → ℕ → ℕ → Bool × Flash
