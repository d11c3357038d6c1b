-- ===== src/Flashq/Memory.antt =====
-- A partition in memory, for the tests: NOR flash of some size, where a write can only clear bits.
use edgesync_espidf.Prelude.{
  ℕ, ◌+◌, ◌-◌, true, ◌&&◌, none, some, List, [], ◌∷◌, leb, ltb, bit_and, length, get_elem?,
  if◌then◌else◌,
}
use edgesync_espidf.Types.{Message, zero_message}
use edgesync_espidf.Format.{encode_message}
use edgesync_espidf.Flashq.Compaction.{scratch_of}
use edgesync_espidf.Flashq.Partition.{Partition}
use edgesync_espidf.Flashq.Nor.{bytes_from}
use edgesync_espidf.Flashq.Context.{Ctx}
use edgesync_espidf.Flashq.Ops.{new_entry}

abbrev byte_or : List ℕ → ℕ → ℕ → ℕ
byte_or bytes i d = elim (get_elem? bytes i) [ none ↦ d | some b ↦ b ]

abbrev pub memory_of : ℕ → Partition
memory_of size = record {
  Flash = ℕ → ℕ;
  read = λ f off len. if leb (off + len) size then some (bytes_from f off len) else none;
  write = λ f off bytes. (
    leb (off + length bytes) size,
    λ i.
        if leb off i && ltb i (off + length bytes)
        then bit_and (f i) (byte_or bytes (i - off) 255)
        else f i,
  );
  erase = λ f off len. (true, λ i. if leb off i && ltb i (off + len) then 255 else f i);
}

-- Four sectors.
abbrev pub memory : Partition
memory = memory_of 16384

-- Two messages for one destination.
abbrev pub first : Message
first = record zero_message {
  id = 7;
  destination = 97 ∷ 47 ∷ 98 ∷ [];
  priority = 1;
  created_at_us = 1000;
  payload_len = 2;
  payload = some (1 ∷ 2 ∷ []);
}

abbrev pub second : Message
second = record first { id = 9; priority = 2; created_at_us = 2000 }

-- A fresh backend for at most two messages, and one that holds the first.
abbrev pub blank : Ctx (ℕ → ℕ)
blank = record {
  flash = λ i. 255;
  region_size = 8192;
  data_start = 4096;
  data_capacity = 4096;
  active_region = 0;
  active_generation = 1;
  cursor = 4096;
  next_seq = 1;
  index = [];
  index_capacity = 2;
  max_message_size = 128;
  scratch_size = 260;
  compactions_total = 0;
  awaiting_gc_count = 0;
  updates_since_compaction = 0;
}

abbrev pub one_entry : Ctx (ℕ → ℕ)
one_entry = record blank {
  flash = λ i.
      if leb 4096 i then byte_or (scratch_of (encode_message 260 first 1)) (i - 4096) 255 else 255;
  cursor = 4168;
  next_seq = 2;
  index = new_entry first 4096 ∷ [];
}
