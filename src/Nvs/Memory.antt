-- ===== src/Nvs/Memory.antt =====
-- An NVS namespace in memory, for the tests: each key has a blob or none.
use edgesync_espidf.Prelude.{
  ℕ, true, false, none, some, Option, List, [], ◌∷◌, length, leb, if◌then◌else◌,
}
use edgesync_espidf.Flashq.Helpers.{same_bytes}
use edgesync_espidf.Flashq.Memory.{first}
use edgesync_espidf.Nvs.{Nvs, Ctx, slot_key}
use edgesync_espidf.Nvs.Ops.{new_slot_entry}

abbrev pub Blobs : Type 0
Blobs = List ℕ → Option (List ℕ)

abbrev pub memory : Nvs
memory = record {
  Store = Blobs;
  get_length = λ s key. elim (s key) [ none ↦ none | some blob ↦ some (length blob) ];
  get_blob = λ s key len. elim (s key) [
    | none ↦ none
    | some blob ↦ if leb (length blob) len then some blob else none
  ];
  set_blob = λ s key blob. (true, λ k. if same_bytes k key then some blob else s k);
  commit = λ s. (true, s);
  erase_key = λ s key. (
    elim (s key) [ none ↦ false | some blob ↦ true ],
    λ k. if same_bytes k key then none else s k,
  );
  get_usage = λ s. some (126, 4);
}

-- The record of the first message in NVS.
abbrev pub first_blob : List ℕ
first_blob =
    71 ∷ 83 ∷ 68 ∷ 69 ∷ 0 ∷ 0 ∷ 0 ∷ 0 ∷ 1 ∷ 0 ∷ 1 ∷ 0 ∷ 7 ∷ 0 ∷ 0 ∷ 0 ∷ 0 ∷ 0 ∷ 0 ∷ 0 ∷ 0 ∷ 0 ∷ 0
    ∷ 0 ∷ 232 ∷ 3 ∷ 0 ∷ 0 ∷ 0 ∷ 0 ∷ 0 ∷ 0 ∷ 0 ∷ 0 ∷ 0 ∷ 0 ∷ 0 ∷ 0 ∷ 0 ∷ 0 ∷ 0 ∷ 0 ∷ 0 ∷ 0 ∷ 0 ∷ 0
    ∷ 0 ∷ 0 ∷ 0 ∷ 0 ∷ 0 ∷ 0 ∷ 3 ∷ 0 ∷ 2 ∷ 0 ∷ 0 ∷ 0 ∷ 189 ∷ 6 ∷ 60 ∷ 124 ∷ 97 ∷ 47 ∷ 98 ∷ 1 ∷ 2
    ∷ 171 ∷ 89 ∷ 103 ∷ 38 ∷ 0 ∷ []

-- A backend for at most two messages that holds the first.
abbrev pub one_entry : Ctx Blobs
one_entry = record {
  store = λ key. if same_bytes key (slot_key 0) then some first_blob else none;
  max_messages = 2;
  max_message_size = 128;
  slot_used = true ∷ false ∷ [];
  index = new_slot_entry first 0 ∷ [];
  index_capacity = 2;
  scratch_size = 260;
  scratch = [];
}
