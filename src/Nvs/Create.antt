-- ===== src/Nvs/Create.antt =====
-- edgesync_nvs_storage_create.
use edgesync_espidf.Prelude.{
  ℕ, ◌⊎◌, inl, inr, Bool, false, Option, none, some, [], replicate, ◌==◌, if◌then◌else◌,
}
use edgesync_espidf.Types.{EspErr}
use edgesync_espidf.Format.{record_total_size, max_destination_len}
use edgesync_espidf.Nvs.{Ctx}

module _ {S : Type 0} where
  -- The context behind nvs_open; malloc's buffer is given its contents by its first use.
  unfoldable pub context_of : ℕ → ℕ → S → Ctx S
  context_of max_messages max_message_size store = record {
    store = store;
    max_messages = max_messages;
    max_message_size = max_message_size;
    slot_used = replicate max_messages false;
    index = [];
    index_capacity = max_messages;
    scratch_size = record_total_size max_destination_len max_message_size;
    scratch = replicate (record_total_size max_destination_len max_message_size) 0;
  }

  -- edgesync_nvs_storage_create: `opened` is the namespace that nvs_open gives; the first flag is
  -- whether the context could be allocated, the second whether its arrays and buffers could.
  unfoldable pub create : ℕ → ℕ → Bool → Option S → Bool → EspErr ⊎ Ctx S
  create max_messages max_message_size has_ctx opened has_buffers =
      if max_messages == 0
      then inl EspErr.invalid_arg
      else if has_ctx
      then elim opened [
        | none ↦ inl EspErr.storage_err
        | some store ↦
            if has_buffers
            then inr (context_of max_messages max_message_size store)
            else inl EspErr.no_mem
      ]
      else inl EspErr.no_mem
