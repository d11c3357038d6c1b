-- ===== src/Nvs/Slots/Reach.antt =====
-- The slots in every state that the calls of the backend can reach.
use edgesync_espidf.Prelude.{ℕ, refl, Bool, false, List, [], ◌∷◌, length-replicate, arith}
use edgesync_espidf.Types.{EspErr, Message, OverflowPolicy}
use edgesync_espidf.Action.{state_of}
use edgesync_espidf.Nvs.{Nvs, Ctx}
use edgesync_espidf.Nvs.Create.{context_of}
use edgesync_espidf.Nvs.Ops.{
  enqueue, claim_next, mark_delivered, schedule_retry, find_drop_candidate,
}
use edgesync_espidf.Nvs.Recovery.{recover}
use edgesync_espidf.Nvs.Frame.Calls.{
  claim_next-Frames, schedule_retry-Frames, find_drop_candidate-Frames,
}
use edgesync_espidf.Nvs.Slots.{IsSlotted, is_used-replicate, owners}
use edgesync_espidf.Nvs.Slots.Run.{
  Slots-state, Slots-KeptIn, enqueue-Slots, mark_delivered-Slots, recover-Slots,
}

-- A call of s_nvs_ops that can change the state; `remove` is `mark_delivered`.
pub data Call : Type 0 where
  recovers : Call
  enqueues : Message → Call
  claims : ℕ → Call
  delivers : ℕ → Call
  retries : ℕ → ℕ → Bool → EspErr → Call
  searches : OverflowPolicy → Call

module _ (N : Nvs) where
  open N use {Store}

  -- The state behind a call, whether it succeeds or fails.
  abbrev call : Call → Ctx Store → Ctx Store
  call Call.recovers c = state_of (recover N c)
  call (Call.enqueues m) c = state_of (enqueue N m c)
  call (Call.claims t) c = state_of (claim_next N t c)
  call (Call.delivers id) c = state_of (mark_delivered N id c)
  call (Call.retries id t dead e) c = state_of (schedule_retry N id t dead e c)
  call (Call.searches p) c = state_of (find_drop_candidate N p c)

  abbrev pub run_calls : List Call → Ctx Store → Ctx Store
  run_calls [] c = c
  run_calls (x ∷ xs) c = run_calls xs (call x c)

  call-IsSlotted : (x : Call) (c : Ctx Store) → IsSlotted c → IsSlotted (call x c)
  call-IsSlotted Call.recovers c h = Slots-state (recover N c) (recover-Slots N c)
  call-IsSlotted (Call.enqueues m) c h = Slots-state (enqueue N m c) (enqueue-Slots N m c h)
  call-IsSlotted (Call.claims t) c h =
      Slots-state (claim_next N t c) (Slots-KeptIn c _ ((claim_next-Frames N t).at c) h)
  call-IsSlotted (Call.delivers id) c h =
      Slots-state (mark_delivered N id c) (mark_delivered-Slots N id c h)
  call-IsSlotted (Call.retries id t dead e) c h =
      Slots-state (schedule_retry N id t dead e c)
        (Slots-KeptIn c _ ((schedule_retry-Frames N id t dead e).at c) h)
  call-IsSlotted (Call.searches p) c h =
      Slots-state (find_drop_candidate N p c)
        (Slots-KeptIn c _ ((find_drop_candidate-Frames N p).at c) h)

  calls-IsSlotted : (xs : List Call) (c : Ctx Store) → IsSlotted c → IsSlotted (run_calls xs c)
  calls-IsSlotted [] c h = h
  calls-IsSlotted (x ∷ xs) c h = calls-IsSlotted xs (call x c) (call-IsSlotted x c h)

  context_of-IsSlotted :
      (max_messages max_message_size : ℕ) (store : Store)
      → IsSlotted (context_of max_messages max_message_size store)
  unfolding context_of owners
  context_of-IsSlotted max_messages max_message_size store = record {
    owned = λ s. rw (is_used-replicate max_messages s) refl;
    marks = length-replicate max_messages false;
    fits = omega arith;
  }

  -- From the context that edgesync_nvs_storage_create makes, over any NVS, in any sequence of calls
  -- and whichever of their accesses fail: a slot is marked as used exactly if one entry of the index has it,
  -- so that two entries never share a slot and no slot is leaked, there is a mark for each of max_messages, and
  -- the index has at most index_capacity entries.
  pub calls_from_create-IsSlotted :
      (calls : List Call) (max_messages max_message_size : ℕ) (store : Store)
      → IsSlotted (run_calls calls (context_of max_messages max_message_size store))
  calls_from_create-IsSlotted calls max_messages max_message_size store =
      calls-IsSlotted calls _ (context_of-IsSlotted max_messages max_message_size store)
