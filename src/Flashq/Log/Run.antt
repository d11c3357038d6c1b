-- ===== src/Flashq/Log/Run.antt =====
-- Sequences of calls of the flash queue between two compactions, with restarts among them.
use edgesync_espidf.Prelude.{ℕ, ◌^◌, ◌≤◌, ◌<◌, ◌≡◌, Bool, true, List, [], ◌∷◌}
use edgesync_espidf.Types.{EspErr, err_code, Message}
use edgesync_espidf.Action.{Res, ok, fail, state_of, succeeds}
use edgesync_espidf.Action.Outcome.{Ends}
use edgesync_espidf.Flashq.Partition.{Partition}
use edgesync_espidf.Flashq.Context.{Ctx}
use edgesync_espidf.Flashq.Create.{IsGeometry}
use edgesync_espidf.Flashq.Helpers.{region_hdr_size}
use edgesync_espidf.Flashq.Ops.{enqueue, claim_next, mark_delivered, remove_message, schedule_retry}
use edgesync_espidf.Flashq.Recovery.{start_fresh, recover}
use edgesync_espidf.Flashq.Nor.{IsNor}
use edgesync_espidf.Flashq.Log.{IsLogged, rebooted}
use edgesync_espidf.Flashq.Log.Update.{Fails}
use edgesync_espidf.Flashq.Log.Calls.{
  HasRoom, mark_delivered-IsLogged, remove_message-IsLogged, schedule_retry-IsLogged,
}
use edgesync_espidf.Flashq.Log.Claim.{claim_next-IsLogged}
use edgesync_espidf.Flashq.Log.Enqueue.{IsNew, enqueue-IsLogged}
use edgesync_espidf.Flashq.Log.Start.{start_fresh-IsLogged}
use edgesync_espidf.Flashq.Log.Scan.{IsCut, IsCut-idle}
use edgesync_espidf.Flashq.Log.Reboot.{HasRequeueRoom, recover-IsLogged}
use edgesync_espidf.Flashq.Log.Recover.{Restores, Excused, recover-Restores}

-- A call of s_flashq_ops that changes what is stored, or a restart.
pub data Call : Type 0 where
  enqueues : Message → Call
  claims : ℕ → Call
  delivers : ℕ → Call
  removes : ℕ → Call
  retries : ℕ → ℕ → Bool → EspErr → Call
  restarts : Call

Ends-succeeds :
    {S A : Type 0} (Q : S → Type 0) (E : EspErr → S → Type 0) (r : Res S A)
    → Ends (λ a d. Q d) E r
    → succeeds r ≡ true
    → Q (state_of r)
Ends-succeeds Q E (ok a c) h e = h
Ends-succeeds Q E (fail x c) h e = absurd (cc)

module _ (P : Partition) where
  open P use {Flash}

  -- The state behind a call.
  abbrev pub call : Call → Ctx Flash → Ctx Flash
  call (Call.enqueues m) c = state_of (enqueue P m c)
  call (Call.claims t) c = state_of (claim_next P t c)
  call (Call.delivers id) c = state_of (mark_delivered P id c)
  call (Call.removes id) c = state_of (remove_message P id c)
  call (Call.retries id t dead_letter x) c = state_of (schedule_retry P id t dead_letter x c)
  call Call.restarts c = state_of (recover P (rebooted c))

  -- The call returns ESP_OK, with arguments that fit the record and no compaction due. A message
  -- that is enqueued has an id of its own.
  abbrev pub Succeeds : Call → Ctx Flash → Type 0
  Succeeds (Call.enqueues m) c = IsNew m c × (succeeds (enqueue P m c) ≡ true)
  Succeeds (Call.claims t) c = (t < 2 ^ 64) × HasRoom c × (succeeds (claim_next P t c) ≡ true)
  Succeeds (Call.delivers id) c = HasRoom c × (succeeds (mark_delivered P id c) ≡ true)
  Succeeds (Call.removes id) c = HasRoom c × (succeeds (remove_message P id c) ≡ true)
  Succeeds (Call.retries id t dead_letter x) c =
      (t < 2 ^ 64)
      × (err_code x < 2 ^ 32)
      × HasRoom c
      × (succeeds (schedule_retry P id t dead_letter x c) ≡ true)
  Succeeds Call.restarts c = HasRequeueRoom P c × (succeeds (recover P (rebooted c)) ≡ true)

  abbrev pub run_calls : List Call → Ctx Flash → Ctx Flash
  run_calls [] c = c
  run_calls (x ∷ xs) c = run_calls xs (call x c)

  abbrev pub AllSucceed : List Call → Ctx Flash → Type 0
  AllSucceed [] c = Unit {0}
  AllSucceed (x ∷ xs) c = Succeeds x c × AllSucceed xs (call x c)

module _ (P : Partition) (size : ℕ) (byte : P.Flash → ℕ → ℕ) (nor : IsNor P size byte) where
  open P use {Flash}

  abbrev Logged : Ctx Flash → Type 0
  Logged c = IsLogged P size byte c

  call-IsLogged : (x : Call) (c : Ctx Flash) → Logged c → Succeeds P x c → Logged (call P x c)
  call-IsLogged (Call.enqueues m) c v (new, done) =
      Ends-succeeds Logged Fails (enqueue P m c) (enqueue-IsLogged P size byte nor m c v new) done
  call-IsLogged (Call.claims t) c v (time, room, done) =
      Ends-succeeds Logged Fails (claim_next P t c)
        (claim_next-IsLogged P size byte nor t c time v room) done
  call-IsLogged (Call.delivers id) c v (room, done) =
      Ends-succeeds Logged Fails (mark_delivered P id c)
        (mark_delivered-IsLogged P size byte nor id c v room) done
  call-IsLogged (Call.removes id) c v (room, done) =
      Ends-succeeds Logged Fails (remove_message P id c)
        (remove_message-IsLogged P size byte nor id c v room) done
  call-IsLogged (Call.retries id t dead_letter x) c v (time, code, room, done) =
      Ends-succeeds Logged Fails (schedule_retry P id t dead_letter x c)
        (schedule_retry-IsLogged P size byte nor id t dead_letter x c time code v room) done
  call-IsLogged Call.restarts c v (room, done) =
      Ends-succeeds Logged Fails (recover P (rebooted c))
        (recover-IsLogged P size byte nor c v room) done

  run_calls-IsLogged :
      (xs : List Call) (c : Ctx Flash) → Logged c → AllSucceed P xs c → Logged (run_calls P xs c)
  run_calls-IsLogged [] c v h = v
  run_calls-IsLogged (x ∷ xs) c v h =
      run_calls-IsLogged xs (call P x c) (call-IsLogged x c v h.0) h.1

  module _ (calls : List Call) (c : Ctx Flash) (geometry : IsGeometry size c)
      (small : size ≤ 2 ^ 31) (header_fits : region_hdr_size ≤ c.data_start)
      (started : succeeds (start_fresh P c) ≡ true)
      (done : AllSucceed P calls (state_of (start_fresh P c))) where
    reached-IsLogged : Logged (run_calls P calls (state_of (start_fresh P c)))
    reached-IsLogged =
        run_calls-IsLogged calls (state_of (start_fresh P c))
          (Ends-succeeds Logged Fails (start_fresh P c)
            (start_fresh-IsLogged P size byte nor c geometry small header_fits) started)
          done

    -- A NOR flash of at most 2 GiB, a fresh start of the flash queue, and then any calls that
    -- return ESP_OK, with arguments that fit their fields, new ids, and no compaction due, and any
    -- restarts between them that recover without one: what op_recover finds after a loss of power
    -- are the messages that were held, with all their fields but the offsets of the records,
    -- IN_FLIGHT ones PENDING again and due at once. It fails only if an erasure fails or there is
    -- an IN_FLIGHT message to write back.
    pub reboot-Restores :
        Ends
          (Restores P (run_calls P calls (state_of (start_fresh P c))))
          (Excused P (run_calls P calls (state_of (start_fresh P c))))
          (recover P (rebooted (run_calls P calls (state_of (start_fresh P c)))))
    reboot-Restores =
        recover-Restores P size byte nor (run_calls P calls (state_of (start_fresh P c)))
          reached-IsLogged (run_calls P calls (state_of (start_fresh P c))).flash
          (IsCut-idle P size byte nor (run_calls P calls (state_of (start_fresh P c)))
            reached-IsLogged)

    -- The same where the power is lost while a record is written: op_recover finds the messages of before the call,
    -- whatever part of the record lies in the free space, if it is not taken for a record: its header is
    -- not accepted, or its body inside the region has another CRC.
    pub cut-Restores :
        (f : Flash)
        → IsCut P byte (run_calls P calls (state_of (start_fresh P c))) f
        → Ends
            (Restores P (run_calls P calls (state_of (start_fresh P c))))
            (Excused P (run_calls P calls (state_of (start_fresh P c))))
            (recover P
              (record (rebooted (run_calls P calls (state_of (start_fresh P c)))) { flash = f }))
    cut-Restores f cut =
        recover-Restores P size byte nor (run_calls P calls (state_of (start_fresh P c)))
          reached-IsLogged f cut
