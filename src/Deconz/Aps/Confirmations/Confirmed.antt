-- ===== src/Deconz/Aps/Confirmations/Confirmed.antt =====
-- A data request of the client, through the tasks of deconz/src/aps.rs and back.
use tophamm.Base.{
  ℕ, ℕ_discrete, ◌+◌, ◌%◌, ◌≡◌, refl, ◌∙◌, if_pos, true, List, [], ◌∷◌, none, All, All-append,
}
use tophamm.Outcome.{ok}
use tophamm.Deconz.Types.{ApsDataRequest, ApsDataConfirm, DeviceState}
use tophamm.Deconz.Client.{Reply, replied, Channel, aps_data_request, held}
use tophamm.Helpers.Awaiting.{lookup}
use tophamm.Helpers.Awaiting.Delivery.{Call, LeavesAlone, send_after_register, registers, sends}
use tophamm.Helpers.Awaiting.Delivery
use tophamm.Helpers.IncrementingId.{next}
use tophamm.Deconz.Aps.Confirmations.{
  Event, began, woken, Senders, step, run, fetched, calls, all_calls, run-run, step-run,
}

module _ {S : Type 0} where
  -- The event neither registers a sender for the request id nor sends to it.
  abbrev pub IsQuiet : ℕ → Event S → Type 0
  IsQuiet id e = All (LeavesAlone ℕ_discrete id) (calls e)

  all_calls-LeavesAlone :
      (id : ℕ) (es : List (Event S))
      → All (IsQuiet id) es
      → All (LeavesAlone ℕ_discrete id) (all_calls es)
  all_calls-LeavesAlone id [] h = tt
  all_calls-LeavesAlone id (e ∷ es) (h, hs) =
      All-append _ (calls e) (all_calls es) h (all_calls-LeavesAlone id es hs)

  -- The confirming task wakes up after a request was taken and other events have happened.
  abbrev pub confirming : ℕ → S → List (Event S) → DeviceState → ℕ → Channel → Senders S → Senders S
  confirming id sender es state sequence_ids channel p =
      step (woken state sequence_ids channel) (run es (step (began id sender) p))

  step-began :
      (id : ℕ) (sender : S) (p : Senders S)
      → step (began id sender) p ≡ Delivery.step ℕ_discrete (registers id sender) p
  unfolding step Delivery.step
  step-began id sender p = refl

  calls-fetched :
      (state : DeviceState) (sequence_ids : ℕ) (channel : Channel) (id : ℕ)
      (confirm : ApsDataConfirm)
      → state.data_confirm ≡ true
      → fetched channel sequence_ids ≡ ok (id, confirm)
      → calls {S = S} (woken state sequence_ids channel) ≡ sends id (ok confirm) ∷ []
  calls-fetched state sequence_ids channel id confirm c f = rw (c, f) refl

  -- The same as calls on the map.
  confirming-sends :
      (id : ℕ) (sender : S) (es : List (Event S)) (state : DeviceState) (sequence_ids : ℕ)
      (channel : Channel) (confirm : ApsDataConfirm) (p : Senders S)
      → state.data_confirm ≡ true
      → fetched channel sequence_ids ≡ ok (id, confirm)
      → confirming id sender es state sequence_ids channel p
        ≡ Delivery.step ℕ_discrete (sends id (ok confirm)) (
            Delivery.run ℕ_discrete
              (all_calls es)
              (Delivery.step ℕ_discrete (registers id sender) p))
  unfolding Delivery.run
  confirming-sends id sender es state sequence_ids channel confirm p c f =
      step-run (woken state sequence_ids channel) (run es (step (began id sender) p))
      ∙ rw
          (
            calls-fetched state sequence_ids channel id confirm c f,
            run-run es (step (began id sender) p),
            step-run (began id sender) p,
          )
          refl

  -- A request is registered under its id, other events follow that neither register nor send for
  -- that id, and then a device state wakes the confirming task and its command fetches the
  -- confirmation for the id. Then the request's sender is handed the confirmation, the last
  -- message of all, and the id is free.
  pub confirming-handed :
      (id : ℕ) (sender : S) (es : List (Event S)) (state : DeviceState) (sequence_ids : ℕ)
      (channel : Channel) (confirm : ApsDataConfirm) (p : Senders S)
      → All (IsQuiet id) es
      → state.data_confirm ≡ true
      → fetched channel sequence_ids ≡ ok (id, confirm)
      → ((confirming id sender es state sequence_ids channel p).1
          ≡ (sender, ok confirm) ∷ (run es (step (began id sender) p)).1)
        × (lookup ℕ_discrete id (confirming id sender es state sequence_ids channel p).0 ≡ none)
  confirming-handed id sender es state sequence_ids channel confirm (awaiting, log) h c f =
      rw
        (
          confirming-sends id sender es state sequence_ids channel confirm (awaiting, log) c f,
          run-run es (step (began id sender) (awaiting, log)),
          step-began id sender (awaiting, log),
        )
        (send_after_register ℕ_discrete id sender (ok confirm) (all_calls es) awaiting log
          (all_calls-LeavesAlone id es h))

  module _ (name : Discrete S) where
    -- What such a history leaves in the channel of the request.
    abbrev pub channel_of :
        S
        → List (Event S)
        → DeviceState
        → ℕ
        → Channel
        → Senders S
        → ℕ × ApsDataRequest
        → Reply ApsDataConfirm
    channel_of sender es state sequence_ids channel p (id, request) =
        held name sender (confirming id sender es state sequence_ids channel p).1

    -- A data request of the client returns the confirmation that the adapter hands out for it: its
    -- sender is registered under the next request id, any events follow that neither register nor
    -- send for that id, and then a device state that reports a confirmation wakes the confirming
    -- task, whose command is answered by the confirmation for the id.
    pub aps_data_request_confirmed :
        (request : ApsDataRequest) (id : ℕ) (sender : S) (es : List (Event S)) (state : DeviceState)
        (sequence_ids : ℕ) (channel : Channel) (confirm : ApsDataConfirm) (p : Senders S)
        → All (IsQuiet id) es
        → state.data_confirm ≡ true
        → fetched channel sequence_ids ≡ ok (id, confirm)
        → aps_data_request (channel_of sender es state sequence_ids channel p) request id
          ≡ (ok confirm, (id + 1) % 256)
    unfolding aps_data_request next
    aps_data_request_confirmed request id sender es state sequence_ids channel confirm p h c f =
        rw
          (
            (confirming-handed id sender es state sequence_ids channel confirm p h c f).0,
            if_pos (name sender sender) refl (replied (ok confirm))
                (held name sender (run es (step (began id sender) p)).1),
          )
          refl
