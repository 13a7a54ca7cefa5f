-- ===== src/Deconz/Aps/Confirmations.antt =====
-- `ApsRequests` and `ApsConfirms` of deconz/src/aps.rs on the map of senders that they share. The
-- tasks run side by side: a registration, the end of a forward and a device state that wakes the
-- confirming task are events of their own.
pub mod Confirmed
pub mod Once
use tophamm.Base.{
  ℕ, ℕ_discrete, ◌≡◌, refl, sym, ◌∙◌, Bool-cases, inl, inr, Bool, true, false, List, [], ◌∷◌, ◌++◌,
  Option, none, some, if◌then◌else◌, arith,
}
use tophamm.Outcome.{ok, err, panic, ◌>>=◌}
use tophamm.Deconz.Types.{ApsDataConfirm, DeviceState}
use tophamm.Deconz.Errors.{Result}
use tophamm.Deconz.Client.{Channel, make_request}
use tophamm.Deconz.Protocol.Request.{Request}
use tophamm.Helpers.Awaiting.{Sent, returned, handed, register, finish_while}
use tophamm.Helpers.Awaiting.Delivery.{Call, registers, sends}
use tophamm.Helpers.Awaiting.Delivery
use tophamm.Deconz.Aps.{Pending, aps_data_confirm, confirm_of, deliver}

-- The forwarding task takes a request; a forward ends with a result; the confirming task sees a
-- device state, with the counter as it is then and what comes back for its command.
pub data Event (S : Type 0) : Type 0 where
  began : ℕ → S → Event S
  ended : ℕ → Result (Unit {0}) → Event S
  woken : DeviceState → ℕ → Channel → Event S

-- The senders that wait, and what was handed to senders, the last message first.
abbrev pub Senders : Type 0 → Type 0
Senders S = Pending S × List (S × Result ApsDataConfirm)

-- The confirmation that comes back for the command, if it is one.
abbrev pub fetched : Channel → ℕ → Result (ℕ × ApsDataConfirm)
fetched channel sequence_ids =
    (make_request channel Request.aps_data_confirm sequence_ids).0 >>= confirm_of

module _ {S : Type 0} where
  -- `Deconz::new` gives the tasks one map, which is empty.
  unfoldable pub start : Senders S
  start = ([], [])

  abbrev handed_over : Option (Sent S (Result ApsDataConfirm)) → List (S × Result ApsDataConfirm)
  handed_over none = []
  handed_over (some (returned message)) = []
  handed_over (some (handed sender message)) = (sender, message) ∷ []

  -- An error of `aps_data_confirm` is logged, and the loop goes on. No reply is a panic, so that
  -- the task does not end that way.
  unfoldable pub step : Event S → Senders S → Senders S
  step (began id sender) (awaiting, log) = (register ℕ_discrete id sender awaiting, log)
  step (ended id result) (awaiting, log) =
      let (sent, awaiting') = finish_while {A = ApsDataConfirm} ℕ_discrete id result awaiting in
      (awaiting', handed_over sent ++ log)
  step (woken state sequence_ids channel) (awaiting, log) =
      if state.data_confirm
      then (let (result, sent, awaiting') = aps_data_confirm channel sequence_ids awaiting in
          (awaiting', handed_over sent ++ log))
      else (awaiting, log)

  unfoldable pub run : List (Event S) → Senders S → Senders S
  unfolding step
  run [] senders = senders
  run (e ∷ es) senders = run es (step e senders)

  pub run-append : (es fs : List (Event S)) (p : Senders S) → run (es ++ fs) p ≡ run fs (run es p)
  unfolding run
  run-append [] fs p = refl
  run-append (e ∷ es) fs p = run-append es fs (step e p)

  abbrev pub sends_ended : ℕ → Result (Unit {0}) → List (Call ℕ S (Result ApsDataConfirm))
  sends_ended id (ok u) = []
  sends_ended id (err e) = sends id (err e) ∷ []
  sends_ended id panic = []

  abbrev pub sends_fetched : Result (ℕ × ApsDataConfirm) → List (Call ℕ S (Result ApsDataConfirm))
  sends_fetched (ok (id, confirm)) = sends id (ok confirm) ∷ []
  sends_fetched (err e) = []
  sends_fetched panic = []

  abbrev pub sends_woken :
      Bool → Result (ℕ × ApsDataConfirm) → List (Call ℕ S (Result ApsDataConfirm))
  sends_woken true result = sends_fetched result
  sends_woken false result = []

  -- The calls on the map that an event makes.
  abbrev pub calls : Event S → List (Call ℕ S (Result ApsDataConfirm))
  calls (began id sender) = registers id sender ∷ []
  calls (ended id result) = sends_ended id result
  calls (woken state sequence_ids channel) =
      sends_woken state.data_confirm (fetched channel sequence_ids)

  abbrev pub all_calls : List (Event S) → List (Call ℕ S (Result ApsDataConfirm))
  all_calls [] = []
  all_calls (e ∷ es) = calls e ++ all_calls es

  step_fetched :
      (result : Result (ℕ × ApsDataConfirm)) (awaiting : Pending S)
      (log : List (S × Result ApsDataConfirm))
      → ((deliver result awaiting).2, handed_over (deliver result awaiting).1 ++ log)
        ≡ Delivery.run ℕ_discrete (sends_fetched result) (awaiting, log)
  unfolding deliver Delivery.run
  step_fetched (ok (id, confirm)) awaiting log = ground arith
  step_fetched (err e) awaiting log = refl
  step_fetched panic awaiting log = refl

  pub step-run : (e : Event S) (p : Senders S) → step e p ≡ Delivery.run ℕ_discrete (calls e) p
  unfolding step Delivery.run finish_while aps_data_confirm
  step-run (began id sender) (awaiting, log) = refl
  step-run (ended id (ok u)) (awaiting, log) = refl
  step-run (ended id panic) (awaiting, log) = refl
  step-run (ended id (err e)) (awaiting, log) = ground arith
  step-run (woken state sequence_ids channel) (awaiting, log) =
      elim (Bool-cases state.data_confirm) [
        | inl e ↦ rw e (step_fetched (fetched channel sequence_ids) awaiting log)
        | inr e ↦ rw e refl
      ]

  pub run-run :
      (es : List (Event S)) (p : Senders S) → run es p ≡ Delivery.run ℕ_discrete (all_calls es) p
  unfolding run Delivery.run
  run-run [] p = refl
  run-run (e ∷ es) p = rw (step-run e p) (
      run-run es (Delivery.run ℕ_discrete (calls e) p)
      ∙ sym (Delivery.run-append ℕ_discrete (calls e) (all_calls es) p))
