-- ===== src/Zdo/Transactions/Exchange.antt =====
-- The transmitting and the receiving task of tophamm/src/zdo/mod.rs on the map of senders that they
-- share. Each request has a task of its own, which registers and then waits for `aps_data_request`,
-- so that the two halves are events of their own.
pub mod Resolved
pub mod Stopped
pub mod History
use tophamm.Base.{ℕ, ℕ_discrete, Bool, true, false, List, [], ◌∷◌, ◌++◌, Option, none, some}
use tophamm.Outcome.{Outcome, ok, err, panic}
use tophamm.Deconz.Types.{ApsDataIndication, ApsDataConfirm}
use tophamm.Deconz.Errors
use tophamm.Helpers.Awaiting.{Sent, returned, handed, register, finish_while}
use tophamm.Zdo.Errors.{Result, from_deconz}
use tophamm.Zdo.Transactions.{on_indication}

-- The transmitting task takes a request; `aps_data_request` ends with a result; the receiving task
-- gets an indication.
pub data Event (S : Type 0) : Type 0 where
  began : ℕ → S → Event S
  ended : ℕ → Errors.Result ApsDataConfirm → Event S
  received : ApsDataIndication → Event S

-- Whether the receiving task still runs, the senders that wait, and what was handed to senders, the
-- last message first.
pub record Senders (S : Type 0) : Type 0 where
  pub running : Bool
  pub awaiting : List (ℕ × S)
  pub log : List (S × Result ApsDataIndication)

-- `register_while` drops a success and converts an error.
abbrev pub failure : Errors.Result ApsDataConfirm → Result (Unit {0})
failure (ok confirm) = ok tt
failure (err e) = err (from_deconz e)
failure panic = panic

module _ {S : Type 0} where
  -- `Zdo::new` starts both tasks on one map, which is empty.
  unfoldable pub start : Senders S
  start = record { running = true; awaiting = []; log = [] }

  abbrev pub handed_over : Sent S (Result ApsDataIndication) → List (S × Result ApsDataIndication)
  handed_over (returned message) = []
  handed_over (handed sender message) = (sender, message) ∷ []

  abbrev pub finished :
      Option (Sent S (Result ApsDataIndication)) × List (ℕ × S) → Senders S → Senders S
  finished (none, awaiting) p = record p { awaiting = awaiting }
  finished (some sent, awaiting) p = record {
    running = p.running;
    awaiting = awaiting;
    log = handed_over sent ++ p.log;
  }

  abbrev pub received_as :
      Result (Sent S (Result ApsDataIndication) × List (ℕ × S)) → Senders S → Senders S
  received_as (ok (sent, awaiting)) p = record {
    running = p.running;
    awaiting = awaiting;
    log = handed_over sent ++ p.log;
  }
  received_as (err e) p = record p { running = false }
  received_as panic p = record p { running = false }

  -- A panic ends the receiving task, and then no indication is taken any more.
  unfoldable pub step : Event S → Senders S → Senders S
  step (began id sender) p = record p { awaiting = register ℕ_discrete id sender p.awaiting }
  step (ended id result) p =
      finished (finish_while {A = ApsDataIndication} ℕ_discrete id (failure result) p.awaiting) p
  step (received indication) p = elim p.running [
    | true ↦ received_as (on_indication indication p.awaiting) p
    | false ↦ p
  ]

  unfoldable pub run : List (Event S) → Senders S → Senders S
  unfolding step
  run [] p = p
  run (e ∷ es) p = run es (step e p)
