-- ===== src/Deconz/Exchange.antt =====
-- The transmitting and the receiving task of deconz/src/deconz.rs on the map of senders that they
-- share. `register_while` of the transmitting task registers, then waits for the sending; frames
-- may be received in between, so that the two halves are events of their own.
pub mod Once
pub mod Reply
use tophamm.Base.{
  ◌≡◌, refl, ◌≡◌, Bool, true, false, ℕ, ℕ_discrete, List, [], ◌∷◌, ◌++◌, Option, none, some, Bytes,
}
use tophamm.Outcome.{ok, err, panic, Build}
use tophamm.Deconz.Errors.{Result}
use tophamm.Deconz.Wire.External.{Byteorder}
use tophamm.Deconz.Protocol.Response.{Response}
use tophamm.Helpers.Awaiting.{Sent, returned, handed, register, finish_while}
use tophamm.Deconz.Rx.{Pending, Processed, process_frame}

-- The transmitting task takes a command; the sending of a request ends with a result; the receiving
-- task has read a frame.
pub data Event (S : Type 0) : Type 0 where
  began : ℕ → S → Event S
  ended : ℕ → Result (Unit {0}) → Event S
  received : Bytes → Event S

-- Whether the receiving task still runs, the senders that wait, and what was handed to senders, the
-- last message first.
pub record Senders (S : Type 0) : Type 0 where
  pub running : Bool
  pub awaiting : Pending S
  pub log : List (S × Result Response)

-- A panic ends the receiving task.
abbrev pub goes_on : Result (Unit {0}) → Bool
goes_on (ok u) = true
goes_on (err e) = true
goes_on panic = false

module _ {S : Type 0} where
  -- `Deconz::new` gives both tasks one map, which is empty.
  unfoldable pub start : Senders S
  start = record { running = true; awaiting = []; log = [] }

  abbrev pub handed_over : Option (Sent S (Result Response)) → List (S × Result Response)
  handed_over none = []
  handed_over (some (returned message)) = []
  handed_over (some (handed sender message)) = (sender, message) ∷ []

  abbrev pub answered : Option (S × Result Response) → List (S × Result Response)
  answered none = []
  answered (some reply) = reply ∷ []

  abbrev pub received_as : Processed S → Senders S → Senders S
  received_as processed p = record {
    running = goes_on processed.result;
    awaiting = processed.awaiting;
    log = answered processed.sent ++ p.log;
  }

module _ ⦃bo : Byteorder⦄ {S : Type 0} (build : Build) where
  -- No frame is taken any more once the receiving task has ended.
  unfoldable pub step : Event S → Senders S → Senders S
  step (began sequence_id sender) p = record p {
    awaiting = register ℕ_discrete sequence_id sender p.awaiting;
  }
  step (ended sequence_id result) p =
      let (sent, awaiting) = finish_while {A = Response} ℕ_discrete sequence_id result p.awaiting in
      record { running = p.running; awaiting = awaiting; log = handed_over sent ++ p.log }
  step (received frame) p = elim p.running [
    | true ↦ received_as (process_frame build frame p.awaiting) p
    | false ↦ p
  ]

  unfoldable pub run : List (Event S) → Senders S → Senders S
  unfolding step
  run [] senders = senders
  run (e ∷ es) senders = run es (step e senders)

  pub run-append : (es fs : List (Event S)) (p : Senders S) → run (es ++ fs) p ≡ run fs (run es p)
  unfolding run
  run-append [] fs p = refl
  run-append (e ∷ es) fs p = run-append es fs (step e p)
