-- ===== src/Deconz/Rx/Task.antt =====
-- `Rx::task` of deconz/src/deconz.rs: the receiving task reads frames off the line for ever. The
-- list is what the line answers to its reads.
pub mod Line
pub mod Messages
pub mod Stopped
use tophamm.Base.{
  ℕ, refl, ◌≡◌, ◌⊎◌, inl, inr, Bool, true, false, List, [], ◌∷◌, ◌++◌, Option, none, some, Bytes,
}
use tophamm.Outcome.{Build, ok, err, panic}
use tophamm.Deconz.Types.{DeviceState}
use tophamm.Deconz.Errors.{Result}
use tophamm.Deconz.Wire.External.{Byteorder}
use tophamm.Deconz.Protocol.Response.{Response}
use tophamm.Deconz.Slip.Reader.{
  Answer, Progress, Round, returned, waiting, next, stop, round, read_loop,
}
use tophamm.Deconz.Rx.{Pending, Processed, process_frame}

-- What the task has told the watch channel and the oneshot senders, in order, the senders that are
-- left, and whether it still runs: a panic ends it.
pub record Served (S : Type 0) : Type 0 where
  pub running : Bool
  pub awaiting : Pending S
  pub broadcasts : List DeviceState
  pub sent : List (S × Result Response)

abbrev listed {ℓ} : {A : Type ℓ} → Option A → List A
listed none = []
listed (some a) = a ∷ []

module _ {S : Type 0} where
  abbrev pub idle : Pending S → Served S
  idle awaiting = record { running = true; awaiting = awaiting; broadcasts = []; sent = [] }

  abbrev pub stopped : Processed S → Served S
  stopped p = record {
    running = false;
    awaiting = p.awaiting;
    broadcasts = listed p.broadcast;
    sent = listed p.sent;
  }

  abbrev pub prepend : Processed S → Served S → Served S
  prepend p rest = record {
    running = rest.running;
    awaiting = rest.awaiting;
    broadcasts = listed p.broadcast ++ rest.broadcasts;
    sent = listed p.sent ++ rest.sent;
  }

  -- An error of `process_frame` is logged, and the loop goes on.
  abbrev pub conclude : Result (Unit {0}) → Processed S → Served S → Served S
  conclude (ok u) p rest = prepend p rest
  conclude (err e) p rest = prepend p rest
  conclude panic p rest = stopped p

module _ ⦃bo : Byteorder⦄ {S : Type 0} where
  -- A frame is processed, and an error of `read_frame` is logged.
  abbrev pub react : Build → Result Bytes → Pending S → Processed S
  react build (ok frame) awaiting = process_frame build frame awaiting
  react build (err e) awaiting = record {
    result = err e;
    awaiting = awaiting;
    broadcast = none;
    sent = none;
  }
  react build panic awaiting = record {
    result = panic;
    awaiting = awaiting;
    broadcast = none;
    sent = none;
  }

  -- The task in the middle of a frame: what the reader has of it, and whether an ESC came last.
  serve : Build → Bytes → Bool → List Answer → Pending S → Served S
  serve build frame escaped [] awaiting = idle awaiting
  serve build frame escaped (answer ∷ answers) awaiting = elim (round build frame escaped answer) [
    | next frame' escaped' ↦ serve build frame' escaped' answers awaiting
    | stop result ↦
        (let p = react build result awaiting in
          conclude p.result p (serve build [] false answers p.awaiting))
  ]

  pub task : Build → List Answer → Pending S → Served S
  unfolding serve
  task build answers awaiting = serve build [] false answers awaiting
