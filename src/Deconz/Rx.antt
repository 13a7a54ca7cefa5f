-- ===== src/Deconz/Rx.antt =====
-- `Rx` of deconz/src/deconz.rs: what the receiving task does with one frame. What it tells the
-- watch channel and a oneshot sender is in its result; a sender is a name `S`.
pub mod Dispatch
pub mod Task
use tophamm.Base.{
  ℕ, ℕ_discrete, not, Bool, true, false, List, [], ◌∷◌, Option, none, some, Bytes, if◌then◌else◌,
}
use tophamm.Outcome.{Build, ok, err, panic}
use tophamm.Deconz.Types.{DeviceState}
use tophamm.Deconz.Errors.{Result, from_kind, unsolicited_response}
use tophamm.Deconz.Wire.External.{Byteorder}
use tophamm.Deconz.Protocol.Response.{Response, solicited, state_of, from_frame}
use tophamm.Helpers.Awaiting.{deregister}

-- The oneshot senders of the pending requests by sequence id.
abbrev pub Pending : Type 0 → Type 0
Pending S = List (ℕ × S)

pub record Processed (S : Type 0) : Type 0 where
  pub result : Result (Unit {0})
  pub awaiting : Pending S
  -- `watch::Sender::broadcast`
  pub broadcast : Option DeviceState
  -- `oneshot::Sender::send`
  pub sent : Option (S × Result Response)

-- `frame[1]`
unfoldable pub second : Bytes → Option ℕ
second [] = none
second (b ∷ []) = none
second (b ∷ c ∷ rest) = some c

module _ {S : Type 0} where
  abbrev crashed : Pending S → Processed S
  crashed awaiting = record { result = panic; awaiting = awaiting; broadcast = none; sent = none }

  abbrev answer : ℕ → Result Response → Option DeviceState → Option S × Pending S → Processed S
  answer sequence_id result broadcast (none, awaiting) = record {
    result = err (from_kind (unsolicited_response sequence_id));
    awaiting = awaiting;
    broadcast = broadcast;
    sent = none;
  }
  answer sequence_id result broadcast (some sender, awaiting) = record {
    result = ok tt;
    awaiting = awaiting;
    broadcast = broadcast;
    sent = some (sender, result);
  }

  unfoldable pub handle : ℕ → Result Response → Pending S → Processed S
  handle sequence_id (ok response) awaiting =
      if not (solicited response)
      then record {
        result = ok tt;
        awaiting = awaiting;
        broadcast = state_of response;
        sent = none;
      }
      else answer sequence_id (ok response) (state_of response)
          (deregister ℕ_discrete sequence_id awaiting)
  handle sequence_id (err e) awaiting =
      answer sequence_id (err e) none (deregister ℕ_discrete sequence_id awaiting)
  handle sequence_id panic awaiting = crashed awaiting

module _ ⦃bo : Byteorder⦄ {S : Type 0} where
  unfoldable pub process_at : Build → Bytes → Option ℕ → Pending S → Processed S
  process_at build frame none awaiting = crashed awaiting
  process_at build frame (some sequence_id) awaiting =
      handle sequence_id (from_frame build frame) awaiting

  unfoldable pub process_frame : Build → Bytes → Pending S → Processed S
  process_frame build frame awaiting = process_at build frame (second frame) awaiting
