-- ===== src/Deconz/Aps.antt =====
-- deconz/src/aps.rs: the tasks that forward data requests, fetch confirmations and fetch
-- indications.
pub mod Confirmations
pub mod Slots
pub mod Indications
use tophamm.Base.{ℕ, ℕ_discrete, Bool, true, false, List, [], ◌∷◌, Option, none, some}
use tophamm.Outcome.{ok, err, panic, ◌>>=◌}
use tophamm.Deconz.Types.{ApsDataRequest, ApsDataConfirm, ApsDataIndication, DeviceState}
use tophamm.Deconz.Errors.{Error, Result, from_kind, unexpected_response, unsolicited_confirm}
use tophamm.Deconz.Protocol.Request.{Request}
use tophamm.Deconz.Protocol.Response.{Response, command_id}
use tophamm.Deconz.Client.{Channel, make_request}
use tophamm.Helpers.Awaiting.{Sent, returned, handed, register, send, finish_while}

-- The senders of the pending confirmations by request id.
abbrev pub Pending : Type 0 → Type 0
Pending S = List (ℕ × S)

-- `matches!(response, Response::ApsDataRequest { .. })`
forwarded : Response → Result (Unit {0})
forwarded (Response.aps_data_request state request_id) = ok tt
forwarded response = err (from_kind (unexpected_response (command_id response)))

pub forward_request : Channel → ℕ → ApsDataRequest → ℕ → Result (Unit {0}) × ℕ
unfolding forwarded
forward_request channel request_id request sequence_ids =
    let (result, sequence_ids') =
      make_request channel (Request.aps_data_request request_id request) sequence_ids in
    (result >>= forwarded, sequence_ids')

-- The state of `ApsRequests`, with the counter that it shares.
pub record Requests (S : Type 0) : Type 0 where
  pub request_free_slots : Bool
  pub awaiting : Pending S
  pub sequence_ids : ℕ

-- What wakes the loop: a device state, or a request with its id, its sender, and what comes back
-- for the command that forwards it.
pub data Event (S : Type 0) : Type 0 where
  device_state : DeviceState → Event S
  request : ℕ → ApsDataRequest → S → Channel → Event S

module _ {S : Type 0} where
  -- A message that a failed forward hands to a sender, if any.
  pub forward :
      Requests S
      → ℕ
      → ApsDataRequest
      → S
      → Channel
      → Option (Sent S (Result ApsDataConfirm)) × Requests S
  forward t id r sender channel =
      let registered = register ℕ_discrete id sender t.awaiting in
      let (result, sequence_ids) = forward_request channel id r t.sequence_ids in
      let (sent, awaiting) = finish_while {A = ApsDataConfirm} ℕ_discrete id result registered in
      (
        sent,
        record { request_free_slots = false; awaiting = awaiting; sequence_ids = sequence_ids },
      )

  -- The branch of the requests is disabled while no slot is free: then the event is not taken.
  on_request : Bool → Requests S → ℕ → ApsDataRequest → S → Channel → Option (Requests S)
  unfolding forward
  on_request false t id r sender channel = none
  on_request true t id r sender channel = some (forward t id r sender channel).1

  unfoldable pub step : Event S → Requests S → Option (Requests S)
  unfolding on_request
  step (device_state d) t = some (record t { request_free_slots = d.data_request_free_slots })
  step (request id r sender channel) t = on_request t.request_free_slots t id r sender channel

  -- `let mut request_free_slots = false`
  unfoldable pub start : Pending S → ℕ → Requests S
  start awaiting sequence_ids = record {
    request_free_slots = false;
    awaiting = awaiting;
    sequence_ids = sequence_ids;
  }

unfoldable pub confirm_of : Response → Result (ℕ × ApsDataConfirm)
confirm_of (Response.aps_data_confirm state request_id confirm) = ok (request_id, confirm)
confirm_of response = err (from_kind (unexpected_response (command_id response)))

module _ {S : Type 0} where
  abbrev unclaimed : ℕ → Sent S (Result ApsDataConfirm) → Result (Unit {0})
  unclaimed request_id (returned result) = err (from_kind (unsolicited_confirm request_id))
  unclaimed request_id (handed sender result) = ok tt

  -- The result, the message that was handed to a sender, and the senders that are left.
  pub deliver :
      Result (ℕ × ApsDataConfirm)
      → Pending S
      → Result (Unit {0}) × Option (Sent S (Result ApsDataConfirm)) × Pending S
  deliver (ok (request_id, confirm)) awaiting =
      let (sent, rest) = send ℕ_discrete request_id (ok confirm) awaiting in
      (unclaimed request_id sent, some sent, rest)
  deliver (err e) awaiting = (err e, none, awaiting)
  deliver panic awaiting = (panic, none, awaiting)

  pub aps_data_confirm :
      Channel
      → ℕ
      → Pending S
      → Result (Unit {0}) × Option (Sent S (Result ApsDataConfirm)) × Pending S
  unfolding confirm_of deliver
  aps_data_confirm channel sequence_ids awaiting =
      deliver ((make_request channel Request.aps_data_confirm sequence_ids).0 >>= confirm_of)
        awaiting

unfoldable pub indication_of : Response → Result ApsDataIndication
indication_of (Response.aps_data_indication state indication) = ok indication
indication_of response = err (from_kind (unexpected_response (command_id response)))

unfoldable pub aps_data_indication : Channel → ℕ → Result ApsDataIndication × ℕ
unfolding indication_of
aps_data_indication channel sequence_ids =
    let (result, sequence_ids') = make_request channel Request.aps_data_indication sequence_ids in
    (result >>= indication_of, sequence_ids')
