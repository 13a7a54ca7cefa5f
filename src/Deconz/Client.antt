-- ===== src/Deconz/Client.antt =====
-- `Deconz` of deconz/src/deconz.rs: the calls of the library's users. What the channels answer
-- to a command is an argument; `awaited` is the await of a reply with its timeout.
use tophamm.Base.{
  ℕ, ◌<◌, ◌≡◌, Bool, true, false, if◌then◌else◌, ite, List, [], ◌∷◌, Option, none, some,
}
use tophamm.Outcome.{ok, err, ◌>>=◌}
use tophamm.Deconz.Types.{Version, Platform, DeviceState, ApsDataRequest, ApsDataConfirm}
use tophamm.Deconz.Errors.{Result, from_kind, from_elapsed, channel_error, unexpected_response}
use tophamm.Deconz.Protocol.Request.{Request}
use tophamm.Deconz.Protocol.Response.{Response, command_id}
use tophamm.Helpers.IncrementingId.{next}

-- What becomes of a command: the channel to the task is closed, no reply comes before the timeout,
-- the reply's sender is dropped, or a reply comes.
pub data Reply (A : Type 0) : Type 0 where
  closed elapsed dropped : Reply A
  replied : Result A → Reply A

reply_result : {A : Type 0} → Reply A → Result A
reply_result closed = err (from_kind channel_error)
reply_result elapsed = err from_elapsed
reply_result dropped = err (from_kind channel_error)
reply_result (replied result) = result

-- What comes back for the command that the transmitting task is sent.
abbrev pub Channel : Type 0
Channel = ℕ × Request → Reply Response

-- With the counter of the sequence ids behind the call.
unfoldable pub make_request : Channel → Request → ℕ → Result Response × ℕ
unfolding reply_result
make_request channel request sequence_ids =
    let (sequence_id, sequence_ids') = next sequence_ids in
    (reply_result (channel (sequence_id, request)), sequence_ids')

version_of : Response → Result (Version × Platform)
version_of (Response.version version platform) = ok (version, platform)
version_of response = err (from_kind (unexpected_response (command_id response)))

unfoldable device_state_of : Response → Result DeviceState
device_state_of (Response.device_state state) = ok state
device_state_of response = err (from_kind (unexpected_response (command_id response)))

pub version : Channel → ℕ → Result (Version × Platform) × ℕ
unfolding version_of
version channel sequence_ids =
    let (result, sequence_ids') = make_request channel Request.version sequence_ids in
    (result >>= version_of, sequence_ids')

unfoldable pub device_state : Channel → ℕ → Result DeviceState × ℕ
unfolding device_state_of
device_state channel sequence_ids =
    let (result, sequence_ids') = make_request channel Request.device_state sequence_ids in
    (result >>= device_state_of, sequence_ids')

-- The confirmation has no timeout; the request goes to the task of the requests under a request id.
unfoldable pub aps_data_request :
    (ℕ × ApsDataRequest → Reply ApsDataConfirm) → ApsDataRequest → ℕ → Result ApsDataConfirm × ℕ
unfolding reply_result
aps_data_request channel request request_ids =
    let (request_id, request_ids') = next request_ids in
    (reply_result (channel (request_id, request)), request_ids')

module _ {A S : Type 0} (name : Discrete S) where
  -- What a receiver without a timeout is told by the oneshot channel of a sender after these
  -- messages, the last one first. With no message, the wait ends only when the sender is dropped.
  abbrev pub held : S → List (S × Result A) → Reply A
  held s [] = dropped
  held s ((x, m) ∷ log) = ite (name x s) (replied m) (held s log)

-- `TIMEOUT`, in milliseconds.
abbrev pub timeout : ℕ
timeout = 500

-- What the code uses of tokio's `timeout`: whether the value is returned, by the duration and the
-- time after which the value comes. The laws are the documentation's: it is if it comes before the
-- duration has elapsed, and it is not if it comes after.
pub record Timer : Type 0 where
  pub in_time : ℕ → ℕ → Bool
  pub in_time-before : (duration time : ℕ) → time < duration → in_time duration time ≡ true
  pub in_time-after : (duration time : ℕ) → duration < time → in_time duration time ≡ false

-- The await of a reply, by when it comes, if it does.
abbrev pub awaited : {A : Type 0} → Timer → Option (ℕ × Result A) → Reply A
awaited timer none = elapsed
awaited timer (some (time, result)) = if timer.in_time timeout time then replied result else elapsed
