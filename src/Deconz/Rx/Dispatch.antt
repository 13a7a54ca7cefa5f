-- ===== src/Deconz/Rx/Dispatch.antt =====
-- What the receiving task makes of the adapter's frames.
use tophamm.Base.{
  ◌∙◌, ◌^◌, Option-cases, inl, inr, ℕ, ℕ_discrete, ◌+◌, ◌<◌, ◌≡◌, refl, true, ◌∷◌, none, some,
  Bytes, length, arith,
}
use tophamm.Outcome.{Build, ok, err}
use tophamm.Deconz.Errors.{Error, from_kind, unsolicited_response}
use tophamm.Deconz.Wire.External.{Byteorder}
use tophamm.Deconz.Protocol.Response.{Response, command_id, solicited, state_of, from_frame}
use tophamm.Deconz.Protocol.Response.Encoding.{response_body, response_frame, IsResponse}
use tophamm.Deconz.Protocol.Response.Decoding.{from_frame-response_frame}
use tophamm.Helpers.Awaiting.Map.{deregister_lem}
use tophamm.Deconz.Types.{DeviceState, ApsDataConfirm}
use tophamm.Deconz.Protocol.Command
use tophamm.Helpers.Awaiting.{lookup, remove}
use tophamm.Deconz.Rx.{Pending, second, handle, process_at, process_frame}

second-response_frame :
    (r : Response) (seq status : ℕ) → second (response_frame r seq status) ≡ some seq
unfolding second response_frame
second-response_frame r seq status = refl

notified_fits :
    (d : DeviceState) → length (response_body (Response.device_state_changed d)) + 5 < 2 ^ 16
unfolding response_body
notified_fits d = omega arith

confirm_silent :
    {S : Type 0} (d : DeviceState) (id : ℕ) (c : ApsDataConfirm) (seq : ℕ) (awaiting : Pending S)
    → (handle seq (ok (Response.aps_data_confirm d id c)) awaiting).broadcast ≡ none
unfolding handle solicited Command.solicited command_id state_of
confirm_silent d id c seq awaiting = elim (Option-cases (lookup ℕ_discrete seq awaiting)) [
  | inl e ↦ rw (deregister_lem ℕ_discrete seq awaiting) (rw e)
  | inr (s, e) ↦ rw (deregister_lem ℕ_discrete seq awaiting) (rw e)
]

module _ ⦃bo : Byteorder⦄ {S : Type 0} (build : Build) where
  pub process_frame_handles :
      (r : Response) (seq status : ℕ) (awaiting : Pending S)
      → IsResponse r
      → process_frame build (response_frame r seq status) awaiting ≡ handle seq (ok r) awaiting
  unfolding process_frame process_at
  process_frame_handles r seq status awaiting h =
      rw (second-response_frame r seq status) (rw (from_frame-response_frame build r seq status h))

  -- A well-formed response frame that answers a request, with the request's sender registered
  -- under its sequence number: that sender is handed the response, its number is free again, and
  -- the device state of the response, where it reports one, is broadcast.
  pub process_frame_answered :
      (r : Response) (seq status : ℕ) (awaiting : Pending S) (sender : S)
      → IsResponse r
      → solicited r ≡ true
      → lookup ℕ_discrete seq awaiting ≡ some sender
      → process_frame build (response_frame r seq status) awaiting ≡ record {
        result = ok tt;
        awaiting = remove ℕ_discrete seq awaiting;
        broadcast = state_of r;
        sent = some (sender, ok r);
      }
  unfolding handle
  process_frame_answered r seq status awaiting sender h s e =
      process_frame_handles r seq status awaiting h
      ∙ rw (s, deregister_lem ℕ_discrete seq awaiting) (rw e)

  -- A well-formed response frame whose sequence number nobody waits for, and that is no
  -- notification, is reported as unsolicited; its device state is broadcast all the same, and
  -- nobody is handed anything.
  process_frame_unsolicited :
      (r : Response) (seq status : ℕ) (awaiting : Pending S)
      → IsResponse r
      → solicited r ≡ true
      → lookup ℕ_discrete seq awaiting ≡ none
      → process_frame build (response_frame r seq status) awaiting ≡ record {
        result = err (from_kind (unsolicited_response seq));
        awaiting = remove ℕ_discrete seq awaiting;
        broadcast = state_of r;
        sent = none;
      }
  unfolding handle
  process_frame_unsolicited r seq status awaiting h s e =
      process_frame_handles r seq status awaiting h
      ∙ rw (s, deregister_lem ℕ_discrete seq awaiting) (rw e)

  -- A notification of a changed device state is broadcast and touches no pending request, even one
  -- with the same sequence number.
  pub process_frame_notified :
      (d : DeviceState) (seq status : ℕ) (awaiting : Pending S)
      → process_frame build (response_frame (Response.device_state_changed d) seq status) awaiting
        ≡ record { result = ok tt; awaiting = awaiting; broadcast = some d; sent = none }
  unfolding handle solicited Command.solicited command_id state_of
  process_frame_notified d seq status awaiting =
      process_frame_handles (Response.device_state_changed d) seq status awaiting
        (record { fields = tt; fits = notified_fits d })

  -- The device state that a well-formed confirm response carries is not broadcast, whoever waits
  -- for the response.
  pub process_frame_confirm :
      (d : DeviceState) (id seq status : ℕ) (c : ApsDataConfirm) (awaiting : Pending S)
      → IsResponse (Response.aps_data_confirm d id c)
      → (process_frame build
          (response_frame (Response.aps_data_confirm d id c) seq status)
          awaiting).broadcast
        ≡ none
  process_frame_confirm d id seq status c awaiting h =
      rw (process_frame_handles (Response.aps_data_confirm d id c) seq status awaiting h)
        (confirm_silent d id c seq _)

  -- When a frame of two bytes or more cannot be decoded, the error is handed to the sender that
  -- waits for its sequence number, the number is free again, and nothing is broadcast.
  pub process_frame_malformed :
      (command seq : ℕ) (rest : Bytes) (e : Error) (awaiting : Pending S) (sender : S)
      → from_frame build (command ∷ seq ∷ rest) ≡ err e
      → lookup ℕ_discrete seq awaiting ≡ some sender
      → process_frame build (command ∷ seq ∷ rest) awaiting ≡ record {
        result = ok tt;
        awaiting = remove ℕ_discrete seq awaiting;
        broadcast = none;
        sent = some (sender, err e);
      }
  unfolding process_frame process_at second handle
  process_frame_malformed command seq rest e awaiting sender d l =
      rw (d, deregister_lem ℕ_discrete seq awaiting) (rw l)
