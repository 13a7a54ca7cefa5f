-- ===== src/Deconz/Tx.antt =====
-- `Tx` of deconz/src/deconz.rs: the transmitting task puts a request on the serial line.
pub mod Round
use tophamm.Base.{ℕ_discrete, Option, ℕ, ◌≡◌, List, [], ◌++◌, map, Bytes, IsU8}
use tophamm.Outcome.{Build, ok, err, panic}
use tophamm.Deconz.Errors.{Result}
use tophamm.Deconz.Wire.External.{Byteorder}
use tophamm.Deconz.Protocol.Request.{Request, into_frame}
use tophamm.Deconz.Protocol.Request.Payload.{IsRequest}
use tophamm.Deconz.Protocol.Request.Frame.{request_frame, into_frame-request_frame}
use tophamm.Deconz.Protocol.Response.{Response}
use tophamm.Helpers.Awaiting.{Sent, register, finish_while}
use tophamm.Deconz.Slip.{crc16}
use tophamm.Deconz.Slip.Reader.{Answer, byte, returned, read_frame}
use tophamm.Deconz.Slip.Writer.{Sink, Action, write_frame}
use tophamm.Deconz.Slip.Writer.Encoded.{IsAccepting}
use tophamm.Deconz.Slip.RoundTrip.{IsClearCrc, read_frame-write_frame}

module _ ⦃bo : Byteorder⦄ {S : Type 0} (sink : Sink S) (build : Build) where
  abbrev write_result : Result Bytes → Action S
  write_result (ok frame) s = write_frame sink build frame s
  write_result (err e) s = (err e, s)
  write_result panic s = (panic, s)

  unfoldable pub send_request : ℕ → Request → Action S
  send_request sequence_id request s = write_result (into_frame build request sequence_id) s

  -- A round of the task's loop: `register_while` with the sending as its future. The message that a
  -- failure hands to a sender, if any, the senders that are left, and the sink.
  pub transmit :
      {N : Type 0}
      → ℕ
      → Request
      → N
      → List (ℕ × N)
      → S
      → Option (Sent N (Result Response)) × List (ℕ × N) × S
  unfolding send_request
  transmit sequence_id request sender awaiting s =
      let registered = register ℕ_discrete sequence_id sender awaiting in
      let (result, s') = send_request sequence_id request s in
      let (sent, awaiting') =
        finish_while {A = Response} ℕ_discrete sequence_id result registered in
      (sent, awaiting', s')

  -- On a sink that never fails and has accepted nothing yet, a request whose numbers fit their
  -- types, with at most 65507 bytes of data, is sent, provided that the checksum of its frame is
  -- computed and neither byte of the checksum is END or ESC: whoever reads the accepted bytes gets
  -- exactly the frame of the request, and the answers that follow are left.
  pub send_request-request_frame :
      (seq : ℕ) (request : Request) (crc : ℕ) (s : S) (rest : List Answer)
      → IsRequest request
      → IsU8 seq
      → IsAccepting sink
      → crc16 build (request_frame request seq) ≡ ok crc
      → IsClearCrc crc
      → sink.accepted s ≡ []
      → ((send_request seq request s).0 ≡ ok tt)
        × (read_frame build (map byte (sink.accepted (send_request seq request s).1) ++ rest)
            ≡ returned (ok (request_frame request seq)) rest)
  unfolding send_request
  send_request-request_frame seq request crc s rest h hs a e c start =
      rw (into_frame-request_frame build request seq h hs)
        (read_frame-write_frame sink build (request_frame request seq) crc s rest a e c start)
