-- ===== src/Deconz/Library/Line/Frames.antt =====
-- What a reader on the other end of the serial line gets in a run of the library.
use tophamm.Base.{
  ℕ, zero, suc, ◌≡◌, ◌<◌, refl, sym, ◌∙◌, ap, append_assoc, append-nil, All, List, [], ◌∷◌, ◌++◌,
  length, map, Option, none, some, Bytes, IsU8,
}
use mathlib.Core.List.{map-append}
use tophamm.Outcome.{Build, ok}
use tophamm.Deconz.Errors.{Result}
use tophamm.Deconz.Wire.External.{Byteorder}
use tophamm.Deconz.Protocol.Request.{Request}
use tophamm.Deconz.Protocol.Request.Payload.{IsRequest}
use tophamm.Deconz.Protocol.Request.Frame.{request_frame, into_frame-request_frame}
use tophamm.Deconz.Slip.{crc16}
use tophamm.Deconz.Slip.Reader.{Answer, Progress, byte, returned, waiting, read_frame}
use tophamm.Deconz.Slip.Writer.Encoded.{IsAccepting, slip_frame, write_frame_succeeds}
use tophamm.Deconz.Slip.RoundTrip.{IsClearCrc, read_frame-slip_frame}
use tophamm.Deconz.Tx.{send_request}
use tophamm.Calls.{Item}
use tophamm.Calls.Totals.{taken-IsU8}
use tophamm.Deconz.Library.Queues.{Runs-Queues}
use tophamm.Deconz.Library.Line.{sends, line-sends}
use tophamm.Deconz.Library.{External, Library, Event, idle, start, Runs}

abbrev put_first :
    Result Bytes
    → Option (List (Result Bytes) × List Answer)
    → Option (List (Result Bytes) × List Answer)
put_first result none = none
put_first result (some (results, rest)) = some (result ∷ results, rest)

abbrev then_read :
    (List Answer → Option (List (Result Bytes) × List Answer))
    → Progress
    → Option (List (Result Bytes) × List Answer)
then_read k (returned result rest) = put_first result (k rest)
then_read k (waiting frame escaped) = none

-- So many calls of `read_frame`, one after the other: what they return, and the answers that are
-- left. Nothing, when one of them waits.
unfoldable pub read_frames : Build → ℕ → List Answer → Option (List (Result Bytes) × List Answer)
read_frames build zero answers = some ([], answers)
read_frames build (suc n) answers =
    then_read (λ rest. read_frames build n rest) (read_frame build answers)

module _ ⦃bo : Byteorder⦄ {S : Type 0} where
  abbrev pub frame_of : Item Request S → Bytes
  frame_of item = request_frame item.1 item.0

  -- The numbers of the request fit their types, its data is at most 65507 bytes long, and the
  -- checksum of its frame is computed and neither of its bytes is END or ESC.
  pub record IsSendable (build : Build) (item : Item Request S) : Type 0 where
    pub request : IsRequest item.1
    pub crc : ℕ
    pub checksum : crc16 build (frame_of item) ≡ ok crc
    pub clear : IsClearCrc crc

module _ ⦃bo : Byteorder⦄ {S W C D Z : Type 0} (external : External S W C D Z) where
  open external use {build, sink, commands}

  send_request-accepted :
      (item : Item Request S) (z : Z) (k : IsSendable build item)
      → IsU8 item.0
      → IsAccepting sink
      → sink.accepted (send_request sink build item.0 item.1 z).1
        ≡ sink.accepted z ++ slip_frame (frame_of item) k.crc
  unfolding send_request
  send_request-accepted (q, request, s) z k h a =
      rw (into_frame-request_frame build request q k.request h)
        (write_frame_succeeds sink a build (request_frame request q) k.crc z k.checksum).1

  -- What the sink accepts on top when commands are sent to it, read call by call.
  AreRead : List (Item Request S) → Z → Type 0
  AreRead items z =
      (bytes : Bytes) × (sink.accepted (sends external items z) ≡ sink.accepted z ++ bytes)
      × ((rest : List Answer)
          → read_frames build (length items) (map byte bytes ++ rest)
            ≡ some (map (λ (i : Item Request S). ok (frame_of i)) items, rest))

  sends-AreRead :
      (items : List (Item Request S)) (z : Z)
      → All (IsSendable build) items
      → All (λ (i : Item Request S). i.0 < 256) items
      → IsAccepting sink
      → AreRead items z
  unfolding AreRead read_frames
  sends-AreRead [] z k h a = ([], sym (append-nil _), λ rest. refl)
  sends-AreRead (item ∷ items) z (k, ks) (h, hs) a =
      let first = slip_frame (frame_of item) k.crc in
      let (bytes, accepted, read) =
        sends-AreRead items (send_request sink build item.0 item.1 z).1 ks hs a in
      (
        first ++ bytes,
        accepted
            ∙ ap (λ (w : Bytes). w ++ bytes) (send_request-accepted item z k h a)
            ∙ append_assoc _ first bytes,
        λ rest.
            rw
              (
                map-append byte first,
                append_assoc (map byte first) (map byte bytes) rest,
                read_frame-slip_frame build (frame_of item) k.crc (map byte bytes ++ rest)
                    k.checksum k.clear,
                read rest,
              )
              refl,
      )

  -- On a sink that never fails and has accepted nothing at the start, whenever the transmitting
  -- task waits for a command, in any run in which the commands that were taken are requests whose
  -- numbers fit their types, with at most 65507 bytes of data if they are data requests, and the
  -- checksums of their frames are computed, with no byte END or ESC: whoever reads the accepted
  -- bytes, one frame for each command taken, gets exactly the frames of those commands, in the
  -- order of taking, and the answers that follow are left.
  pub read_frames-line :
      {y : Library S W C D Z} {es : List (Event S)} (line : Z) (rest : List Answer)
      → Runs external (start external line) es y
      → y.sending ≡ idle
      → IsAccepting sink
      → sink.accepted line ≡ []
      → All (IsSendable build) y.commands.taken
      → read_frames build (length y.commands.taken) (map byte (sink.accepted y.line) ++ rest)
        ≡ some (map (λ (i : Item Request S). ok (frame_of i)) y.commands.taken, rest)
  unfolding AreRead start
  read_frames-line {y} line rest r h a e k =
      let small = taken-IsU8 commands (Runs-Queues external r).0 in
      let (bytes, accepted, read) = sends-AreRead y.commands.taken line k small a in
      rw (line-sends external line r h, accepted, e) (read rest)
