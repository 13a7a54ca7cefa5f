-- ===== src/Deconz/Protocol/Request/Frame.antt =====
-- The frame that `into_frame` builds.
use tophamm.Base.{
  take, drop, ℕ, ◌+◌, ◌%◌, ◌^◌, ◌<◌, ◌≤◌, ◌≡◌, refl, Option, none, some, [], ◌∷◌, ◌++◌, Bytes,
  length, length-append, IsU8, arith,
}
use tophamm.Base.Little.{to_le_bytes, length-to_le_bytes}
use tophamm.Outcome.{Build, debug, ok, panic}
use tophamm.Deconz.Wire.Writing.{Write, ◌>>◌, Appends, >>-Appends, skip-Appends}
use tophamm.Deconz.Errors.{Error}
use tophamm.Deconz.Wire.External.{Byteorder}
use tophamm.Deconz.Wire.Laws.{write_u8-Appends, write_u16-Appends}
use tophamm.Deconz.Types.{ApsDataRequest}
use tophamm.Deconz.Protocol.Fields.{destination_wire_len}
use tophamm.Deconz.Protocol.Command.{command_byte}
use tophamm.Deconz.Protocol.Command.Bytes.{write_command_id-Appends}
use tophamm.Deconz.Protocol.Request.{
  Request, command_id, payload_len, frame_len, write_payload_len, write_frame, into_frame,
}
use tophamm.Deconz.Protocol.Request.Payload.{
  IsRequest, payload, payload_bytes, length-payload-lt, destination_wire_len-le, len_of,
  payload_len-payload, write_payload-Appends,
}

-- What follows the header: the payload behind its length, or nothing.
abbrev pub body : Option Bytes → Bytes
body none = []
body (some bytes) = to_le_bytes 2 (length bytes) ++ bytes

-- A frame of the protocol: the command, the sequence number, a status of zero, the number of bytes
-- of the whole frame, and the body.
unfoldable pub request_frame : Request → ℕ → Bytes
request_frame r sequence_id =
    command_byte (command_id r) ∷ sequence_id ∷ 0 ∷ to_le_bytes 2 (length (body (payload r)) + 5)
    ++ body (payload r)

frame_len-len_of :
    (build : Build) (o : Option Bytes)
    → length (payload_bytes o) + 7 < 2 ^ 16
    → frame_len build (len_of o) ≡ ok (length (body o) + 5)
unfolding frame_len
frame_len-len_of build none h = refl
frame_len-len_of build (some p) h =
    ground (arith, length-append (to_le_bytes 2 (length p)) p, length-to_le_bytes 2 (length p))

length-body : (o : Option Bytes) → length (body o) ≤ length (payload_bytes o) + 2
length-body none = omega arith
length-body (some p) =
    omega (arith, length-append (to_le_bytes 2 (length p)) p, length-to_le_bytes 2 (length p))

take_two : (v : ℕ) (rest : Bytes) → take 2 (to_le_bytes 2 v ++ rest) ≡ to_le_bytes 2 v
unfolding to_le_bytes
take_two v rest = refl

module _ ⦃bo : Byteorder⦄ where
  write_payload_len-Appends :
      (o : Option Bytes) (m : Write Error)
      → Appends m (payload_bytes o)
      → Appends (do write_payload_len (len_of o); m) (body o)
  unfolding write_payload_len
  write_payload_len-Appends none m h = >>-Appends _ _ [] [] skip-Appends h
  write_payload_len-Appends (some p) m h = >>-Appends _ _ _ _ (write_u16-Appends (length p)) h

  write_frame-Appends :
      (r : Request) (seq : ℕ)
      → IsRequest r
      → IsU8 seq
      → Appends
          (write_frame r seq (length (body (payload r)) + 5) (len_of (payload r)))
          (request_frame r seq)
  unfolding write_frame request_frame
  write_frame-Appends r seq h hs =
      >>-Appends _ _ (command_byte (command_id r) ∷ []) _ (write_command_id-Appends (command_id r))
        (>>-Appends _ _ (seq ∷ []) _ (write_u8-Appends seq hs) (
          >>-Appends _ _ (0 ∷ []) _ (write_u8-Appends 0 (omega arith)) (
            >>-Appends _ _ _ _ (write_u16-Appends _)
              (write_payload_len-Appends (payload r) _ (write_payload-Appends r h)))))

  -- In both build profiles, a request whose numbers fit their types and whose data, if it is a
  -- data request, is at most 65507 bytes long becomes, with a sequence number of eight bits,
  -- exactly the frame of the protocol: its command's byte, the sequence number, a zero status, the
  -- length of the frame, and the payload behind its length.
  pub into_frame-request_frame :
      (build : Build) (r : Request) (seq : ℕ)
      → IsRequest r
      → IsU8 seq
      → into_frame build r seq ≡ ok (request_frame r seq)
  unfolding into_frame
  into_frame-request_frame build r seq h hs = rw (
    payload_len-payload build r h,
    frame_len-len_of build (payload r) (length-payload-lt r h),
    write_frame-Appends r seq h hs [],
  )

  length-request_frame :
      (r : Request) (seq : ℕ) → length (request_frame r seq) ≡ length (body (payload r)) + 5
  unfolding request_frame
  length-request_frame r seq = omega (
    arith,
    length-append (to_le_bytes 2 (length (body (payload r)) + 5)) (body (payload r)),
    length-to_le_bytes 2 (length (body (payload r)) + 5),
  )

  request_frame_field :
      (r : Request) (seq : ℕ)
      → take 2 (drop 3 (request_frame r seq)) ≡ to_le_bytes 2 (length (request_frame r seq))
  request_frame_field r seq =
      rw (length-request_frame r seq)
        (unfold request_frame in take_two (length (body (payload r)) + 5) (body (payload r)))

  -- In both build profiles, for a request whose numbers fit their types, with at most 65507
  -- bytes of data, and a sequence number of eight bits, a frame comes out whose length fits sixteen
  -- bits, and the two bytes behind the status are that length.
  into_frame-length :
      (build : Build) (r : Request) (seq : ℕ)
      → IsRequest r
      → IsU8 seq
      → (frame : Bytes) × (into_frame build r seq ≡ ok frame)
        × (take 2 (drop 3 frame) ≡ to_le_bytes 2 (length frame))
        × (length frame < 2 ^ 16)
  into_frame-length build r seq h hs = (
    request_frame r seq,
    into_frame-request_frame build r seq h hs,
    request_frame_field r seq,
    omega (arith, length-request_frame r seq, length-body (payload r), length-payload-lt r h),
  )

  -- In a debug build, a request for data panics when 19, the length of its destination and the low
  -- sixteen bits of the length of its data come to 65536 or more.
  pub into_frame_overflow :
      (i seq : ℕ) (r : ApsDataRequest)
      → 2 ^ 16 ≤ 19 + destination_wire_len r.destination + length r.asdu % 2 ^ 16
      → into_frame debug (Request.aps_data_request i r) seq ≡ panic
  unfolding into_frame payload_len frame_len
  into_frame_overflow i seq r h = ground (arith, destination_wire_len-le r.destination)
