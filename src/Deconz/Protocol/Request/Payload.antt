-- ===== src/Deconz/Protocol/Request/Payload.antt =====
-- What `write_payload` appends, and that `payload_len` is its length.
use tophamm.Base.{
  ℕ, ◌+◌, ◌%◌, ◌^◌, ◌<◌, ◌≤◌, ◌≡◌, refl, Option, none, some, [], ◌∷◌, ◌++◌, Bytes, length,
  length-append, IsU8, arith,
}
use tophamm.Base.Little.{to_le_bytes, length-to_le_bytes}
use tophamm.Outcome.{Build, ok}
use tophamm.Deconz.Types.{ApsDataRequest, Destination}
use tophamm.Deconz.Wire.Writing.{Appends, ◌>>◌, >>-Appends, skip-Appends}
use tophamm.Deconz.Wire.External.{Byteorder}
use tophamm.Deconz.Wire.{write_u8, write_u16}
use tophamm.Deconz.Wire.Laws.{write_u8-Appends, write_u16-Appends}
use tophamm.Deconz.Wire.Wrapped.{
  write_endpoint-Appends, write_profile_id-Appends, write_cluster_id-Appends,
}
use tophamm.Deconz.Parameters.{Parameter, id, id_byte, wire_len}
use tophamm.Deconz.Parameters.RoundTrip.{
  IsInRange, parameter_bytes, write_parameter-Appends, length-parameter_bytes,
}
use tophamm.Deconz.Parameters.Identifier.{write_parameter_id-Appends}
use tophamm.Deconz.Protocol.Fields.{destination_wire_len}
use tophamm.Deconz.Protocol.Fields.Address.{
  IsDestination, destination_bytes, write_destination-Appends, length-destination_bytes,
}
use tophamm.Deconz.Protocol.Request.{
  extend, Request, payload_len, write_payload, write_aps_data_request,
}

-- The payload as the protocol has it; a command with no payload has no length field either.
unfoldable pub payload : Request → Option Bytes
payload Request.version = none
payload (Request.read_parameter p) = some (id_byte p ∷ [])
payload (Request.write_parameter p) = some (id_byte (id p) ∷ parameter_bytes p)
payload Request.device_state = none
payload Request.aps_data_indication = some (4 ∷ [])
payload (Request.aps_data_request request_id r) = some (
    request_id ∷ 0 ∷ destination_bytes r.destination
    ++ (to_le_bytes 2 r.profile_id.value
        ++ (to_le_bytes 2 r.cluster_id.value
            ++ (r.source_endpoint.value
                ∷ (to_le_bytes 2 (length r.asdu) ++ (r.asdu ++ (0x04 ∷ 0 ∷ [])))))))
payload Request.aps_data_confirm = some []

abbrev pub payload_bytes : Option Bytes → Bytes
payload_bytes none = []
payload_bytes (some bytes) = bytes

abbrev pub len_of : Option Bytes → Option ℕ
len_of none = none
len_of (some bytes) = some (length bytes)

pub record IsApsDataRequest (r : ApsDataRequest) : Type 0 where
  pub destination : IsDestination r.destination
  pub source_endpoint : IsU8 r.source_endpoint.value
  pub asdu : length r.asdu + 28 < 2 ^ 16

-- Every number fits its type, and the data of a data request is at most 65507 bytes long, so that
-- the frame's length fits sixteen bits with any destination.
abbrev pub IsRequest : Request → Type 0
IsRequest (Request.write_parameter p) = IsInRange p
IsRequest (Request.aps_data_request request_id r) = IsU8 request_id × IsApsDataRequest r
IsRequest _ = Unit {0}

wire_len-le : (p : Parameter) → wire_len p ≤ 8
unfolding wire_len
wire_len-le (Parameter.mac_address v) = omega arith
wire_len-le _ = omega arith

pub destination_wire_len-le : (d : Destination) → destination_wire_len d ≤ 9
unfolding destination_wire_len
destination_wire_len-le (Destination.group a) = omega arith
destination_wire_len-le _ = omega arith

length-aps_payload :
    (request_id : ℕ) (r : ApsDataRequest)
    → length (payload_bytes (payload (Request.aps_data_request request_id r)))
      ≡ 12 + destination_wire_len r.destination + length r.asdu
unfolding payload
length-aps_payload i r =
    simp (length-append, length-to_le_bytes, length-destination_bytes) (omega arith)

pub length-payload-lt :
    (r : Request) → IsRequest r → length (payload_bytes (payload r)) + 7 < 2 ^ 16
unfolding payload
length-payload-lt (Request.write_parameter p) h =
    omega (arith, wire_len-le p, length-parameter_bytes p)
length-payload-lt (Request.aps_data_request i r) h =
    omega (arith, h.1.asdu, destination_wire_len-le r.destination, length-aps_payload i r)
length-payload-lt _ h = omega arith

pub payload_len-payload :
    (build : Build) (r : Request) → IsRequest r → payload_len build r ≡ ok (len_of (payload r))
unfolding payload_len payload
payload_len-payload build Request.version h = refl
payload_len-payload build (Request.read_parameter p) h = refl
payload_len-payload build (Request.write_parameter p) h =
    ground (arith, wire_len-le p, length-parameter_bytes p)
payload_len-payload build Request.device_state h = refl
payload_len-payload build Request.aps_data_indication h = refl
payload_len-payload build (Request.aps_data_request i r) h =
    ground (arith, destination_wire_len-le r.destination, length-aps_payload i r)
payload_len-payload build Request.aps_data_confirm h = refl

module _ ⦃bo : Byteorder⦄ where
  -- The end of the payload: the length of the data, the data, the options and the radius.
  write_asdu-Appends :
      (asdu : Bytes)
      → Appends
          (do write_u16 (length asdu); extend asdu; write_u8 0x04; write_u8 0)
          (to_le_bytes 2 (length asdu) ++ (asdu ++ (0x04 ∷ 0 ∷ [])))
  write_asdu-Appends asdu = >>-Appends _ _ _ _ (write_u16-Appends (length asdu)) (
      >>-Appends _ _ asdu _ (λ w. refl)
        (>>-Appends _ _ (0x04 ∷ []) (0 ∷ []) (write_u8-Appends 0x04 (omega arith))
          (write_u8-Appends 0 (omega arith))))

  write_aps_data_request-Appends :
      (i : ℕ) (r : ApsDataRequest)
      → IsU8 i
      → IsApsDataRequest r
      → Appends
          (write_aps_data_request i r)
          (payload_bytes (payload (Request.aps_data_request i r)))
  unfolding write_aps_data_request payload
  write_aps_data_request-Appends i r hi h = >>-Appends _ _ (i ∷ []) _ (write_u8-Appends i hi) (
      >>-Appends _ _ (0 ∷ []) _ (write_u8-Appends 0 (omega arith)) (
        >>-Appends _ _ _ _ (write_destination-Appends r.destination h.destination) (
          >>-Appends _ _ _ _ (write_profile_id-Appends r.profile_id) (
            >>-Appends _ _ _ _ (write_cluster_id-Appends r.cluster_id) (
              >>-Appends _ _ (r.source_endpoint.value ∷ []) _
                (write_endpoint-Appends r.source_endpoint h.source_endpoint)
                (rw fits (write_asdu-Appends r.asdu)))))))
    where
      fits : length r.asdu % 2 ^ 16 ≡ length r.asdu
      fits = omega (arith, h.asdu)

  pub write_payload-Appends :
      (r : Request) → IsRequest r → Appends (write_payload r) (payload_bytes (payload r))
  unfolding write_payload payload
  write_payload-Appends Request.version h = skip-Appends
  write_payload-Appends (Request.read_parameter p) h = write_parameter_id-Appends p
  write_payload-Appends (Request.write_parameter p) h =
      >>-Appends _ _ (id_byte (id p) ∷ []) _ (write_parameter_id-Appends (id p))
        (write_parameter-Appends p h)
  write_payload-Appends Request.device_state h = skip-Appends
  write_payload-Appends Request.aps_data_indication h = write_u8-Appends 4 (omega arith)
  write_payload-Appends (Request.aps_data_request i r) (hi, h) =
      write_aps_data_request-Appends i r hi h
  write_payload-Appends Request.aps_data_confirm h = skip-Appends
