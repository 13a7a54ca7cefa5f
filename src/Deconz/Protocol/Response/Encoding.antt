-- ===== src/Deconz/Protocol/Response/Encoding.antt =====
-- The frames in which the adapter sends its responses, written independently of the code that
-- reads them.
use tophamm.Base.{ℕ, ◌+◌, ◌^◌, ◌<◌, [], ◌∷◌, ◌++◌, Bytes, length, IsU16, IsU64}
use tophamm.Base.Little.{to_le_bytes}
use tophamm.Deconz.Types.{DestinationAddress, SourceAddress, ApsDataIndication, ApsDataConfirm}
use tophamm.Deconz.Parameters.{id, id_byte}
use tophamm.Deconz.Parameters.RoundTrip.{IsInRange, parameter_bytes}
use tophamm.Deconz.Protocol.Command.{command_byte}
use tophamm.Deconz.Protocol.Fields.State.{state_byte}
use tophamm.Deconz.Protocol.Fields.Firmware.{platform_byte, IsPlatform}
use tophamm.Deconz.Protocol.Fields.Address.{IsDestination, destination_bytes}
use tophamm.Deconz.Protocol.Response.{Response, command_id}

unfoldable pub mode_byte : DestinationAddress → ℕ
mode_byte (DestinationAddress.group a) = 0x1
mode_byte (DestinationAddress.nwk a) = 0x2
mode_byte (DestinationAddress.ieee a) = 0x3

unfoldable pub address_bytes : DestinationAddress → Bytes
address_bytes (DestinationAddress.group a) = to_le_bytes 2 a.value
address_bytes (DestinationAddress.nwk a) = to_le_bytes 2 a.value
address_bytes (DestinationAddress.ieee a) = to_le_bytes 8 a.value

-- The short address, then the extended one.
unfoldable pub source_bytes : SourceAddress → Bytes
source_bytes a = to_le_bytes 2 a.short.value ++ to_le_bytes 8 a.extended.value

unfoldable pub indication_bytes : ApsDataIndication → Bytes
indication_bytes i =
    mode_byte i.destination_address ∷ address_bytes i.destination_address
    ++ (i.destination_endpoint.value ∷ 0x4 ∷ source_bytes i.source_address
        ++ (i.source_endpoint.value ∷ to_le_bytes 2 i.profile_id.value
            ++ (to_le_bytes 2 i.cluster_id.value ++ (to_le_bytes 2 (length i.asdu) ++ i.asdu))))

unfoldable pub confirm_bytes : ApsDataConfirm → Bytes
confirm_bytes c = destination_bytes c.destination ++ (c.source_endpoint.value ∷ c.status ∷ [])

-- A payload behind its own length.
abbrev pub counted : Bytes → Bytes
counted bytes = to_le_bytes 2 (length bytes) ++ bytes

-- Version and device state responses carry no length of their payload. The second byte of a poll
-- is not used.
unfoldable pub response_body : Response → Bytes
response_body (Response.version v p) = platform_byte p ∷ v.minor ∷ v.major ∷ []
response_body (Response.parameter p) = counted (id_byte (id p) ∷ parameter_bytes p)
response_body (Response.write_parameter p) = counted (id_byte p ∷ [])
response_body (Response.device_state s) = state_byte s ∷ []
response_body (Response.device_state_changed s) = state_byte s ∷ []
response_body (Response.aps_data_indication s i) = counted (state_byte s ∷ indication_bytes i)
response_body (Response.aps_data_request s i) = counted (state_byte s ∷ i ∷ [])
response_body (Response.aps_data_confirm s i c) = counted (state_byte s ∷ i ∷ confirm_bytes c)
response_body (Response.mac_poll a) = counted (0x2 ∷ to_le_bytes 2 a)

-- The frame: command, sequence number, status, the frame's length and the body.
unfoldable pub response_frame : Response → ℕ → ℕ → Bytes
response_frame r sequence_id status =
    command_byte (command_id r)
      ∷ sequence_id
      ∷ status
      ∷ to_le_bytes 2 (length (response_body r) + 5)
    ++ response_body r

abbrev pub IsDestinationAddress : DestinationAddress → Type 0
IsDestinationAddress (DestinationAddress.group a) = IsU16 a.value
IsDestinationAddress (DestinationAddress.nwk a) = IsU16 a.value
IsDestinationAddress (DestinationAddress.ieee a) = IsU64 a.value

pub record IsIndication (i : ApsDataIndication) : Type 0 where
  pub destination_address : IsDestinationAddress i.destination_address
  pub short : IsU16 i.source_address.short.value
  pub extended : IsU64 i.source_address.extended.value
  pub profile_id : IsU16 i.profile_id.value
  pub cluster_id : IsU16 i.cluster_id.value
  pub asdu : IsU16 (length i.asdu)

-- The numbers fit the types of their fields.
abbrev pub IsFields : Response → Type 0
IsFields (Response.version v p) = IsPlatform p
IsFields (Response.parameter p) = IsInRange p
IsFields (Response.aps_data_indication s i) = IsIndication i
IsFields (Response.aps_data_confirm s i c) = IsDestination c.destination
IsFields (Response.mac_poll a) = IsU16 a
IsFields _ = Unit {0}

-- So do the fields, and the frame's length fits sixteen bits.
pub record IsResponse (r : Response) : Type 0 where
  pub fields : IsFields r
  pub fits : length (response_body r) + 5 < 2 ^ 16
