-- ===== src/Deconz/Protocol/Response.antt =====
-- `Response` of deconz/src/protocol.rs: its command, its device state, and how it is read from a
-- frame.
pub mod Encoding
pub mod Indication
pub mod Decoding
pub mod Framed
pub mod Cut
pub mod Modes
use tophamm.Base.{
  ℕ, ◌-◌, ltb, ◌==◌, if◌then◌else◌, Bool, Option, none, some, List, [], ◌++◌, Bytes, length, take,
  drop, replicate,
}
use tophamm.Outcome.{Outcome, Build, debug, release, ok, err, panic}
use tophamm.Outcome
use tophamm.Deconz.Types.{
  CommandId, ParameterId, Version, Platform, DeviceState, DestinationAddress, SourceAddress,
  ApsDataIndication, ApsDataConfirm,
}
use tophamm.Deconz.Errors.{Error, Result}
use tophamm.Deconz.Wire.Reading.{Read, ◌>>=◌, ◌>>◌, pure, halt}
use tophamm.Deconz.Wire.External.{Byteorder}
use tophamm.Deconz.Wire.{
  read_u8, read_u16, read_endpoint, read_profile_id, read_cluster_id, read_short_address,
  read_extended_address,
}
use tophamm.Deconz.Parameters.{Parameter, read_parameter_id}
use tophamm.Deconz.Parameters
use tophamm.Deconz.Protocol.{header_len}
use tophamm.Deconz.Protocol.Command
use tophamm.Deconz.Protocol.Command.{read_command_id}
use tophamm.Deconz.Protocol.Fields.{
  read_platform, read_version, read_device_state, read_destination,
}

pub data Response : Type 0 where
  version : Version → Platform → Response
  parameter : Parameter → Response
  write_parameter : ParameterId → Response
  device_state : DeviceState → Response
  device_state_changed : DeviceState → Response
  aps_data_indication : DeviceState → ApsDataIndication → Response
  aps_data_request : DeviceState → ℕ → Response
  aps_data_confirm : DeviceState → ℕ → ApsDataConfirm → Response
  mac_poll : ℕ → Response

unfoldable pub command_id : Response → CommandId
command_id (Response.version v p) = CommandId.version
command_id (Response.parameter p) = CommandId.read_parameter
command_id (Response.write_parameter p) = CommandId.write_parameter
command_id (Response.device_state s) = CommandId.device_state
command_id (Response.device_state_changed s) = CommandId.device_state_changed
command_id (Response.aps_data_indication s i) = CommandId.aps_data_indication
command_id (Response.aps_data_request s i) = CommandId.aps_data_request
command_id (Response.aps_data_confirm s i c) = CommandId.aps_data_confirm
command_id (Response.mac_poll a) = CommandId.mac_poll

unfoldable pub solicited : Response → Bool
solicited r = Command.solicited (command_id r)

-- `Response::device_state`, its last arm included.
unfoldable pub state_of : Response → Option DeviceState
state_of (Response.device_state s) = some s
state_of (Response.device_state_changed s) = some s
state_of (Response.aps_data_indication s i) = some s
state_of (Response.aps_data_request s i) = some s
state_of _ = none

-- `payload_len` of `from_frame` and its `debug_assert!`, which only a debug build checks. Five
-- bytes have been read by then, so `len - header_len` does not pass zero.
pub check_len : Build → ℕ → ℕ → Read Error (Unit {0})
check_len release len frame_len = pure tt
check_len debug len frame_len =
    if ltb frame_len header_len
    then halt
    else if len - header_len == frame_len - header_len
    then pure tt
    else halt

-- `Read::read` of a cursor into a zeroed buffer of `n` bytes: what is left of the input if it is
-- shorter, and zeros behind it.
read_buffer : ℕ → Read Error Bytes
read_buffer n r = ok (take n r ++ replicate (n - length r) 0, drop n r)

module _ ⦃bo : Byteorder⦄ where
  pub destination_address_of_mode : ℕ → Read Error DestinationAddress
  destination_address_of_mode mode =
      if mode == 0x1
      then (do a ← read_short_address; pure (DestinationAddress.group a))
      else if mode == 0x2
      then (do a ← read_short_address; pure (DestinationAddress.nwk a))
      else if mode == 0x3
      then (do a ← read_extended_address; pure (DestinationAddress.ieee a))
      else halt

  pub source_address_of_mode : ℕ → Read Error SourceAddress
  source_address_of_mode mode =
      if mode == 0x4
      then (do
        short ← read_short_address
        extended ← read_extended_address
        pure (record { short = short; extended = extended }))
      else halt

  pub read_aps_data_indication : Read Error ApsDataIndication
  unfolding destination_address_of_mode source_address_of_mode read_buffer
  read_aps_data_indication = do
    destination_mode ← read_u8
    destination_address ← destination_address_of_mode destination_mode
    destination_endpoint ← read_endpoint
    source_mode ← read_u8
    source_address ← source_address_of_mode source_mode
    source_endpoint ← read_endpoint
    profile_id ← read_profile_id
    cluster_id ← read_cluster_id
    asdu_length ← read_u16
    asdu ← read_buffer asdu_length
    pure (record {
      destination_address = destination_address;
      destination_endpoint = destination_endpoint;
      source_address = source_address;
      source_endpoint = source_endpoint;
      profile_id = profile_id;
      cluster_id = cluster_id;
      asdu = asdu;
    })

  pub read_aps_data_confirm : Read Error ApsDataConfirm
  read_aps_data_confirm = do
    destination ← read_destination
    source_endpoint ← read_endpoint
    status ← read_u8
    pure (record { destination = destination; source_endpoint = source_endpoint; status = status })

  -- The arms of the match on the command.
  pub read_response : CommandId → Read Error Response
  unfolding read_aps_data_indication read_aps_data_confirm
  read_response CommandId.version = do
    platform ← read_platform
    firmware ← read_version
    pure (Response.version firmware platform)
  read_response CommandId.read_parameter = do
    _ ← read_u16
    parameter_id ← read_parameter_id
    value ← Parameters.read_parameter parameter_id
    pure (Response.parameter value)
  read_response CommandId.write_parameter = do
    _ ← read_u16
    parameter_id ← read_parameter_id
    pure (Response.write_parameter parameter_id)
  read_response CommandId.device_state = do
    state ← read_device_state
    pure (Response.device_state state)
  read_response CommandId.device_state_changed = do
    state ← read_device_state
    pure (Response.device_state_changed state)
  read_response CommandId.aps_data_indication = do
    _ ← read_u16
    state ← read_device_state
    indication ← read_aps_data_indication
    pure (Response.aps_data_indication state indication)
  read_response CommandId.aps_data_request = do
    _ ← read_u16
    state ← read_device_state
    request_id ← read_u8
    pure (Response.aps_data_request state request_id)
  read_response CommandId.mac_poll = do
    _ ← read_u16
    _ ← read_u8
    address ← read_u16
    pure (Response.mac_poll address)
  read_response CommandId.aps_data_confirm = do
    _ ← read_u16
    state ← read_device_state
    request_id ← read_u8
    confirm ← read_aps_data_confirm
    pure (Response.aps_data_confirm state request_id confirm)

  pub read_frame : Build → ℕ → Read Error Response
  unfolding check_len read_response
  read_frame build len = do
    command_id ← read_command_id
    _ ← read_u8
    _ ← read_u8
    frame_len ← read_u16
    _ ← check_len build len frame_len
    read_response command_id

  pub from_frame : Build → Bytes → Result Response
  unfolding read_frame
  from_frame build frame =
      Outcome.◌>>=◌ (read_frame build (length frame) frame) λ (p : Response × Bytes). ok p.0
