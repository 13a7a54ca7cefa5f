-- ===== src/Deconz/Protocol/Request.antt =====
-- `Request` of deconz/src/protocol.rs: its command, the length of its payload, and its frame.
pub mod Payload
pub mod Frame
use tophamm.Base.{ℕ, ◌%◌, ◌^◌, ◌++◌, Option, none, some, [], Bytes, length}
use tophamm.Outcome.{Build, ok, add_u16, ◌>>=◌}
use tophamm.Deconz.Types.{CommandId, ParameterId, ApsDataRequest}
use tophamm.Deconz.Errors.{Error, Result}
use tophamm.Deconz.Wire.Writing.{Write, skip, ◌>>◌}
use tophamm.Deconz.Wire.External.{Byteorder}
use tophamm.Deconz.Wire.{write_u8, write_u16, write_endpoint, write_profile_id, write_cluster_id}
use tophamm.Deconz.Parameters
use tophamm.Deconz.Parameters.{Parameter, id, wire_len, write_parameter_id}
use tophamm.Deconz.Protocol.Command.{write_command_id}
use tophamm.Deconz.Protocol.{header_len}
use tophamm.Deconz.Protocol.Fields.{destination_wire_len, write_destination}

pub data Request : Type 0 where
  version : Request
  read_parameter : ParameterId → Request
  write_parameter : Parameter → Request
  device_state : Request
  aps_data_indication : Request
  aps_data_request : ℕ → ApsDataRequest → Request
  aps_data_confirm : Request

unfoldable pub command_id : Request → CommandId
command_id Request.version = CommandId.version
command_id (Request.read_parameter parameter_id) = CommandId.read_parameter
command_id (Request.write_parameter parameter) = CommandId.write_parameter
command_id Request.device_state = CommandId.device_state
command_id Request.aps_data_indication = CommandId.aps_data_indication
command_id (Request.aps_data_request request_id request) = CommandId.aps_data_request
command_id Request.aps_data_confirm = CommandId.aps_data_confirm

-- Unsigned sums of sixteen bits; `asdu.len() as u16` drops the higher bits.
pub payload_len : Build → Request → Result (Option ℕ)
payload_len build Request.version = ok none
payload_len build (Request.read_parameter parameter_id) = ok (some 1)
payload_len build (Request.write_parameter parameter) = do
  len ← add_u16 build 1 (wire_len parameter)
  ok (some len)
payload_len build Request.device_state = ok none
payload_len build Request.aps_data_indication = ok (some 1)
payload_len build (Request.aps_data_request request_id request) = do
  fixed ← add_u16 build 12 (destination_wire_len request.destination)
  len ← add_u16 build fixed (length request.asdu % 2 ^ 16)
  ok (some len)
payload_len build Request.aps_data_confirm = ok (some 0)

-- `frame_len` of `into_frame`: two bytes more for the payload's length where there is a payload.
pub frame_len : Build → Option ℕ → Result ℕ
frame_len build none = ok header_len
frame_len build (some payload_len) = do
  with_len ← add_u16 build header_len 2
  add_u16 build with_len payload_len

-- `Vec::extend`
abbrev extend : Bytes → Write Error
extend bytes buffer = ok (buffer ++ bytes)

module _ ⦃bo : Byteorder⦄ where
  write_aps_data_request : ℕ → ApsDataRequest → Write Error
  write_aps_data_request request_id request = do
    write_u8 request_id
    write_u8 0
    write_destination request.destination
    write_profile_id request.profile_id
    write_cluster_id request.cluster_id
    write_endpoint request.source_endpoint
    write_u16 (length request.asdu % 2 ^ 16)
    extend request.asdu
    write_u8 0x04
    write_u8 0

  pub write_payload : Request → Write Error
  unfolding write_aps_data_request
  write_payload Request.version = skip
  write_payload (Request.read_parameter parameter_id) = write_parameter_id parameter_id
  write_payload (Request.write_parameter parameter) = do
    write_parameter_id (id parameter)
    Parameters.write_parameter parameter
  write_payload Request.device_state = skip
  write_payload Request.aps_data_indication = write_u8 4
  write_payload (Request.aps_data_request request_id request) =
      write_aps_data_request request_id request
  write_payload Request.aps_data_confirm = skip

  write_payload_len : Option ℕ → Write Error
  write_payload_len none = skip
  write_payload_len (some len) = write_u16 len

  -- The writes of `into_frame`, its lengths computed.
  write_frame : Request → ℕ → ℕ → Option ℕ → Write Error
  unfolding write_payload_len
  write_frame request sequence_id frame_len payload_len = do
    write_command_id (command_id request)
    write_u8 sequence_id
    write_u8 0
    write_u16 frame_len
    write_payload_len payload_len
    write_payload request

  pub into_frame : Build → Request → ℕ → Result Bytes
  unfolding write_frame
  into_frame build request sequence_id = do
    payload_len ← payload_len build request
    frame_len ← frame_len build payload_len
    write_frame request sequence_id frame_len payload_len []
