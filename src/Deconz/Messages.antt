-- ===== src/Deconz/Messages.antt =====
-- The texts of errors.rs, parameters.rs, protocol.rs and slip.rs of deconz/src, as code points:
-- their `Display`. The texts of the errors of the standard library and of the serial port are
-- parameters.
pub mod Names
pub mod Distinct
use tophamm.Base.{ℕ, List, ◌++◌}
use tophamm.Base.Decimal.{codes, decimal}
use tophamm.Deconz.Types.{
  CommandId, ParameterId, SlipError, missing_crc, mismatched_crc, invalid_escape,
}
use tophamm.Deconz.Errors.{
  IoError, ErrorKind, Error, error, duplicate_sequence_id, unsolicited_response,
  unsolicited_confirm, unexpected_response, unsupported_command, unsupported_parameter,
  invalid_parameter, slip, serial_port, io, timeout, channel_error, todo,
}
use tophamm.Deconz.Parameters.{id_byte}
use tophamm.Deconz.Protocol.Command.{command_byte}

abbrev pub Text : Type 0
Text = List ℕ

unfoldable pub command_name : CommandId → Text
command_name CommandId.version = codes "Version"
command_name CommandId.read_parameter = codes "ReadParameter"
command_name CommandId.write_parameter = codes "WriteParameter"
command_name CommandId.device_state = codes "DeviceState"
command_name CommandId.device_state_changed = codes "DeviceStateChanged"
command_name CommandId.mac_poll = codes "MacPoll"
command_name CommandId.aps_data_indication = codes "ApsDataIndication"
command_name CommandId.aps_data_request = codes "ApsDataRequest"
command_name CommandId.aps_data_confirm = codes "ApsDataConfirm"

-- A name, and the number in parentheses.
unfoldable pub numbered : Text → ℕ → Text
numbered name n = name ++ (codes " (" ++ (decimal n ++ codes ")"))

unfoldable pub command_text : CommandId → Text
unfolding command_name numbered
command_text c = numbered (command_name c) (command_byte c)

unfoldable parameter_name : ParameterId → Text
parameter_name ParameterId.mac_address = codes "MacAddress"
parameter_name ParameterId.nwk_pan_id = codes "NwkPanId"
parameter_name ParameterId.nwk_address = codes "NwkAddress"
parameter_name ParameterId.nwk_extended_pan_id = codes "NwkExtendedPanId"
parameter_name ParameterId.aps_designated_coordinator = codes "ApsDesignatedCoordinator"
parameter_name ParameterId.channel_mask = codes "ChannelMask"
parameter_name ParameterId.aps_extended_pan_id = codes "ApsExtendedPanId"
parameter_name ParameterId.trust_center_address = codes "TrustCenterAddress"
parameter_name ParameterId.security_mode = codes "SecurityMode"
parameter_name ParameterId.network_key = codes "NetworkKey"
parameter_name ParameterId.current_channel = codes "CurrentChannel"
parameter_name ParameterId.protocol_version = codes "ProtocolVersion"
parameter_name ParameterId.nwk_update_id = codes "NwkUpdateId"
parameter_name ParameterId.watchdog_ttl = codes "WatchdogTtl"

unfoldable pub parameter_text : ParameterId → Text
unfolding parameter_name numbered
parameter_text p = numbered (parameter_name p) (id_byte p)

unfoldable pub slip_text : SlipError → Text
slip_text missing_crc = codes "missing CRC"
slip_text mismatched_crc = codes "mismatched CRC"
slip_text invalid_escape = codes "invalid escape sequence"

module _ (io_text : IoError → Text) (serial_text : Text) where
  unfoldable mutual
    pub kind_text : ErrorKind → Text
    kind_text (duplicate_sequence_id q) = codes "duplicate sequence ID: " ++ decimal q
    kind_text (unsolicited_response q) =
        codes "unsolicited response with sequence ID: " ++ decimal q
    kind_text (unsolicited_confirm id) = codes "unsolicited confirm with request ID: " ++ decimal id
    kind_text (unexpected_response c) =
        codes "unexpected command ID as response: " ++ command_text c
    kind_text (unsupported_command byte) = codes "unsupported command ID: " ++ decimal byte
    kind_text (unsupported_parameter byte) = codes "unsupported parameter ID: " ++ decimal byte
    kind_text (invalid_parameter p inner) =
        codes "invalid parameter for ID " ++ (parameter_text p ++ (codes ": " ++ error_text inner))
    kind_text (slip e) = codes "SLIP error: " ++ slip_text e
    kind_text serial_port = codes "serial port error: " ++ serial_text
    kind_text (io e) = codes "IO error: " ++ io_text e
    kind_text timeout = codes "timeout"
    kind_text channel_error = codes "channel error"
    kind_text todo = codes "TODO, oh no"

    pub error_text : Error → Text
    error_text (error kind) = codes "deconz error: " ++ kind_text kind
