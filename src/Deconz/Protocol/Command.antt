-- ===== src/Deconz/Protocol/Command.antt =====
-- `CommandId` of deconz/src/protocol.rs and its byte.
pub mod Bytes
use tophamm.Base.{ℕ, Bool, true, false, ◌==◌, if◌then◌else◌}
use tophamm.Outcome.{ok, err}
use tophamm.Deconz.Types.{CommandId}
use tophamm.Deconz.Errors.{Error, Result, error, unsupported_command}
use tophamm.Deconz.Wire.Reading.{Read, ◌>>=◌, lift}
use tophamm.Deconz.Wire.Writing.{Write}
use tophamm.Deconz.Wire.External.{Byteorder}
use tophamm.Deconz.Wire.{read_u8, write_u8}

unfoldable pub solicited : CommandId → Bool
solicited CommandId.device_state_changed = false
solicited _ = true

unfoldable pub command_byte : CommandId → ℕ
command_byte CommandId.version = 0x0D
command_byte CommandId.read_parameter = 0x0A
command_byte CommandId.write_parameter = 0x0B
command_byte CommandId.device_state = 0x07
command_byte CommandId.device_state_changed = 0x0E
command_byte CommandId.aps_data_indication = 0x17
command_byte CommandId.aps_data_request = 0x12
command_byte CommandId.aps_data_confirm = 0x04
command_byte CommandId.mac_poll = 0x1C

pub command_of_byte : ℕ → Result CommandId
command_of_byte byte =
    if byte == 0x0D
    then ok CommandId.version
    else if byte == 0x0A
    then ok CommandId.read_parameter
    else if byte == 0x0B
    then ok CommandId.write_parameter
    else if byte == 0x07
    then ok CommandId.device_state
    else if byte == 0x0E
    then ok CommandId.device_state_changed
    else if byte == 0x1C
    then ok CommandId.mac_poll
    else if byte == 0x17
    then ok CommandId.aps_data_indication
    else if byte == 0x12
    then ok CommandId.aps_data_request
    else if byte == 0x04
    then ok CommandId.aps_data_confirm
    else err (error (unsupported_command byte))

module _ ⦃bo : Byteorder⦄ where
  pub read_command_id : Read Error CommandId
  read_command_id = do byte ← read_u8; lift (command_of_byte byte)

  pub write_command_id : CommandId → Write Error
  write_command_id c = write_u8 (command_byte c)
