-- ===== src/Tests/Messages.antt =====
-- The texts of errors.
use tophamm.Base.{◌≡◌, refl, []}
use tophamm.Base.Decimal.{codes, decimal, digits}
use tophamm.Deconz.Types.{CommandId, ParameterId}
use tophamm.Deconz.Errors.{
  IoError, ErrorKind, slip, unexpected_response, unsupported_command, invalid_parameter,
}
use tophamm.Deconz.Errors
use tophamm.Deconz.Protocol.Command.{command_byte}
use tophamm.Deconz.Messages.{Text, command_name, command_text, numbered}
use tophamm.Deconz.Messages
use tophamm.Zdo.Errors.{Error, error, deconz}
use tophamm.Zdo.Messages.{error_text}

abbrev any_text : IoError → Text
any_text e = []

abbrev unexpected : Error
unexpected = error (deconz (Errors.error (unexpected_response CommandId.version)))

unexpected_text :
    error_text any_text [] unexpected
    ≡ codes "deconz: deconz error: unexpected command ID as response: Version (13)"
unfolding error_text Messages.kind_text command_text command_name numbered command_byte decimal
    digits
unexpected_text = refl

abbrev nested : Error
nested = error (
    deconz (
      Errors.error
        (invalid_parameter ParameterId.nwk_pan_id (Errors.error (unsupported_command 7)))))
