-- ===== src/Deconz/Messages/Names.antt =====
-- Which command, parameter or error of the slip layer a text is of.
use tophamm.Base.{ℕ, zero, suc, ◌≡◌, refl, ◌&&◌, leb, ◌==◌, if◌then◌else◌, List, [], ◌∷◌, ◌++◌}
use tophamm.Base.Decimal.{digits, number, decimal}
use tophamm.Deconz.Types.{
  CommandId, ParameterId, SlipError, missing_crc, mismatched_crc, invalid_escape,
}
use tophamm.Deconz.Parameters.{id_byte, parameters}
use tophamm.Deconz.Protocol.Command.{command_byte}
use tophamm.Deconz.Messages.{
  Text, command_text, command_name, parameter_text, parameter_name, slip_text, numbered,
}

-- The character at an index, or zero.
abbrev pub char : ℕ → Text → ℕ
char n [] = 0
char zero (c ∷ cs) = c
char (suc n) (c ∷ cs) = char n cs

abbrev keep_digits : Text → Text
keep_digits [] = []
keep_digits (c ∷ cs) = let rest = keep_digits cs in if leb 48 c && leb c 57 then c ∷ rest else rest

abbrev before_colon : Text → Text
before_colon [] = []
before_colon (c ∷ cs) = let rest = before_colon cs in if c == 58 then [] else c ∷ rest

abbrev pub from_colon : Text → Text
from_colon [] = []
from_colon (c ∷ cs) = let rest = from_colon cs in if c == 58 then c ∷ cs else rest

abbrev parameter_among : List ParameterId → ℕ → ParameterId
parameter_among [] n = ParameterId.mac_address
parameter_among (p ∷ ps) n = let q = parameter_among ps n in if id_byte p == n then p else q

abbrev commands : List CommandId
commands =
    CommandId.version ∷ CommandId.read_parameter ∷ CommandId.write_parameter
    ∷ CommandId.device_state ∷ CommandId.device_state_changed ∷ CommandId.aps_data_indication
    ∷ CommandId.aps_data_request ∷ CommandId.aps_data_confirm ∷ CommandId.mac_poll ∷ []

abbrev command_among : List CommandId → ℕ → CommandId
command_among [] n = CommandId.version
command_among (c ∷ cs) n = let d = command_among cs n in if command_byte c == n then c else d

unfoldable pub which_parameter : Text → ParameterId
which_parameter text = parameter_among parameters (number 0 (keep_digits (before_colon text)))

unfoldable pub which_command : Text → CommandId
which_command text = command_among commands (number 0 (keep_digits text))

unfoldable pub which_slip : Text → SlipError
which_slip text =
    if char 0 text == 105
    then invalid_escape
    else if char 3 text == 115
    then missing_crc
    else mismatched_crc

pub which_command_lem : (c : CommandId) → which_command (command_text c) ≡ c
unfolding which_command command_text command_name numbered command_byte decimal number digits
which_command_lem CommandId.version = refl
which_command_lem CommandId.read_parameter = refl
which_command_lem CommandId.write_parameter = refl
which_command_lem CommandId.device_state = refl
which_command_lem CommandId.device_state_changed = refl
which_command_lem CommandId.aps_data_indication = refl
which_command_lem CommandId.aps_data_request = refl
which_command_lem CommandId.aps_data_confirm = refl
which_command_lem CommandId.mac_poll = refl

pub which_slip_lem : (e : SlipError) → which_slip (slip_text e) ≡ e
unfolding which_slip slip_text
which_slip_lem missing_crc = refl
which_slip_lem mismatched_crc = refl
which_slip_lem invalid_escape = refl

pub which_parameter_lem :
    (p : ParameterId) (rest : Text)
    → (which_parameter (parameter_text p ++ 58 ∷ rest) ≡ p)
      × (from_colon (parameter_text p ++ 58 ∷ rest) ≡ 58 ∷ rest)
unfolding which_parameter parameter_text parameter_name numbered id_byte decimal number digits
which_parameter_lem ParameterId.mac_address rest = (refl, refl)
which_parameter_lem ParameterId.nwk_pan_id rest = (refl, refl)
which_parameter_lem ParameterId.nwk_address rest = (refl, refl)
which_parameter_lem ParameterId.nwk_extended_pan_id rest = (refl, refl)
which_parameter_lem ParameterId.aps_designated_coordinator rest = (refl, refl)
which_parameter_lem ParameterId.channel_mask rest = (refl, refl)
which_parameter_lem ParameterId.aps_extended_pan_id rest = (refl, refl)
which_parameter_lem ParameterId.trust_center_address rest = (refl, refl)
which_parameter_lem ParameterId.security_mode rest = (refl, refl)
which_parameter_lem ParameterId.network_key rest = (refl, refl)
which_parameter_lem ParameterId.current_channel rest = (refl, refl)
which_parameter_lem ParameterId.protocol_version rest = (refl, refl)
which_parameter_lem ParameterId.nwk_update_id rest = (refl, refl)
which_parameter_lem ParameterId.watchdog_ttl rest = (refl, refl)
