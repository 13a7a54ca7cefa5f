-- ===== src/Deconz/Parameters.antt =====
-- deconz/src/parameters.rs: what `define_parameters!` expands to. Each parameter has its identifier
-- byte and the width of its value.
pub mod Identifier
pub mod RoundTrip
use tophamm.Base.{ℕ, ◌==◌, if◌then◌else◌, List, [], ◌∷◌}
use tophamm.Outcome.{ok, err, map_err}
use tophamm.Deconz.Types.{ParameterId}
use tophamm.Deconz.Errors.{Error, Result, error, unsupported_parameter, invalid_parameter}
use tophamm.Deconz.Wire.Reading.{Read, ◌>>=◌, pure, lift}
use tophamm.Deconz.Wire.Writing.{Write}
use tophamm.Deconz.Wire.External.{Byteorder}
use tophamm.Deconz.Wire.{
  read_u8, read_u16, read_u32, read_u64, write_u8, write_u16, write_u32, write_u64,
}

pub data Parameter : Type 0 where
  mac_address : ℕ → Parameter
  nwk_pan_id : ℕ → Parameter
  nwk_address : ℕ → Parameter
  nwk_extended_pan_id : ℕ → Parameter
  aps_designated_coordinator : ℕ → Parameter
  channel_mask : ℕ → Parameter
  aps_extended_pan_id : ℕ → Parameter
  trust_center_address : ℕ → Parameter
  security_mode : ℕ → Parameter
  network_key : ℕ → Parameter
  current_channel : ℕ → Parameter
  protocol_version : ℕ → Parameter
  nwk_update_id : ℕ → Parameter
  watchdog_ttl : ℕ → Parameter

-- `PARAMETERS`
abbrev pub parameters : List ParameterId
parameters =
    ParameterId.mac_address ∷ ParameterId.nwk_pan_id ∷ ParameterId.nwk_address
    ∷ ParameterId.nwk_extended_pan_id ∷ ParameterId.aps_designated_coordinator
    ∷ ParameterId.channel_mask ∷ ParameterId.aps_extended_pan_id ∷ ParameterId.trust_center_address
    ∷ ParameterId.security_mode ∷ ParameterId.network_key ∷ ParameterId.current_channel
    ∷ ParameterId.protocol_version ∷ ParameterId.nwk_update_id ∷ ParameterId.watchdog_ttl ∷ []

pub id : Parameter → ParameterId
id (Parameter.mac_address value) = ParameterId.mac_address
id (Parameter.nwk_pan_id value) = ParameterId.nwk_pan_id
id (Parameter.nwk_address value) = ParameterId.nwk_address
id (Parameter.nwk_extended_pan_id value) = ParameterId.nwk_extended_pan_id
id (Parameter.aps_designated_coordinator value) = ParameterId.aps_designated_coordinator
id (Parameter.channel_mask value) = ParameterId.channel_mask
id (Parameter.aps_extended_pan_id value) = ParameterId.aps_extended_pan_id
id (Parameter.trust_center_address value) = ParameterId.trust_center_address
id (Parameter.security_mode value) = ParameterId.security_mode
id (Parameter.network_key value) = ParameterId.network_key
id (Parameter.current_channel value) = ParameterId.current_channel
id (Parameter.protocol_version value) = ParameterId.protocol_version
id (Parameter.nwk_update_id value) = ParameterId.nwk_update_id
id (Parameter.watchdog_ttl value) = ParameterId.watchdog_ttl

-- `std::mem::size_of` of the value's type.
unfoldable pub wire_len : Parameter → ℕ
wire_len (Parameter.mac_address value) = 8
wire_len (Parameter.nwk_pan_id value) = 2
wire_len (Parameter.nwk_address value) = 2
wire_len (Parameter.nwk_extended_pan_id value) = 8
wire_len (Parameter.aps_designated_coordinator value) = 1
wire_len (Parameter.channel_mask value) = 4
wire_len (Parameter.aps_extended_pan_id value) = 8
wire_len (Parameter.trust_center_address value) = 8
wire_len (Parameter.security_mode value) = 1
wire_len (Parameter.network_key value) = 1
wire_len (Parameter.current_channel value) = 1
wire_len (Parameter.protocol_version value) = 2
wire_len (Parameter.nwk_update_id value) = 1
wire_len (Parameter.watchdog_ttl value) = 4

-- The byte that stands for an identifier on the wire.
unfoldable pub id_byte : ParameterId → ℕ
id_byte ParameterId.mac_address = 0x01
id_byte ParameterId.nwk_pan_id = 0x05
id_byte ParameterId.nwk_address = 0x07
id_byte ParameterId.nwk_extended_pan_id = 0x08
id_byte ParameterId.aps_designated_coordinator = 0x09
id_byte ParameterId.channel_mask = 0x0a
id_byte ParameterId.aps_extended_pan_id = 0x0b
id_byte ParameterId.trust_center_address = 0x0e
id_byte ParameterId.security_mode = 0x10
id_byte ParameterId.network_key = 0x18
id_byte ParameterId.current_channel = 0x1c
id_byte ParameterId.protocol_version = 0x22
id_byte ParameterId.nwk_update_id = 0x24
id_byte ParameterId.watchdog_ttl = 0x26

-- `ParameterId::wire_len`
abbrev pub id_wire_len : ParameterId → ℕ
id_wire_len p = 1

abbrev in_parameter {ℓ} : {A : Type ℓ} → ParameterId → Read Error A → Read Error A
in_parameter p m r = map_err (λ inner. error (invalid_parameter p inner)) (m r)

-- The arms of the match in `ParameterId::read_wire`.
id_of_byte : ℕ → Result ParameterId
id_of_byte byte =
    if byte == 0x01
    then ok ParameterId.mac_address
    else if byte == 0x05
    then ok ParameterId.nwk_pan_id
    else if byte == 0x07
    then ok ParameterId.nwk_address
    else if byte == 0x08
    then ok ParameterId.nwk_extended_pan_id
    else if byte == 0x09
    then ok ParameterId.aps_designated_coordinator
    else if byte == 0x0a
    then ok ParameterId.channel_mask
    else if byte == 0x0b
    then ok ParameterId.aps_extended_pan_id
    else if byte == 0x0e
    then ok ParameterId.trust_center_address
    else if byte == 0x10
    then ok ParameterId.security_mode
    else if byte == 0x18
    then ok ParameterId.network_key
    else if byte == 0x1c
    then ok ParameterId.current_channel
    else if byte == 0x22
    then ok ParameterId.protocol_version
    else if byte == 0x24
    then ok ParameterId.nwk_update_id
    else if byte == 0x26
    then ok ParameterId.watchdog_ttl
    else err (error (unsupported_parameter byte))

module _ ⦃bo : Byteorder⦄ where
  pub write_parameter : Parameter → Write Error
  write_parameter (Parameter.mac_address value) = write_u64 value
  write_parameter (Parameter.nwk_pan_id value) = write_u16 value
  write_parameter (Parameter.nwk_address value) = write_u16 value
  write_parameter (Parameter.nwk_extended_pan_id value) = write_u64 value
  write_parameter (Parameter.aps_designated_coordinator value) = write_u8 value
  write_parameter (Parameter.channel_mask value) = write_u32 value
  write_parameter (Parameter.aps_extended_pan_id value) = write_u64 value
  write_parameter (Parameter.trust_center_address value) = write_u64 value
  write_parameter (Parameter.security_mode value) = write_u8 value
  write_parameter (Parameter.network_key value) = write_u8 value
  write_parameter (Parameter.current_channel value) = write_u8 value
  write_parameter (Parameter.protocol_version value) = write_u16 value
  write_parameter (Parameter.nwk_update_id value) = write_u8 value
  write_parameter (Parameter.watchdog_ttl value) = write_u32 value

  pub read_parameter : ParameterId → Read Error Parameter
  read_parameter ParameterId.mac_address = do
    param ← in_parameter ParameterId.mac_address read_u64
    pure (Parameter.mac_address param)
  read_parameter ParameterId.nwk_pan_id = do
    param ← in_parameter ParameterId.nwk_pan_id read_u16
    pure (Parameter.nwk_pan_id param)
  read_parameter ParameterId.nwk_address = do
    param ← in_parameter ParameterId.nwk_address read_u16
    pure (Parameter.nwk_address param)
  read_parameter ParameterId.nwk_extended_pan_id = do
    param ← in_parameter ParameterId.nwk_extended_pan_id read_u64
    pure (Parameter.nwk_extended_pan_id param)
  read_parameter ParameterId.aps_designated_coordinator = do
    param ← in_parameter ParameterId.aps_designated_coordinator read_u8
    pure (Parameter.aps_designated_coordinator param)
  read_parameter ParameterId.channel_mask = do
    param ← in_parameter ParameterId.channel_mask read_u32
    pure (Parameter.channel_mask param)
  read_parameter ParameterId.aps_extended_pan_id = do
    param ← in_parameter ParameterId.aps_extended_pan_id read_u64
    pure (Parameter.aps_extended_pan_id param)
  read_parameter ParameterId.trust_center_address = do
    param ← in_parameter ParameterId.trust_center_address read_u64
    pure (Parameter.trust_center_address param)
  read_parameter ParameterId.security_mode = do
    param ← in_parameter ParameterId.security_mode read_u8
    pure (Parameter.security_mode param)
  read_parameter ParameterId.network_key = do
    param ← in_parameter ParameterId.network_key read_u8
    pure (Parameter.network_key param)
  read_parameter ParameterId.current_channel = do
    param ← in_parameter ParameterId.current_channel read_u8
    pure (Parameter.current_channel param)
  read_parameter ParameterId.protocol_version = do
    param ← in_parameter ParameterId.protocol_version read_u16
    pure (Parameter.protocol_version param)
  read_parameter ParameterId.nwk_update_id = do
    param ← in_parameter ParameterId.nwk_update_id read_u8
    pure (Parameter.nwk_update_id param)
  read_parameter ParameterId.watchdog_ttl = do
    param ← in_parameter ParameterId.watchdog_ttl read_u32
    pure (Parameter.watchdog_ttl param)

  pub read_parameter_id : Read Error ParameterId
  unfolding id_of_byte
  read_parameter_id = do byte ← read_u8; lift (id_of_byte byte)

  pub write_parameter_id : ParameterId → Write Error
  write_parameter_id p = write_u8 (id_byte p)
