-- ===== src/Deconz/Protocol/Fields.antt =====
-- The parts of a frame in deconz/src/protocol.rs that have a reader or a writer of their own.
pub mod State
pub mod Address
pub mod Firmware
use tophamm.Base.{ℕ, ltb, ◌==◌, if◌then◌else◌, bit_and, Bool, Bytes}
use tophamm.Outcome.{Outcome, ok, panic}
use tophamm.Outcome
use tophamm.Deconz.Types.{
  Platform, avr, arm, unknown, Version, NetworkState, offline, joining, connected, leaving,
  DeviceState, Destination,
}
use tophamm.Deconz.Errors.{Error, Result}
use tophamm.Deconz.Wire.Reading.{Read, ◌>>=◌, pure, lift, halt}
use tophamm.Deconz.Wire.Writing.{Write, ◌>>◌, skip}
use tophamm.Deconz.Wire.External.{Byteorder}
use tophamm.Deconz.Wire.{
  read_u8, read_endpoint, read_short_address, read_extended_address, write_u8, write_endpoint,
  write_short_address, write_extended_address,
}

platform_of_byte : ℕ → Platform
platform_of_byte byte = if byte == 0x05 then avr else if byte == 0x07 then arm else unknown byte

-- `match byte & 0b11`; the last arm is `unreachable!`.
network_state_of_bits : ℕ → Result NetworkState
network_state_of_bits bits =
    if bits == 0x0
    then ok offline
    else if bits == 0x1
    then ok joining
    else if bits == 0x2
    then ok connected
    else if bits == 0x3
    then ok leaving
    else panic

abbrev flag : ℕ → ℕ → Bool
flag byte mask = ltb 0 (bit_and byte mask)

pub device_state_of_byte : ℕ → Result DeviceState
unfolding network_state_of_bits
device_state_of_byte byte =
    Outcome.◌>>=◌ (network_state_of_bits (bit_and byte 0b11)) λ network_state. ok (record {
      network_state = network_state;
      data_confirm = flag byte 0b100;
      data_indication = flag byte 0b1000;
      data_request_free_slots = flag byte 0b100000;
      configuration_changed = flag byte 0b10000;
    })

-- `wire_len` of a destination, as the source has it: without the byte of the address mode.
unfoldable pub destination_wire_len : Destination → ℕ
destination_wire_len (Destination.group a) = 2
destination_wire_len (Destination.nwk a e) = 3
destination_wire_len (Destination.ieee a e) = 9

abbrev pub address_mode : Destination → ℕ
address_mode (Destination.group a) = 0x1
address_mode (Destination.nwk a e) = 0x2
address_mode (Destination.ieee a e) = 0x3

module _ ⦃bo : Byteorder⦄ where
  pub read_platform : Read Error Platform
  unfolding platform_of_byte
  read_platform = do byte ← read_u8; pure (platform_of_byte byte)

  pub read_version : Read Error Version
  read_version = do minor ← read_u8; major ← read_u8; pure (record { major = major; minor = minor })

  pub read_device_state : Read Error DeviceState
  read_device_state = do byte ← read_u8; lift (device_state_of_byte byte)

  pub destination_of_mode : ℕ → Read Error Destination
  destination_of_mode mode =
      if mode == 0x1
      then (do a ← read_short_address; pure (Destination.group a))
      else if mode == 0x2
      then (do
        short_address ← read_short_address
        endpoint ← read_endpoint
        pure (Destination.nwk short_address endpoint))
      else if mode == 0x3
      then (do
        extended_address ← read_extended_address
        endpoint ← read_endpoint
        pure (Destination.ieee extended_address endpoint))
      else halt

  pub read_destination : Read Error Destination
  unfolding destination_of_mode
  read_destination = do mode ← read_u8; destination_of_mode mode

  write_address : Destination → Write Error
  write_address (Destination.group addr) = write_short_address addr
  write_address (Destination.nwk addr e) = write_short_address addr
  write_address (Destination.ieee addr e) = write_extended_address addr

  write_address_endpoint : Destination → Write Error
  write_address_endpoint (Destination.group a) = skip
  write_address_endpoint (Destination.nwk a endpoint) = write_endpoint endpoint
  write_address_endpoint (Destination.ieee a endpoint) = write_endpoint endpoint

  pub write_destination : Destination → Write Error
  unfolding write_address write_address_endpoint
  write_destination d = do write_u8 (address_mode d); write_address d; write_address_endpoint d
