-- ===== src/Deconz/Protocol/Fields/Address.antt =====
-- Destinations, versions and platforms on the wire.
use tophamm.Base.{
  ◌≢◌, ℕ, ◌+◌, ◌≡◌, [], ◌∷◌, ◌++◌, Bytes, length, length-append, append-nil, ◌∙◌, IsU8, IsU16,
  IsU64, arith,
}
use tophamm.Base.Little.{to_le_bytes, length-to_le_bytes}
use tophamm.Deconz.Types.{Destination}
use tophamm.Outcome.{panic}
use tophamm.Deconz.Wire.Reading.{>>=-after, Reads, >>=-Reads, pure-Reads}
use tophamm.Deconz.Wire.Writing.{Appends, >>-Appends, skip-Appends}
use tophamm.Deconz.Wire.External.{Byteorder}
use tophamm.Deconz.Wire.Laws.{read_u8-Reads, write_u8-Appends}
use tophamm.Deconz.Wire.Wrapped.{
  read_endpoint-Reads, read_short_address-Reads, read_extended_address-Reads,
  write_endpoint-Appends, write_short_address-Appends, write_extended_address-Appends,
}
use tophamm.Deconz.Protocol.Fields.{
  destination_of_mode, read_destination, write_destination, destination_wire_len,
}

-- The addresses and the endpoint fit their types.
abbrev pub IsDestination : Destination → Type 0
IsDestination (Destination.group a) = IsU16 a.value
IsDestination (Destination.nwk a e) = IsU16 a.value × IsU8 e.value
IsDestination (Destination.ieee a e) = IsU64 a.value × IsU8 e.value

-- The address and, but for a group, the endpoint.
unfoldable pub address_bytes : Destination → Bytes
address_bytes (Destination.group a) = to_le_bytes 2 a.value
address_bytes (Destination.nwk a e) = to_le_bytes 2 a.value ++ e.value ∷ []
address_bytes (Destination.ieee a e) = to_le_bytes 8 a.value ++ e.value ∷ []

-- The mode of an address in the protocol.
unfoldable pub mode_byte : Destination → ℕ
mode_byte (Destination.group a) = 0x1
mode_byte (Destination.nwk a e) = 0x2
mode_byte (Destination.ieee a e) = 0x3

-- A destination on the wire: its mode in front.
unfoldable pub destination_bytes : Destination → Bytes
unfolding address_bytes mode_byte
destination_bytes d = mode_byte d ∷ address_bytes d

pub length-destination_bytes :
    (d : Destination) → length (destination_bytes d) ≡ destination_wire_len d + 1
unfolding destination_bytes destination_wire_len
length-destination_bytes (Destination.group a) = omega (arith, length-to_le_bytes 2 a.value)
length-destination_bytes (Destination.nwk a e) =
    omega
      (arith, length-to_le_bytes 2 a.value, length-append (to_le_bytes 2 a.value) (e.value ∷ []))
length-destination_bytes (Destination.ieee a e) =
    omega
      (arith, length-to_le_bytes 8 a.value, length-append (to_le_bytes 8 a.value) (e.value ∷ []))

module _ ⦃bo : Byteorder⦄ where
  pub write_destination-Appends :
      (d : Destination) → IsDestination d → Appends (write_destination d) (destination_bytes d)
  unfolding write_destination destination_bytes
  write_destination-Appends (Destination.group a) h =
      >>-Appends _ _ (1 ∷ []) _ (write_u8-Appends 1 (omega arith)) λ w.
        >>-Appends _ _ (to_le_bytes 2 a.value) [] (write_short_address-Appends a) skip-Appends w
        ∙ rw append-nil
  write_destination-Appends (Destination.nwk a e) (ha, he) =
      >>-Appends _ _ (2 ∷ []) _ (write_u8-Appends 2 (omega arith)) (
        >>-Appends _ _ (to_le_bytes 2 a.value) (e.value ∷ []) (write_short_address-Appends a)
          (write_endpoint-Appends e he))
  write_destination-Appends (Destination.ieee a e) (ha, he) =
      >>-Appends _ _ (3 ∷ []) _ (write_u8-Appends 3 (omega arith)) (
        >>-Appends _ _ (to_le_bytes 8 a.value) (e.value ∷ []) (write_extended_address-Appends a)
          (write_endpoint-Appends e he))

  destination_of_mode-Reads :
      (d : Destination)
      → IsDestination d
      → Reads (destination_of_mode (mode_byte d)) (address_bytes d) d
  unfolding destination_of_mode address_bytes mode_byte
  destination_of_mode-Reads (Destination.group a) h = pure-Reads _ (read_short_address-Reads a h)
  destination_of_mode-Reads (Destination.nwk a e) (ha, he) =
      >>=-Reads _ _ (read_short_address-Reads a ha) (pure-Reads _ (read_endpoint-Reads e))
  destination_of_mode-Reads (Destination.ieee a e) (ha, he) =
      >>=-Reads _ _ (read_extended_address-Reads a ha) (pure-Reads _ (read_endpoint-Reads e))

  pub read_destination-Reads :
      (d : Destination) → IsDestination d → Reads read_destination (destination_bytes d) d
  unfolding read_destination destination_bytes
  read_destination-Reads d h =
      >>=-Reads _ (mode_byte d ∷ []) (read_u8-Reads (mode_byte d)) (destination_of_mode-Reads d h)

  -- A mode that stands for no address ends in `unreachable!`.
  pub read_destination_unknown :
      (mode : ℕ) (rest : Bytes)
      → (mode ≢ 0x1) × (mode ≢ 0x2) × (mode ≢ 0x3)
      → read_destination (mode ∷ rest) ≡ panic
  unfolding read_destination destination_of_mode
  read_destination_unknown mode rest (h, k, l) =
      >>=-after _ (mode ∷ []) rest (read_u8-Reads mode) (ground arith)
