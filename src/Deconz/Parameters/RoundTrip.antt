-- ===== src/Deconz/Parameters/RoundTrip.antt =====
-- A parameter's value survives the wire, and an input that ends too early is reported with the
-- identifier of the parameter.
use tophamm.Base.{ℕ, ◌≡◌, refl, ◌++◌, Bytes, length, IsU8, IsU16, IsU32, IsU64, ◌∷◌, []}
use tophamm.Base.Little.{to_le_bytes, length-to_le_bytes}
use tophamm.Outcome.{ok}
use tophamm.Deconz.Types.{ParameterId}
use tophamm.Deconz.Errors.{Error}
use tophamm.Deconz.Wire.Reading.{Read, Reads, ◌>>=◌, pure}
use tophamm.Deconz.Wire.Writing.{Appends}
use tophamm.Deconz.Wire.External.{Byteorder}
use tophamm.Deconz.Wire.Laws.{
  read_u8-Reads, read_u16-Reads, read_u32-Reads, read_u64-Reads, write_u8-Appends,
  write_u16-Appends, write_u32-Appends, write_u64-Appends,
}
use tophamm.Deconz.Parameters.{
  Parameter, in_parameter, id, wire_len, write_parameter, read_parameter,
}

-- The value fits the type that `define_parameters!` names.
abbrev pub IsInRange : Parameter → Type 0
IsInRange (Parameter.mac_address value) = IsU64 value
IsInRange (Parameter.nwk_pan_id value) = IsU16 value
IsInRange (Parameter.nwk_address value) = IsU16 value
IsInRange (Parameter.nwk_extended_pan_id value) = IsU64 value
IsInRange (Parameter.aps_designated_coordinator value) = IsU8 value
IsInRange (Parameter.channel_mask value) = IsU32 value
IsInRange (Parameter.aps_extended_pan_id value) = IsU64 value
IsInRange (Parameter.trust_center_address value) = IsU64 value
IsInRange (Parameter.security_mode value) = IsU8 value
IsInRange (Parameter.network_key value) = IsU8 value
IsInRange (Parameter.current_channel value) = IsU8 value
IsInRange (Parameter.protocol_version value) = IsU16 value
IsInRange (Parameter.nwk_update_id value) = IsU8 value
IsInRange (Parameter.watchdog_ttl value) = IsU32 value

-- The bytes of the value.
unfoldable pub parameter_bytes : Parameter → Bytes
parameter_bytes (Parameter.mac_address value) = to_le_bytes 8 value
parameter_bytes (Parameter.nwk_pan_id value) = to_le_bytes 2 value
parameter_bytes (Parameter.nwk_address value) = to_le_bytes 2 value
parameter_bytes (Parameter.nwk_extended_pan_id value) = to_le_bytes 8 value
parameter_bytes (Parameter.aps_designated_coordinator value) = value ∷ []
parameter_bytes (Parameter.channel_mask value) = to_le_bytes 4 value
parameter_bytes (Parameter.aps_extended_pan_id value) = to_le_bytes 8 value
parameter_bytes (Parameter.trust_center_address value) = to_le_bytes 8 value
parameter_bytes (Parameter.security_mode value) = value ∷ []
parameter_bytes (Parameter.network_key value) = value ∷ []
parameter_bytes (Parameter.current_channel value) = value ∷ []
parameter_bytes (Parameter.protocol_version value) = to_le_bytes 2 value
parameter_bytes (Parameter.nwk_update_id value) = value ∷ []
parameter_bytes (Parameter.watchdog_ttl value) = to_le_bytes 4 value

pub length-parameter_bytes : (p : Parameter) → length (parameter_bytes p) ≡ wire_len p
unfolding parameter_bytes wire_len
length-parameter_bytes (Parameter.mac_address v) = length-to_le_bytes 8 v
length-parameter_bytes (Parameter.nwk_pan_id v) = length-to_le_bytes 2 v
length-parameter_bytes (Parameter.nwk_address v) = length-to_le_bytes 2 v
length-parameter_bytes (Parameter.nwk_extended_pan_id v) = length-to_le_bytes 8 v
length-parameter_bytes (Parameter.aps_designated_coordinator v) = refl
length-parameter_bytes (Parameter.channel_mask v) = length-to_le_bytes 4 v
length-parameter_bytes (Parameter.aps_extended_pan_id v) = length-to_le_bytes 8 v
length-parameter_bytes (Parameter.trust_center_address v) = length-to_le_bytes 8 v
length-parameter_bytes (Parameter.security_mode v) = refl
length-parameter_bytes (Parameter.network_key v) = refl
length-parameter_bytes (Parameter.current_channel v) = refl
length-parameter_bytes (Parameter.protocol_version v) = length-to_le_bytes 2 v
length-parameter_bytes (Parameter.nwk_update_id v) = refl
length-parameter_bytes (Parameter.watchdog_ttl v) = length-to_le_bytes 4 v

module _ ⦃bo : Byteorder⦄ where
  pub write_parameter-Appends :
      (p : Parameter) → IsInRange p → Appends (write_parameter p) (parameter_bytes p)
  unfolding write_parameter parameter_bytes
  write_parameter-Appends (Parameter.mac_address v) h = write_u64-Appends v
  write_parameter-Appends (Parameter.nwk_pan_id v) h = write_u16-Appends v
  write_parameter-Appends (Parameter.nwk_address v) h = write_u16-Appends v
  write_parameter-Appends (Parameter.nwk_extended_pan_id v) h = write_u64-Appends v
  write_parameter-Appends (Parameter.aps_designated_coordinator v) h = write_u8-Appends v h
  write_parameter-Appends (Parameter.channel_mask v) h = write_u32-Appends v
  write_parameter-Appends (Parameter.aps_extended_pan_id v) h = write_u64-Appends v
  write_parameter-Appends (Parameter.trust_center_address v) h = write_u64-Appends v
  write_parameter-Appends (Parameter.security_mode v) h = write_u8-Appends v h
  write_parameter-Appends (Parameter.network_key v) h = write_u8-Appends v h
  write_parameter-Appends (Parameter.current_channel v) h = write_u8-Appends v h
  write_parameter-Appends (Parameter.protocol_version v) h = write_u16-Appends v
  write_parameter-Appends (Parameter.nwk_update_id v) h = write_u8-Appends v h
  write_parameter-Appends (Parameter.watchdog_ttl v) h = write_u32-Appends v

  in_parameter-Reads :
      (p : ParameterId) {m : Read Error ℕ} (g : ℕ → Parameter) {bytes : Bytes} {v : ℕ}
      → Reads m bytes v
      → Reads (do param ← in_parameter p m; pure (g param)) bytes (g v)
  in_parameter-Reads p g h = record { run = λ rest. rw (h.run rest) }

  pub read_parameter-Reads :
      (p : Parameter) → IsInRange p → Reads (read_parameter (id p)) (parameter_bytes p) p
  unfolding read_parameter id parameter_bytes
  read_parameter-Reads (Parameter.mac_address v) h = in_parameter-Reads _ _ (read_u64-Reads v h)
  read_parameter-Reads (Parameter.nwk_pan_id v) h = in_parameter-Reads _ _ (read_u16-Reads v h)
  read_parameter-Reads (Parameter.nwk_address v) h = in_parameter-Reads _ _ (read_u16-Reads v h)
  read_parameter-Reads (Parameter.nwk_extended_pan_id v) h =
      in_parameter-Reads _ _ (read_u64-Reads v h)
  read_parameter-Reads (Parameter.aps_designated_coordinator v) h =
      in_parameter-Reads _ _ (read_u8-Reads v)
  read_parameter-Reads (Parameter.channel_mask v) h = in_parameter-Reads _ _ (read_u32-Reads v h)
  read_parameter-Reads (Parameter.aps_extended_pan_id v) h =
      in_parameter-Reads _ _ (read_u64-Reads v h)
  read_parameter-Reads (Parameter.trust_center_address v) h =
      in_parameter-Reads _ _ (read_u64-Reads v h)
  read_parameter-Reads (Parameter.security_mode v) h = in_parameter-Reads _ _ (read_u8-Reads v)
  read_parameter-Reads (Parameter.network_key v) h = in_parameter-Reads _ _ (read_u8-Reads v)
  read_parameter-Reads (Parameter.current_channel v) h = in_parameter-Reads _ _ (read_u8-Reads v)
  read_parameter-Reads (Parameter.protocol_version v) h =
      in_parameter-Reads _ _ (read_u16-Reads v h)
  read_parameter-Reads (Parameter.nwk_update_id v) h = in_parameter-Reads _ _ (read_u8-Reads v)
  read_parameter-Reads (Parameter.watchdog_ttl v) h = in_parameter-Reads _ _ (read_u32-Reads v h)

  -- Writing a parameter whose value fits its type appends exactly as many bytes as its wire length
  -- says, whatever the buffer held, and reading a parameter of its identifier from those bytes
  -- returns it and leaves what follows them.
  pub read_parameter-write_parameter :
      (p : Parameter) (w rest : Bytes)
      → IsInRange p
      → (bytes : Bytes) × (write_parameter p w ≡ ok (w ++ bytes))
        × (length bytes ≡ wire_len p)
        × (read_parameter (id p) (bytes ++ rest) ≡ ok (p, rest))
  read_parameter-write_parameter p w rest h = (
    parameter_bytes p,
    write_parameter-Appends p h w,
    length-parameter_bytes p,
    (read_parameter-Reads p h).run rest,
  )
