-- ===== src/Deconz/Wire.antt =====
-- The traits ReadWire and WriteWire of deconz/src/lib.rs at the integer types and at the wrapped
-- integers of types.rs.
pub mod Reading
pub mod Writing
pub mod External
pub mod Laws
pub mod Wrapped
use tophamm.Base.{ℕ, Bytes}
use tophamm.Outcome.{map_err}
use tophamm.Deconz.Errors.{Error, from_io}
use tophamm.Deconz.Types.{Endpoint, ProfileId, ClusterId, ShortAddress, ExtendedAddress}
use Reading.{Read, ◌>>=◌, pure}
use Writing.{Write}
use External.{Byteorder}

module _ ⦃bo : Byteorder⦄ where
  pub read_u8 : Read Error ℕ
  read_u8 r = map_err from_io (bo.read_uint 1 r)

  pub read_u16 : Read Error ℕ
  read_u16 r = map_err from_io (bo.read_uint 2 r)

  pub read_u32 : Read Error ℕ
  read_u32 r = map_err from_io (bo.read_uint 4 r)

  pub read_u64 : Read Error ℕ
  read_u64 r = map_err from_io (bo.read_uint 8 r)

  pub write_u8 : ℕ → Write Error
  write_u8 v w = map_err from_io (bo.write_uint 1 v w)

  pub write_u16 : ℕ → Write Error
  write_u16 v w = map_err from_io (bo.write_uint 2 v w)

  pub write_u32 : ℕ → Write Error
  write_u32 v w = map_err from_io (bo.write_uint 4 v w)

  pub write_u64 : ℕ → Write Error
  write_u64 v w = map_err from_io (bo.write_uint 8 v w)

  pub read_endpoint : Read Error Endpoint
  read_endpoint = do value ← read_u8; pure (record { value = value })

  pub read_profile_id : Read Error ProfileId
  read_profile_id = do value ← read_u16; pure (record { value = value })

  pub read_cluster_id : Read Error ClusterId
  read_cluster_id = do value ← read_u16; pure (record { value = value })

  pub read_short_address : Read Error ShortAddress
  read_short_address = do value ← read_u16; pure (record { value = value })

  pub read_extended_address : Read Error ExtendedAddress
  read_extended_address = do value ← read_u64; pure (record { value = value })

  pub write_endpoint : Endpoint → Write Error
  write_endpoint e = write_u8 e.value

  pub write_profile_id : ProfileId → Write Error
  write_profile_id p = write_u16 p.value

  pub write_cluster_id : ClusterId → Write Error
  write_cluster_id c = write_u16 c.value

  pub write_short_address : ShortAddress → Write Error
  write_short_address a = write_u16 a.value

  pub write_extended_address : ExtendedAddress → Write Error
  write_extended_address a = write_u64 a.value

-- `wire_len` of the integers, as the source has it.
abbrev pub u8_wire_len : ℕ
u8_wire_len = 1

abbrev pub u16_wire_len : ℕ
u16_wire_len = 2

abbrev pub u32_wire_len : ℕ
u32_wire_len = 2

abbrev pub u64_wire_len : ℕ
u64_wire_len = 8
