-- ===== src/Deconz/Wire/Wrapped.antt =====
-- The wrapped integers of types.rs on the wire.
use tophamm.Base.{[], ◌∷◌, IsU8, IsU16, IsU64}
use tophamm.Base.Little.{to_le_bytes}
use tophamm.Deconz.Types.{Endpoint, ProfileId, ClusterId, ShortAddress, ExtendedAddress}
use tophamm.Deconz.Wire.Reading.{Reads, pure-Reads}
use tophamm.Deconz.Wire.Writing.{Appends}
use tophamm.Deconz.Wire.External.{Byteorder}
use tophamm.Deconz.Wire.Laws.{
  read_u8-Reads, read_u16-Reads, read_u64-Reads, write_u8-Appends, write_u16-Appends,
  write_u64-Appends,
}
use tophamm.Deconz.Wire.{
  read_endpoint, read_profile_id, read_cluster_id, read_short_address, read_extended_address,
  write_endpoint, write_profile_id, write_cluster_id, write_short_address, write_extended_address,
}

module _ ⦃bo : Byteorder⦄ where
  pub read_endpoint-Reads : (e : Endpoint) → Reads read_endpoint (e.value ∷ []) e
  unfolding read_endpoint
  read_endpoint-Reads e = pure-Reads _ (read_u8-Reads e.value)

  pub read_profile_id-Reads :
      (p : ProfileId) → IsU16 p.value → Reads read_profile_id (to_le_bytes 2 p.value) p
  unfolding read_profile_id
  read_profile_id-Reads p h = pure-Reads _ (read_u16-Reads p.value h)

  pub read_cluster_id-Reads :
      (c : ClusterId) → IsU16 c.value → Reads read_cluster_id (to_le_bytes 2 c.value) c
  unfolding read_cluster_id
  read_cluster_id-Reads c h = pure-Reads _ (read_u16-Reads c.value h)

  pub read_short_address-Reads :
      (a : ShortAddress) → IsU16 a.value → Reads read_short_address (to_le_bytes 2 a.value) a
  unfolding read_short_address
  read_short_address-Reads a h = pure-Reads _ (read_u16-Reads a.value h)

  pub read_extended_address-Reads :
      (a : ExtendedAddress) → IsU64 a.value → Reads read_extended_address (to_le_bytes 8 a.value) a
  unfolding read_extended_address
  read_extended_address-Reads a h = pure-Reads _ (read_u64-Reads a.value h)

  pub write_endpoint-Appends :
      (e : Endpoint) → IsU8 e.value → Appends (write_endpoint e) (e.value ∷ [])
  unfolding write_endpoint
  write_endpoint-Appends e h = write_u8-Appends e.value h

  pub write_profile_id-Appends :
      (p : ProfileId) → Appends (write_profile_id p) (to_le_bytes 2 p.value)
  unfolding write_profile_id
  write_profile_id-Appends p = write_u16-Appends p.value

  pub write_cluster_id-Appends :
      (c : ClusterId) → Appends (write_cluster_id c) (to_le_bytes 2 c.value)
  unfolding write_cluster_id
  write_cluster_id-Appends c = write_u16-Appends c.value

  pub write_short_address-Appends :
      (a : ShortAddress) → Appends (write_short_address a) (to_le_bytes 2 a.value)
  unfolding write_short_address
  write_short_address-Appends a = write_u16-Appends a.value

  pub write_extended_address-Appends :
      (a : ExtendedAddress) → Appends (write_extended_address a) (to_le_bytes 8 a.value)
  unfolding write_extended_address
  write_extended_address-Appends a = write_u64-Appends a.value
