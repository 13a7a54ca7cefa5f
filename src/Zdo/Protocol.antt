-- ===== src/Zdo/Protocol.antt =====
-- tophamm/src/zdo/protocol.rs: the requests and responses of the three commands.
pub mod Encoding
pub mod Reserved
pub mod RoundTrip
use tophamm.Base.{ℕ, zero, suc, ◌/◌, ◌==◌, if◌then◌else◌, bit_and, List, [], ◌∷◌}
use tophamm.Outcome.{Outcome, ok, panic, map_err}
use tophamm.Deconz.Types.{Endpoint, ProfileId, ClusterId, ShortAddress, ExtendedAddress}
use tophamm.Deconz.Errors
use tophamm.Deconz.Wire.Reading.{Read, ◌>>=◌, pure, lift}
use tophamm.Deconz.Wire.Writing.{Write, ◌>>◌}
use tophamm.Deconz.Wire.External.{Byteorder}
use tophamm.Deconz.Wire.{
  read_u8, read_u16, read_u64, read_endpoint, read_profile_id, read_cluster_id, read_short_address,
  read_extended_address, write_u8, write_short_address, write_endpoint,
}
use tophamm.Zdo.Errors.{Error, Result, from_deconz}

pub record SimpleDescRequest : Type 0 where
  pub addr : ShortAddress
  pub endpoint : Endpoint

pub record SimpleDescriptor : Type 0 where
  pub endpoint : Endpoint
  pub profile : ProfileId
  pub device_identifier : ℕ
  pub device_version : ℕ
  pub input_clusters : List ClusterId
  pub output_clusters : List ClusterId

pub record SimpleDescResponse : Type 0 where
  pub status : ℕ
  pub addr : ShortAddress
  pub simple_descriptor : SimpleDescriptor

pub record ActiveEpRequest : Type 0 where
  pub addr : ShortAddress

pub record ActiveEpResponse : Type 0 where
  pub status : ℕ
  pub addr : ShortAddress
  pub active_endpoints : List Endpoint

pub record MgmtLqiRequest : Type 0 where
  pub start_index : ℕ

pub data DeviceType : Type 0 where
  coordinator router end_device unknown : DeviceType

pub data RxOnWhileIdle : Type 0 where
  off on unknown : RxOnWhileIdle

pub data NeighborRelationship : Type 0 where
  parent child sibling none previous_child : NeighborRelationship

pub data PermitJoining : Type 0 where
  accepting not_accepting unknown : PermitJoining

pub record Neighbor : Type 0 where
  pub extended_pan_id : ℕ
  pub extended_address : ExtendedAddress
  pub network_address : ShortAddress
  pub device_type : DeviceType
  pub rx_on_while_idle : RxOnWhileIdle
  pub relationship : NeighborRelationship
  pub permit_joining : PermitJoining
  pub depth : ℕ
  pub link_quality_index : ℕ

pub record MgmtLqiResponse : Type 0 where
  pub status : ℕ
  pub neighbor_table_entries : ℕ
  pub start_index : ℕ
  pub neighbor_table_list : List Neighbor

-- `byte & 0b11`; the last arm of each match is `unreachable!`.
device_type_of_bits : ℕ → Result DeviceType
device_type_of_bits bits =
    if bits == 0x0
    then ok DeviceType.coordinator
    else if bits == 0x1
    then ok DeviceType.router
    else if bits == 0x2
    then ok DeviceType.end_device
    else if bits == 0x3
    then ok DeviceType.unknown
    else panic

rx_on_while_idle_of_bits : ℕ → Result RxOnWhileIdle
rx_on_while_idle_of_bits bits =
    if bits == 0x0
    then ok RxOnWhileIdle.off
    else if bits == 0x1
    then ok RxOnWhileIdle.on
    else if bits == 0x2
    then ok RxOnWhileIdle.unknown
    else if bits == 0x3
    then ok RxOnWhileIdle.unknown
    else panic

relationship_of_bits : ℕ → Result NeighborRelationship
relationship_of_bits bits =
    if bits == 0x0
    then ok NeighborRelationship.parent
    else if bits == 0x1
    then ok NeighborRelationship.child
    else if bits == 0x2
    then ok NeighborRelationship.sibling
    else if bits == 0x3
    then ok NeighborRelationship.none
    else if bits == 0x4
    then ok NeighborRelationship.previous_child
    else panic

permit_joining_of_bits : ℕ → Result PermitJoining
permit_joining_of_bits bits =
    if bits == 0x0
    then ok PermitJoining.accepting
    else if bits == 0x1
    then ok PermitJoining.not_accepting
    else if bits == 0x2
    then ok PermitJoining.unknown
    else if bits == 0x3
    then ok PermitJoining.unknown
    else panic

-- A field of the library, whose error is converted by `?`.
abbrev pub field {ℓ} : {A : Type ℓ} → Read Errors.Error A → Read Error A
field m r = map_err from_deconz (m r)

abbrev pub put : Write Errors.Error → Write Error
put m w = map_err from_deconz (m w)

-- `for _ in 0..count`
pub read_list : {A : Type 0} → ℕ → Read Error A → Read Error (List A)
read_list zero m = pure []
read_list (suc n) m = do x ← m; xs ← read_list n m; pure (x ∷ xs)

module _ ⦃bo : Byteorder⦄ where
  unfoldable pub write_simple_desc_request : SimpleDescRequest → Write Error
  write_simple_desc_request request = do
    put (write_short_address request.addr)
    put (write_endpoint request.endpoint)

  unfoldable pub write_active_ep_request : ActiveEpRequest → Write Error
  write_active_ep_request request = put (write_short_address request.addr)

  unfoldable pub write_mgmt_lqi_request : MgmtLqiRequest → Write Error
  write_mgmt_lqi_request request = put (write_u8 request.start_index)

  pub read_simple_desc_response : Read Error SimpleDescResponse
  unfolding read_list
  read_simple_desc_response = do
    status ← field read_u8
    addr ← field read_short_address
    _ ← field read_u8
    endpoint ← field read_endpoint
    profile ← field read_profile_id
    device_identifier ← field read_u16
    device_version ← field read_u8
    input_count ← field read_u8
    input_clusters ← read_list input_count (field read_cluster_id)
    output_count ← field read_u8
    output_clusters ← read_list output_count (field read_cluster_id)
    pure (record {
      status = status;
      addr = addr;
      simple_descriptor = record {
        endpoint = endpoint;
        profile = profile;
        device_identifier = device_identifier;
        device_version = device_version;
        input_clusters = input_clusters;
        output_clusters = output_clusters;
      };
    })

  pub read_active_ep_response : Read Error ActiveEpResponse
  unfolding read_list
  read_active_ep_response = do
    status ← field read_u8
    addr ← field read_short_address
    count ← field read_u8
    active_endpoints ← read_list count (field read_endpoint)
    pure (record { status = status; addr = addr; active_endpoints = active_endpoints })

  -- A round of the loop over the table.
  pub read_neighbor : Read Error Neighbor
  unfolding device_type_of_bits rx_on_while_idle_of_bits relationship_of_bits permit_joining_of_bits
  read_neighbor = do
    extended_pan_id ← field read_u64
    extended_address ← field read_extended_address
    network_address ← field read_short_address
    byte ← field read_u8
    device_type ← lift (device_type_of_bits (bit_and byte 0b11))
    rx_on_while_idle ← lift (rx_on_while_idle_of_bits (bit_and (byte / 4) 0b11))
    relationship ← lift (relationship_of_bits (bit_and (byte / 16) 0b111))
    joining ← field read_u8
    permit_joining ← lift (permit_joining_of_bits (bit_and joining 0b11))
    depth ← field read_u8
    link_quality_index ← field read_u8
    pure (record {
      extended_pan_id = extended_pan_id;
      extended_address = extended_address;
      network_address = network_address;
      device_type = device_type;
      rx_on_while_idle = rx_on_while_idle;
      relationship = relationship;
      permit_joining = permit_joining;
      depth = depth;
      link_quality_index = link_quality_index;
    })

  pub read_mgmt_lqi_response : Read Error MgmtLqiResponse
  unfolding read_list read_neighbor
  read_mgmt_lqi_response = do
    status ← field read_u8
    neighbor_table_entries ← field read_u8
    start_index ← field read_u8
    count ← field read_u8
    neighbor_table_list ← read_list count read_neighbor
    pure (record {
      status = status;
      neighbor_table_entries = neighbor_table_entries;
      start_index = start_index;
      neighbor_table_list = neighbor_table_list;
    })
