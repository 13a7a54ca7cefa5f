-- ===== src/Deconz/Types.antt =====
-- The data of deconz/src/types.rs, and the identifiers that errors carry: the commands of
-- protocol.rs, the parameters of parameters.rs and the errors of slip.rs.
use tophamm.Base.{ℕ, Bool, false, Bytes}

pub record Endpoint : Type 0 where
  pub value : ℕ

pub record ProfileId : Type 0 where
  pub value : ℕ

pub record ClusterId : Type 0 where
  pub value : ℕ

pub record ShortAddress : Type 0 where
  pub value : ℕ

pub record ExtendedAddress : Type 0 where
  pub value : ℕ

pub data Platform : Type 0 where
  avr arm : Platform
  unknown : ℕ → Platform

pub record Version : Type 0 where
  pub major : ℕ
  pub minor : ℕ

pub data NetworkState : Type 0 where
  offline joining connected leaving : NetworkState

pub record DeviceState : Type 0 where
  pub network_state : NetworkState
  pub data_confirm : Bool
  pub data_indication : Bool
  pub data_request_free_slots : Bool
  pub configuration_changed : Bool

abbrev pub default_device_state : DeviceState
default_device_state = record {
  network_state = offline;
  data_confirm = false;
  data_indication = false;
  data_request_free_slots = false;
  configuration_changed = false;
}

pub data DestinationAddress : Type 0 where
  group : ShortAddress → DestinationAddress
  nwk : ShortAddress → DestinationAddress
  ieee : ExtendedAddress → DestinationAddress

pub record SourceAddress : Type 0 where
  pub short : ShortAddress
  pub extended : ExtendedAddress

pub record ApsDataIndication : Type 0 where
  pub destination_address : DestinationAddress
  pub destination_endpoint : Endpoint
  pub source_address : SourceAddress
  pub source_endpoint : Endpoint
  pub profile_id : ProfileId
  pub cluster_id : ClusterId
  pub asdu : Bytes

pub data Destination : Type 0 where
  group : ShortAddress → Destination
  nwk : ShortAddress → Endpoint → Destination
  ieee : ExtendedAddress → Endpoint → Destination

pub record ApsDataRequest : Type 0 where
  pub destination : Destination
  pub profile_id : ProfileId
  pub cluster_id : ClusterId
  pub source_endpoint : Endpoint
  pub asdu : Bytes

pub record ApsDataConfirm : Type 0 where
  pub destination : Destination
  pub source_endpoint : Endpoint
  pub status : ℕ

pub data CommandId : Type 0 where
  version read_parameter write_parameter device_state device_state_changed : CommandId
  aps_data_indication aps_data_request aps_data_confirm mac_poll : CommandId

pub data ParameterId : Type 0 where
  mac_address nwk_pan_id nwk_address nwk_extended_pan_id : ParameterId
  aps_designated_coordinator channel_mask aps_extended_pan_id : ParameterId
  trust_center_address security_mode network_key current_channel : ParameterId
  protocol_version nwk_update_id watchdog_ttl : ParameterId

pub data SlipError : Type 0 where
  missing_crc mismatched_crc invalid_escape : SlipError
