-- ===== src/Tests/Queries.antt =====
-- The zdo layer at concrete messages and a device of three neighbours.
use tophamm.Base.{◌≡◌, [], ◌∷◌, ◌++◌, replicate, arith}
use tophamm.Outcome.{release, ok}
use tophamm.Deconz.Types.{Destination, DestinationAddress, ApsDataIndication}
use tophamm.Deconz.Wire.External.{Byteorder, byteorder}
use tophamm.Zdo.Protocol.{
  SimpleDescResponse, ActiveEpResponse, MgmtLqiResponse, Neighbor, DeviceType, RxOnWhileIdle,
  NeighborRelationship, PermitJoining, read_mgmt_lqi_response,
}
use tophamm.Zdo.Protocol.Encoding.{IsNeighbor, mgmt_lqi_bytes, IsSimpleDesc}
use tophamm.Zdo.Protocol.RoundTrip.{read_mgmt_lqi_response-mgmt_lqi_bytes}
use tophamm.Zdo.Neighbors.{waiting, get_neighbors}
use tophamm.Zdo.Neighbors.Table.{pieces, get_neighbors_no_progress}
use tophamm.Zdo.Transactions.{Channel, replied}

instance abbrev cursor : Byteorder
cursor = byteorder

abbrev pub lamp : Neighbor
lamp = record {
  extended_pan_id = 0x21;
  extended_address = record { value = 0x43 };
  network_address = record { value = 0x1234 };
  device_type = DeviceType.router;
  rx_on_while_idle = RxOnWhileIdle.on;
  relationship = NeighborRelationship.previous_child;
  permit_joining = PermitJoining.unknown;
  depth = 15;
  link_quality_index = 200;
}

pub lamp-IsNeighbor : IsNeighbor lamp
lamp-IsNeighbor = record {
  extended_pan_id = omega arith;
  extended_address = omega arith;
  network_address = omega arith;
}

abbrev pub table : MgmtLqiResponse
table = record {
  status = 0;
  neighbor_table_entries = 1;
  start_index = 0;
  neighbor_table_list = lamp ∷ [];
}

read_mgmt_lqi_response-mgmt_lqi_bytes_example :
    read_mgmt_lqi_response (mgmt_lqi_bytes table ++ 9 ∷ []) ≡ ok (table, 9 ∷ [])
read_mgmt_lqi_response-mgmt_lqi_bytes_example =
    read_mgmt_lqi_response-mgmt_lqi_bytes table (9 ∷ []) (lamp-IsNeighbor, tt)

abbrev pub active : ActiveEpResponse
active = record {
  status = 0;
  addr = record { value = 0x1234 };
  active_endpoints = record { value = 1 } ∷ record { value = 242 } ∷ [];
}

abbrev pub description : SimpleDescResponse
description = record {
  status = 0;
  addr = record { value = 0x1234 };
  simple_descriptor = record {
    endpoint = record { value = 1 };
    profile = record { value = 0x0104 };
    device_identifier = 0x0100;
    device_version = 1;
    input_clusters = record { value = 6 } ∷ record { value = 8 } ∷ [];
    output_clusters = record { value = 0x19 } ∷ [];
  };
}

pub description-IsSimpleDesc : IsSimpleDesc description
description-IsSimpleDesc = record {
  addr = omega arith;
  profile = omega arith;
  device_identifier = omega arith;
  input_clusters = (omega arith, (omega arith, tt));
  output_clusters = (omega arith, tt);
}

get_neighbors_no_progress_example :
    get_neighbors release (pieces 3 0 (replicate 5 [])) ≡ waiting 0 []
get_neighbors_no_progress_example =
    get_neighbors_no_progress release 3 5 (omega arith) (omega arith)

abbrev pub answer : ApsDataIndication
answer = record {
  destination_address = DestinationAddress.nwk (record { value = 0 });
  destination_endpoint = record { value = 0 };
  source_address = record { short = record { value = 0x1234 }; extended = record { value = 0x43 } };
  source_endpoint = record { value = 0 };
  profile_id = record { value = 0 };
  cluster_id = record { value = 0x8031 };
  asdu = 255 ∷ mgmt_lqi_bytes table ++ [];
}

abbrev device : Channel
device request = replied (ok answer)

abbrev pub coordinator : Destination
coordinator = Destination.nwk (record { value = 0 }) (record { value = 0 })
