-- ===== src/Zdo/Protocol/Encoding.antt =====
-- The bytes of the zdo messages, written independently of the code that reads them.
use tophamm.Base.{All, ℕ, ◌+◌, ◌*◌, List, [], ◌∷◌, ◌++◌, Bytes, length, IsU16, IsU64}
use tophamm.Base.Little.{to_le_bytes}
use tophamm.Deconz.Types.{Endpoint, ClusterId}
use tophamm.Zdo.Protocol.{
  SimpleDescResponse, ActiveEpResponse, MgmtLqiResponse, Neighbor, DeviceType, RxOnWhileIdle,
  NeighborRelationship, PermitJoining,
}

unfoldable pub concat : {A : Type 0} → (A → Bytes) → List A → Bytes
concat f [] = []
concat f (x ∷ xs) = f x ++ concat f xs

abbrev pub type_bits : DeviceType → ℕ
type_bits DeviceType.coordinator = 0
type_bits DeviceType.router = 1
type_bits DeviceType.end_device = 2
type_bits DeviceType.unknown = 3

abbrev pub idle_bits : RxOnWhileIdle → ℕ
idle_bits RxOnWhileIdle.off = 0
idle_bits RxOnWhileIdle.on = 1
idle_bits RxOnWhileIdle.unknown = 2

abbrev pub relationship_bits : NeighborRelationship → ℕ
relationship_bits NeighborRelationship.parent = 0
relationship_bits NeighborRelationship.child = 1
relationship_bits NeighborRelationship.sibling = 2
relationship_bits NeighborRelationship.none = 3
relationship_bits NeighborRelationship.previous_child = 4

abbrev pub joining_bits : PermitJoining → ℕ
joining_bits PermitJoining.accepting = 0
joining_bits PermitJoining.not_accepting = 1
joining_bits PermitJoining.unknown = 2

-- Device type in bits 0 and 1, the receiver's behaviour in 2 and 3, the relationship from 4 on.
abbrev pub pack : DeviceType → RxOnWhileIdle → NeighborRelationship → ℕ
pack t i r = type_bits t + 4 * idle_bits i + 16 * relationship_bits r

unfoldable pub neighbor_bytes : Neighbor → Bytes
neighbor_bytes n =
    to_le_bytes 8 n.extended_pan_id
    ++ (to_le_bytes 8 n.extended_address.value
        ++ (to_le_bytes 2 n.network_address.value
            ++ (pack n.device_type n.rx_on_while_idle n.relationship
                ∷ joining_bits n.permit_joining
                ∷ n.depth
                ∷ n.link_quality_index
                ∷ [])))

pub record IsNeighbor (n : Neighbor) : Type 0 where
  pub extended_pan_id : IsU64 n.extended_pan_id
  pub extended_address : IsU64 n.extended_address.value
  pub network_address : IsU16 n.network_address.value

unfoldable pub mgmt_lqi_bytes : MgmtLqiResponse → Bytes
mgmt_lqi_bytes r =
    r.status
    ∷ r.neighbor_table_entries
    ∷ r.start_index
    ∷ length r.neighbor_table_list
    ∷ concat neighbor_bytes r.neighbor_table_list

abbrev pub endpoint_bytes : Endpoint → Bytes
endpoint_bytes e = e.value ∷ []

unfoldable pub active_ep_bytes : ActiveEpResponse → Bytes
active_ep_bytes r =
    r.status ∷ to_le_bytes 2 r.addr.value
    ++ (length r.active_endpoints ∷ concat endpoint_bytes r.active_endpoints)

abbrev pub cluster_bytes : ClusterId → Bytes
cluster_bytes c = to_le_bytes 2 c.value

abbrev pub IsCluster : ClusterId → Type 0
IsCluster c = IsU16 c.value

-- The length of the descriptor is between the address and the descriptor; it is not looked at.
unfoldable pub simple_desc_bytes : SimpleDescResponse → ℕ → Bytes
simple_desc_bytes r len =
    let d = r.simple_descriptor in
    r.status ∷ to_le_bytes 2 r.addr.value
    ++ (len ∷ d.endpoint.value ∷ to_le_bytes 2 d.profile.value
        ++ (to_le_bytes 2 d.device_identifier
            ++ (d.device_version ∷ length d.input_clusters ∷ concat cluster_bytes d.input_clusters
                ++ (length d.output_clusters ∷ concat cluster_bytes d.output_clusters))))

pub record IsSimpleDesc (r : SimpleDescResponse) : Type 0 where
  pub addr : IsU16 r.addr.value
  pub profile : IsU16 r.simple_descriptor.profile.value
  pub device_identifier : IsU16 r.simple_descriptor.device_identifier
  pub input_clusters : All IsCluster r.simple_descriptor.input_clusters
  pub output_clusters : All IsCluster r.simple_descriptor.output_clusters
