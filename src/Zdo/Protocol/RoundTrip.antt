-- ===== src/Zdo/Protocol/RoundTrip.antt =====
-- The readers of zdo responses take back the bytes of the messages.
use tophamm.Base.{ℕ, IsU16, ◌≡◌, refl, ◌/◌, bit_and, List, [], ◌∷◌, ◌++◌, Bytes, length, All, arith}
use tophamm.Outcome.{ok}
use tophamm.Deconz.Errors
use tophamm.Deconz.Wire.Reading.{Read, Reads, >>=-Reads, pure-Reads, lift}
use tophamm.Deconz.Wire.External.{Byteorder}
use tophamm.Deconz.Types.{Endpoint, ClusterId}
use tophamm.Deconz.Wire.Laws.{read_u16-Reads, read_u8-Reads, read_u64-Reads}
use tophamm.Deconz.Wire.Wrapped.{
  read_endpoint-Reads, read_profile_id-Reads, read_cluster_id-Reads, read_short_address-Reads,
  read_extended_address-Reads,
}
use tophamm.Zdo.Errors.{Error}
use tophamm.Zdo.Protocol.{
  SimpleDescResponse, ActiveEpResponse, read_simple_desc_response, read_active_ep_response,
  DeviceType, RxOnWhileIdle, NeighborRelationship, PermitJoining, Neighbor, MgmtLqiResponse,
  device_type_of_bits, rx_on_while_idle_of_bits, relationship_of_bits, permit_joining_of_bits,
  field, read_list, read_neighbor, read_mgmt_lqi_response,
}
use tophamm.Zdo.Protocol.Encoding.{
  simple_desc_bytes, IsSimpleDesc, cluster_bytes, IsCluster, endpoint_bytes, active_ep_bytes,
  concat, pack, joining_bits, neighbor_bytes, IsNeighbor, mgmt_lqi_bytes,
}

device_type-pack :
    (t : DeviceType) (i : RxOnWhileIdle) (r : NeighborRelationship)
    → device_type_of_bits (bit_and (pack t i r) 0b11) ≡ ok t
unfolding device_type_of_bits
device_type-pack t i r = ground arith

rx_on_while_idle-pack :
    (t : DeviceType) (i : RxOnWhileIdle) (r : NeighborRelationship)
    → rx_on_while_idle_of_bits (bit_and (pack t i r / 4) 0b11) ≡ ok i
unfolding rx_on_while_idle_of_bits
rx_on_while_idle-pack t i r = ground arith

relationship-pack :
    (t : DeviceType) (i : RxOnWhileIdle) (r : NeighborRelationship)
    → relationship_of_bits (bit_and (pack t i r / 16) 0b111) ≡ ok r
unfolding relationship_of_bits
relationship-pack t i r = ground arith

permit_joining-bits :
    (p : PermitJoining) → permit_joining_of_bits (bit_and (joining_bits p) 0b11) ≡ ok p
unfolding permit_joining_of_bits
permit_joining-bits p = ground arith

pub field-Reads :
    {A : Type 0} {m : Read Errors.Error A} {bytes : Bytes} {a : A}
    → Reads m bytes a
    → Reads (field m) bytes a
field-Reads h = record { run = λ rest. rw (h.run rest) }

pub lift-Reads : {A : Type 0} {m : _} {a : A} → m ≡ ok a → Reads {E = Error} (lift m) [] a
lift-Reads e = record { run = λ rest. rw e }

read_list-Reads :
    {A : Type 0} (m : Read Error A) (f : A → Bytes) (P : A → Type 0) (xs : List A)
    → ((x : A) → P x → Reads m (f x) x)
    → All P xs
    → Reads (read_list (length xs) m) (concat f xs) xs
unfolding read_list concat
read_list-Reads m f P [] h hs = record { run = λ rest. refl }
read_list-Reads m f P (x ∷ xs) h (hx, hs) =
    >>=-Reads _ (f x) (h x hx) (pure-Reads _ (read_list-Reads m f P xs h hs))

any_endpoints : (es : List Endpoint) → All (λ (e : Endpoint). Unit {0}) es
any_endpoints [] = tt
any_endpoints (e ∷ es) = (tt, any_endpoints es)

module _ ⦃bo : Byteorder⦄ where
  pub read_neighbor-Reads : (n : Neighbor) → IsNeighbor n → Reads read_neighbor (neighbor_bytes n) n
  unfolding read_neighbor neighbor_bytes
  read_neighbor-Reads n h =
      >>=-Reads _ _ (field-Reads (read_u64-Reads n.extended_pan_id h.extended_pan_id)) (
        >>=-Reads _ _
          (field-Reads (read_extended_address-Reads n.extended_address h.extended_address))
          (>>=-Reads _ _
            (field-Reads (read_short_address-Reads n.network_address h.network_address))
            (>>=-Reads _ (_ ∷ []) (field-Reads (read_u8-Reads _)) (
              >>=-Reads _ [] (lift-Reads (device_type-pack n.device_type _ _)) (
                >>=-Reads _ [] (lift-Reads (rx_on_while_idle-pack _ n.rx_on_while_idle _)) (
                  >>=-Reads _ [] (lift-Reads (relationship-pack _ _ n.relationship)) (
                    >>=-Reads _ (_ ∷ []) (field-Reads (read_u8-Reads _)) (
                      >>=-Reads _ [] (lift-Reads (permit_joining-bits n.permit_joining)) (
                        >>=-Reads _ (_ ∷ []) (field-Reads (read_u8-Reads n.depth))
                          (pure-Reads _ (field-Reads (read_u8-Reads n.link_quality_index))))))))))))

  -- A table response whose neighbours' numbers fit their types is read back from its bytes, every
  -- neighbour with its bit fields included, and what follows the bytes is left.
  pub read_mgmt_lqi_response-mgmt_lqi_bytes :
      (r : MgmtLqiResponse) (rest : Bytes)
      → All IsNeighbor r.neighbor_table_list
      → read_mgmt_lqi_response (mgmt_lqi_bytes r ++ rest) ≡ ok (r, rest)
  unfolding read_mgmt_lqi_response mgmt_lqi_bytes
  read_mgmt_lqi_response-mgmt_lqi_bytes r rest h =
      (>>=-Reads _ (_ ∷ []) (field-Reads (read_u8-Reads r.status)) (
          >>=-Reads _ (_ ∷ []) (field-Reads (read_u8-Reads r.neighbor_table_entries)) (
            >>=-Reads _ (_ ∷ []) (field-Reads (read_u8-Reads r.start_index)) (
              >>=-Reads _ (_ ∷ []) (field-Reads (read_u8-Reads (length r.neighbor_table_list))) (
                pure-Reads _ (
                  read_list-Reads _ neighbor_bytes IsNeighbor r.neighbor_table_list
                    read_neighbor-Reads h)))))).run
        rest

  -- An endpoint response whose address fits its type is read back from its bytes, and what follows
  -- them is left.
  pub read_active_ep_response-active_ep_bytes :
      (r : ActiveEpResponse) (rest : Bytes)
      → IsU16 r.addr.value
      → read_active_ep_response (active_ep_bytes r ++ rest) ≡ ok (r, rest)
  unfolding read_active_ep_response active_ep_bytes
  read_active_ep_response-active_ep_bytes r rest ha =
      (>>=-Reads _ (_ ∷ []) (field-Reads (read_u8-Reads r.status)) (
          >>=-Reads _ _ (field-Reads (read_short_address-Reads r.addr ha)) (
            >>=-Reads _ (_ ∷ []) (field-Reads (read_u8-Reads (length r.active_endpoints))) (
              pure-Reads _ (
                read_list-Reads _ endpoint_bytes _ r.active_endpoints
                  (λ e u. field-Reads (read_endpoint-Reads e))
                  (any_endpoints r.active_endpoints)))))).run
        rest

  -- A descriptor response whose numbers fit their types is read back from its bytes, whatever
  -- length stands in front of the descriptor, and what follows the bytes is left.
  pub read_simple_desc_response-simple_desc_bytes :
      (r : SimpleDescResponse) (len : ℕ) (rest : Bytes)
      → IsSimpleDesc r
      → read_simple_desc_response (simple_desc_bytes r len ++ rest) ≡ ok (r, rest)
  unfolding read_simple_desc_response simple_desc_bytes
  read_simple_desc_response-simple_desc_bytes r len rest h =
      let d = r.simple_descriptor in
      let cluster =
        λ (c : ClusterId) (hc : IsCluster c). field-Reads (read_cluster_id-Reads c hc) in
      (>>=-Reads _ (_ ∷ []) (field-Reads (read_u8-Reads r.status)) (
          >>=-Reads _ _ (field-Reads (read_short_address-Reads r.addr h.addr)) (
            >>=-Reads _ (len ∷ []) (field-Reads (read_u8-Reads len)) (
              >>=-Reads _ (_ ∷ []) (field-Reads (read_endpoint-Reads d.endpoint)) (
                >>=-Reads _ _ (field-Reads (read_profile_id-Reads d.profile h.profile)) (
                  >>=-Reads _ _
                    (field-Reads (read_u16-Reads d.device_identifier h.device_identifier))
                    (>>=-Reads _ (_ ∷ []) (field-Reads (read_u8-Reads d.device_version)) (
                      >>=-Reads _ (_ ∷ []) (field-Reads (read_u8-Reads (length d.input_clusters))) (
                        >>=-Reads _ _
                          (read_list-Reads _ cluster_bytes IsCluster d.input_clusters cluster
                            h.input_clusters)
                          (>>=-Reads _ (_ ∷ [])
                            (field-Reads (read_u8-Reads (length d.output_clusters)))
                            (pure-Reads _ (
                              read_list-Reads _ cluster_bytes IsCluster d.output_clusters cluster
                                h.output_clusters)))))))))))).run
        rest
