-- ===== src/Zdo/Transactions/Calls.antt =====
-- What the requests of the zdo layer send, and what they make of the replies.
use tophamm.Base.{ℕ, ◌+◌, ◌%◌, ◌≡◌, refl, [], ◌∷◌, ◌++◌, Bytes, All, IsU8, IsU16}
use tophamm.Base.Little.{to_le_bytes}
use tophamm.Outcome.{ok}
use tophamm.Deconz.Types.{Endpoint, ClusterId, ShortAddress, Destination, ApsDataIndication}
use tophamm.Deconz.Wire.Reading.{Read}
use tophamm.Deconz.Wire.Writing.{Write, Appends, >>-Appends}
use tophamm.Deconz.Errors
use tophamm.Deconz.Wire.External.{Byteorder}
use tophamm.Deconz.Wire.Laws.{write_u8-Appends}
use tophamm.Deconz.Wire.Wrapped.{write_short_address-Appends, write_endpoint-Appends}
use tophamm.Helpers.IncrementingId.{next}
use tophamm.Zdo.Errors.{Error}
use tophamm.Zdo.Protocol.{
  SimpleDescResponse, ActiveEpResponse, MgmtLqiResponse, put, write_simple_desc_request,
  write_active_ep_request, write_mgmt_lqi_request,
}
use tophamm.Zdo.Protocol.Encoding.{
  mgmt_lqi_bytes, active_ep_bytes, simple_desc_bytes, IsSimpleDesc, IsNeighbor,
}
use tophamm.Zdo.Protocol.RoundTrip.{
  read_mgmt_lqi_response-mgmt_lqi_bytes, read_active_ep_response-active_ep_bytes,
  read_simple_desc_response-simple_desc_bytes,
}
use tophamm.Zdo.Transactions.{
  Channel, replied, data_request, make_request, request_mgmt_lqi, request_active_ep,
  request_simple_desc,
}

put-Appends : {m : Write Errors.Error} {bytes : Bytes} → Appends m bytes → Appends (put m) bytes
put-Appends h w = rw (h w)

module _ ⦃bo : Byteorder⦄ where
  -- A request is answered when its data stands behind its id in the data request, and the reader
  -- takes what stands behind the first byte of the indication.
  make_request_answered :
      {R : Type 0} (cluster_id : ClusterId) (read_response : Read Error R) (channel : Channel)
      (destination : Destination) (write_request : Write Error) (id tx : ℕ)
      (bytes body rest : Bytes) (indication : ApsDataIndication) (r : R)
      → IsU8 id
      → Appends write_request bytes
      → channel (id, data_request destination cluster_id (id ∷ bytes)) ≡ replied (ok indication)
      → indication.asdu ≡ tx ∷ body
      → read_response body ≡ ok (r, rest)
      → make_request cluster_id read_response channel destination write_request id
        ≡ (ok r, (id + 1) % 256)
  unfolding make_request next
  make_request_answered cluster_id read_response channel destination write_request id tx bytes body
        rest indication r hid hw c a hr =
      rw (put-Appends (write_u8-Appends id hid) []) (rw (hw (id ∷ [])) (rw c (rw a (rw hr refl))))

  -- With a transaction id and an index of eight bits: when the data request that goes to the
  -- destination, with the cluster of the command and with the id and the index as its data, is
  -- answered by an indication that carries a table response behind any id, and the numbers of its
  -- neighbours fit their types, that response comes back, and the next id is one more on eight
  -- bits.
  pub request_mgmt_lqi_answered :
      (channel : Channel) (destination : Destination) (index id tx : ℕ)
      (indication : ApsDataIndication) (r : MgmtLqiResponse) (rest : Bytes)
      → IsU8 id
      → IsU8 index
      → All IsNeighbor r.neighbor_table_list
      → channel (id, data_request destination (record { value = 0x0031 }) (id ∷ index ∷ []))
        ≡ replied (ok indication)
      → indication.asdu ≡ tx ∷ mgmt_lqi_bytes r ++ rest
      → request_mgmt_lqi channel destination (record { start_index = index }) id
        ≡ (ok r, (id + 1) % 256)
  unfolding request_mgmt_lqi write_mgmt_lqi_request
  request_mgmt_lqi_answered channel destination index id tx indication r rest hid hi h c a =
      make_request_answered (record { value = 0x0031 }) _ channel destination _ id tx (index ∷ [])
        (mgmt_lqi_bytes r ++ rest) rest indication r hid (put-Appends (write_u8-Appends index hi)) c
        a (read_mgmt_lqi_response-mgmt_lqi_bytes r rest h)

  pub request_active_ep_answered :
      (channel : Channel) (destination : Destination) (addr : ShortAddress) (id tx : ℕ)
      (indication : ApsDataIndication) (r : ActiveEpResponse) (rest : Bytes)
      → IsU8 id
      → IsU16 r.addr.value
      → channel
          (id, data_request destination (record { value = 0x0005 }) (id ∷ to_le_bytes 2 addr.value))
        ≡ replied (ok indication)
      → indication.asdu ≡ tx ∷ active_ep_bytes r ++ rest
      → request_active_ep channel destination (record { addr = addr }) id ≡ (ok r, (id + 1) % 256)
  unfolding request_active_ep write_active_ep_request
  request_active_ep_answered channel destination addr id tx indication r rest hid h c a =
      make_request_answered (record { value = 0x0005 }) _ channel destination _ id tx
        (to_le_bytes 2 addr.value) (active_ep_bytes r ++ rest) rest indication r hid
        (put-Appends (write_short_address-Appends addr)) c a
        (read_active_ep_response-active_ep_bytes r rest h)

  pub request_simple_desc_answered :
      (channel : Channel) (destination : Destination) (addr : ShortAddress) (endpoint : Endpoint)
      (id tx len : ℕ) (indication : ApsDataIndication) (r : SimpleDescResponse) (rest : Bytes)
      → IsU8 id
      → IsU8 endpoint.value
      → IsSimpleDesc r
      → channel (
        id,
        data_request destination
            (record { value = 0x0004 })
            (id ∷ to_le_bytes 2 addr.value ++ endpoint.value ∷ []),
      )
        ≡ replied (ok indication)
      → indication.asdu ≡ tx ∷ simple_desc_bytes r len ++ rest
      → request_simple_desc channel destination (record { addr = addr; endpoint = endpoint }) id
        ≡ (ok r, (id + 1) % 256)
  unfolding request_simple_desc write_simple_desc_request
  request_simple_desc_answered channel destination addr endpoint id tx len indication r rest hid he
        h c a =
      make_request_answered (record { value = 0x0004 }) _ channel destination _ id tx
        (to_le_bytes 2 addr.value ++ endpoint.value ∷ []) (simple_desc_bytes r len ++ rest) rest
        indication r hid
        (>>-Appends _ _ _ _ (put-Appends (write_short_address-Appends addr))
          (put-Appends (write_endpoint-Appends endpoint he)))
        c a (read_simple_desc_response-simple_desc_bytes r len rest h)
