-- ===== src/Zdo/Transactions/Endpoints.antt =====
-- `query_endpoints` of tophamm/src/zdo/mod.rs against a device that describes its endpoints.
use tophamm.Base.{ℕ, ◌+◌, ◌%◌, ◌≡◌, ◌∙◌, ap, List, [], ◌∷◌, ◌++◌, Bytes, length, IsU8, IsU16, arith}
use tophamm.Base.Little.{to_le_bytes}
use tophamm.Outcome.{ok}
use tophamm.Deconz.Types.{Endpoint, ShortAddress, Destination, ApsDataIndication}
use tophamm.Deconz.Wire.External.{Byteorder}
use tophamm.Zdo.Protocol.{SimpleDescResponse, SimpleDescriptor, ActiveEpResponse}
use tophamm.Zdo.Protocol.Encoding.{active_ep_bytes, simple_desc_bytes, IsSimpleDesc}
use tophamm.Zdo.Transactions.{Channel, replied, data_request, query_descriptors, query_endpoints}
use tophamm.Zdo.Transactions.Calls.{request_active_ep_answered, request_simple_desc_answered}

-- What the device has: endpoints, and the response that describes each.
abbrev pub Described : Type 0
Described = List (Endpoint × SimpleDescResponse)

abbrev pub descriptors : Described → List (Endpoint × SimpleDescriptor)
descriptors [] = []
descriptors ((endpoint, r) ∷ rest) = (endpoint, r.simple_descriptor) ∷ descriptors rest

abbrev pub endpoints : Described → List Endpoint
endpoints [] = []
endpoints ((endpoint, r) ∷ rest) = endpoint ∷ endpoints rest

module _ (channel : Channel) (destination : Destination) (addr : ShortAddress) where
  -- The request for a descriptor, under its id, is answered by the bytes of this response.
  pub record Describes (id : ℕ) (endpoint : Endpoint) (r : SimpleDescResponse) : Type 0 where
    pub fits : IsU8 endpoint.value
    pub response_fits : IsSimpleDesc r
    pub indication : ApsDataIndication
    pub tx : ℕ
    pub len : ℕ
    pub rest : Bytes
    pub replies :
        channel (
          id,
          data_request destination
              (record { value = 0x0004 })
              (id ∷ to_le_bytes 2 addr.value ++ endpoint.value ∷ []),
        )
        ≡ replied (ok indication)
    pub carries : indication.asdu ≡ tx ∷ simple_desc_bytes r len ++ rest

  -- The endpoints are described under consecutive ids of eight bits.
  abbrev pub AllDescribed : ℕ → Described → Type 0
  AllDescribed id [] = Unit {0}
  AllDescribed id ((endpoint, r) ∷ rest) =
      Describes id endpoint r × AllDescribed ((id + 1) % 256) rest

  module _ ⦃bo : Byteorder⦄ where
    query_descriptors_described :
        (ds : Described) (id : ℕ)
        → IsU8 id
        → AllDescribed id ds
        → query_descriptors channel destination addr (endpoints ds) id
          ≡ (ok (descriptors ds), (id + length ds) % 256)
    unfolding query_descriptors
    query_descriptors_described [] id h d = ap (λ n. (ok [], n)) (omega arith)
    query_descriptors_described ((endpoint, r) ∷ ds) id h (d, rest) =
        rw
          (request_simple_desc_answered channel destination addr endpoint id d.tx d.len d.indication
            r d.rest h d.fits d.response_fits d.replies d.carries)
          (rw (query_descriptors_described ds ((id + 1) % 256) (omega arith) rest)
            (ap (λ n. (ok ((endpoint, r.simple_descriptor) ∷ descriptors ds), n)) (omega arith)))

module _ ⦃bo : Byteorder⦄ where
  -- When the device answers the request for the active endpoints by a response whose address fits
  -- its type, and the requests for their descriptors, under the ids that follow, by a response for
  -- each whose numbers fit their types, then `query_endpoints` returns each active endpoint with
  -- its descriptor, in the order of the response, and it has used one id more than there are
  -- endpoints.
  pub query_endpoints_described :
      (channel : Channel) (addr : ShortAddress) (id tx : ℕ) (indication : ApsDataIndication)
      (r : ActiveEpResponse) (rest : Bytes) (ds : Described)
      → IsU8 id
      → IsU16 r.addr.value
      → r.active_endpoints ≡ endpoints ds
      → channel (
        id,
        data_request
            (Destination.nwk addr (record { value = 0 }))
            (record { value = 0x0005 })
            (id ∷ to_le_bytes 2 addr.value),
      )
        ≡ replied (ok indication)
      → indication.asdu ≡ tx ∷ active_ep_bytes r ++ rest
      → AllDescribed channel (Destination.nwk addr (record { value = 0 })) addr ((id + 1) % 256) ds
      → query_endpoints channel addr id ≡ (ok (descriptors ds), (id + 1 + length ds) % 256)
  unfolding query_endpoints
  query_endpoints_described channel addr id tx indication r rest ds h ha e c a d =
      let destination = Destination.nwk addr (record { value = 0 }) in
      rw (request_active_ep_answered channel destination addr id tx indication r rest h ha c a) (
        rw e (
          query_descriptors_described channel destination addr ds ((id + 1) % 256) (omega arith) d
          ∙ ap (λ n. (ok (descriptors ds), n)) (omega arith)))
