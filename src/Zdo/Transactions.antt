-- ===== src/Zdo/Transactions.antt =====
-- `Zdo` and its receiving task in tophamm/src/zdo/mod.rs. What a request comes to is an argument.
pub mod Calls
pub mod Dispatch
pub mod Endpoints
pub mod Exchange
pub mod Receiving
use tophamm.Base.{ℕ, ℕ_discrete, List, [], ◌∷◌, ◌++◌, Bytes}
use tophamm.Outcome.{ok, err, panic, ◌>>=◌}
use tophamm.Deconz.Types.{
  Endpoint, ClusterId, ShortAddress, Destination, ApsDataRequest, ApsDataIndication,
}
use tophamm.Deconz.Wire.Reading.{Read}
use tophamm.Deconz.Wire.Writing.{Write, ◌>>◌}
use tophamm.Deconz.Wire.External.{Byteorder}
use tophamm.Deconz.Wire.{write_u8}
use tophamm.Helpers.Awaiting.{Sent, send}
use tophamm.Helpers.IncrementingId.{next}
use tophamm.Zdo.Errors.{Error, Result, error, channel_error}
use tophamm.Zdo.Protocol.{
  SimpleDescRequest, SimpleDescResponse, SimpleDescriptor, ActiveEpRequest, ActiveEpResponse,
  MgmtLqiRequest, MgmtLqiResponse, put, write_simple_desc_request, write_active_ep_request,
  write_mgmt_lqi_request, read_simple_desc_response, read_active_ep_response,
  read_mgmt_lqi_response,
}

-- What becomes of a request: the channel to the task is closed, the sender of the result is
-- dropped, or a result comes.
pub data Reply : Type 0 where
  closed dropped : Reply
  replied : Result ApsDataIndication → Reply

-- A closed channel is an `unwrap` of an error.
reply_result : Reply → Result ApsDataIndication
reply_result closed = panic
reply_result dropped = err (error channel_error)
reply_result (replied result) = result

-- What comes back for a transaction and its data request.
abbrev pub Channel : Type 0
Channel = ℕ × ApsDataRequest → Reply

abbrev pub data_request : Destination → ClusterId → Bytes → ApsDataRequest
data_request destination cluster_id asdu = record {
  destination = destination;
  profile_id = record { value = 0 };
  cluster_id = cluster_id;
  source_endpoint = record { value = 0 };
  asdu = asdu;
}

-- `&aps_data_indication.asdu[1..]`, which panics without a first byte.
read_answer : {R : Type 0} → Read Error R → Bytes → Result R
read_answer read [] = panic
read_answer read (id ∷ rest) = read rest >>= λ p. ok p.0

abbrev pub and_then : {A B : Type 0} → Result A × ℕ → (A → ℕ → Result B × ℕ) → Result B × ℕ
and_then (ok a, ids) f = f a ids
and_then (err e, ids) f = (err e, ids)
and_then (panic, ids) f = (panic, ids)

module _ ⦃bo : Byteorder⦄ where
  make_frame : ℕ → Write Error → Result Bytes
  make_frame id write_request = (do put (write_u8 id); write_request) []

  pub make_request :
      {R : Type 0}
      → ClusterId
      → Read Error R
      → Channel
      → Destination
      → Write Error
      → ℕ
      → Result R × ℕ
  unfolding make_frame reply_result read_answer
  make_request cluster_id read_response channel destination write_request transaction_ids =
      let (id, transaction_ids') = next transaction_ids in
      (
        (do
          asdu ← make_frame id write_request
          indication ← reply_result (channel (id, data_request destination cluster_id asdu))
          read_answer read_response indication.asdu),
        transaction_ids',
      )

  -- `make_request` at the three requests, with their cluster ids.
  pub request_simple_desc :
      Channel → Destination → SimpleDescRequest → ℕ → Result SimpleDescResponse × ℕ
  request_simple_desc channel destination request =
      make_request (record { value = 0x0004 }) read_simple_desc_response channel destination
        (write_simple_desc_request request)

  pub request_active_ep : Channel → Destination → ActiveEpRequest → ℕ → Result ActiveEpResponse × ℕ
  request_active_ep channel destination request =
      make_request (record { value = 0x0005 }) read_active_ep_response channel destination
        (write_active_ep_request request)

  pub request_mgmt_lqi : Channel → Destination → MgmtLqiRequest → ℕ → Result MgmtLqiResponse × ℕ
  request_mgmt_lqi channel destination request =
      make_request (record { value = 0x0031 }) read_mgmt_lqi_response channel destination
        (write_mgmt_lqi_request request)

  -- The loop of `query_endpoints`, which ends at the first error.
  pub query_descriptors :
      Channel
      → Destination
      → ShortAddress
      → List Endpoint
      → ℕ
      → Result (List (Endpoint × SimpleDescriptor)) × ℕ
  query_descriptors channel destination addr [] transaction_ids = (ok [], transaction_ids)
  query_descriptors channel destination addr (endpoint ∷ endpoints) transaction_ids =
      and_then
        (request_simple_desc channel destination (record { addr = addr; endpoint = endpoint })
          transaction_ids)
        λ resp transaction_ids'.
          let (result, transaction_ids'') =
            query_descriptors channel destination addr endpoints transaction_ids' in
          (result >>= λ rest. ok ((endpoint, resp.simple_descriptor) ∷ rest), transaction_ids'')

  pub query_endpoints : Channel → ShortAddress → ℕ → Result (List (Endpoint × SimpleDescriptor)) × ℕ
  unfolding request_active_ep request_simple_desc query_descriptors
  query_endpoints channel addr transaction_ids =
      let destination = Destination.nwk addr (record { value = 0 }) in
      and_then (request_active_ep channel destination (record { addr = addr }) transaction_ids)
        λ resp transaction_ids'.
          query_descriptors channel destination addr resp.active_endpoints transaction_ids'

-- The receiving task at one indication: `asdu[0]` panics without a first byte; a result that nobody
-- waits for is logged.
pub on_indication :
    {S : Type 0}
    → ApsDataIndication
    → List (ℕ × S)
    → Result (Sent S (Result ApsDataIndication) × List (ℕ × S))
on_indication indication awaiting = elim indication.asdu [
  | [] ↦ panic
  | (id ∷ rest) ↦ ok (send ℕ_discrete id (ok indication) awaiting)
]
