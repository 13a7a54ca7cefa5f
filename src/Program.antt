-- ===== src/Program.antt =====
-- tophamm/src/main.rs: the task that passes the indications of endpoint 0 on to the zdo layer, and
-- the queries to the neighbours.
pub mod Delivery
pub mod Main
pub mod Reports
pub mod Survey
pub mod Passage
use tophamm.Base.{Option, none, some, ℕ, Bool, true, false, List, [], ◌∷◌, ◌==◌, if◌then◌else◌}
use tophamm.Outcome.{Build, ok, ◌>>=◌}
use tophamm.Deconz.Types.{Endpoint, Destination, ShortAddress, ApsDataIndication}
use tophamm.Deconz.Wire.External.{Byteorder}
use tophamm.Zdo.Errors.{Result}
use tophamm.Zdo.Protocol.{Neighbor, SimpleDescriptor}
use tophamm.Zdo.Transactions.Receiving.{Received, receive}
use tophamm.Deconz.Aps.Indications.{Wake}
use tophamm.Deconz.Aps.Indications
use tophamm.Zdo.Neighbors.Requests.{request_neighbors}
use tophamm.Zdo.Transactions.{Channel, and_then, query_endpoints}

-- An indication from the reader, and whether the zdo layer still has its receiver then.
pub record Arrival : Type 0 where
  pub indication : ApsDataIndication
  pub accepted : Bool

-- `aps_data_indication.destination_endpoint == Endpoint(0)`
abbrev pub is_zdo : ApsDataIndication → Bool
is_zdo indication = indication.destination_endpoint.value == 0

-- What is sent on, in order, and whether the task still runs: the `unwrap` panics on a closed
-- channel.
pub relay : List Arrival → List ApsDataIndication × Bool
relay [] = ([], true)
relay (a ∷ rest) =
    let (sent, running) = relay rest in
    if is_zdo a.indication
    then if a.accepted then (a.indication ∷ sent, running) else ([], false)
    else (sent, running)

-- `Destination::Nwk(ShortAddress(0x0), Endpoint(0))`
abbrev pub coordinator : Destination
coordinator = Destination.nwk (record { value = 0 }) (record { value = 0 })

module _ ⦃bo : Byteorder⦄ where
  -- The loop over the neighbours, which ends the program at the first error. What it logs for each
  -- neighbour is the result; what it has logged before an error is left out.
  pub query_neighbors :
      Channel
      → List Neighbor
      → ℕ
      → Result (List (ShortAddress × List (Endpoint × SimpleDescriptor))) × ℕ
  query_neighbors channel [] transaction_ids = (ok [], transaction_ids)
  query_neighbors channel (neighbor ∷ neighbors) transaction_ids =
      and_then (query_endpoints channel neighbor.network_address transaction_ids)
        λ endpoints transaction_ids'.
          let (result, transaction_ids'') = query_neighbors channel neighbors transaction_ids' in
          (result >>= λ rest. ok ((neighbor.network_address, endpoints) ∷ rest), transaction_ids'')

  abbrev query_all :
      Channel
      → Option (Result (List Neighbor) × ℕ)
      → Option (Result (List (ShortAddress × List (Endpoint × SimpleDescriptor))) × ℕ)
  query_all channel none = none
  query_all channel (some p) = some (and_then p (query_neighbors channel))

  -- The coordinator's neighbours and their endpoints; nothing if the fuel for the neighbour table
  -- has run out.
  pub survey :
      Build
      → ℕ
      → Channel
      → ℕ
      → Option (Result (List (ShortAddress × List (Endpoint × SimpleDescriptor))) × ℕ)
  unfolding query_neighbors
  survey build fuel channel transaction_ids =
      query_all channel (request_neighbors build channel coordinator fuel transaction_ids)

-- What the zdo layer's receiving task does with the indications that the adapter reports, through
-- the two tasks between them, which find the channels open.
abbrev pub arriving : List ApsDataIndication → List Arrival
arriving [] = []
arriving (indication ∷ rest) = record { indication = indication; accepted = true } ∷ arriving rest

pub receive_all : {S : Type 0} → List Wake → List (ℕ × S) → Received S
unfolding relay
receive_all wakes awaiting = receive (relay (arriving (Indications.task wakes).0)).0 awaiting
