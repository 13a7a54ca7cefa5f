-- ===== src/Tests/Transactions.antt =====
-- The zdo layer and the program around it at concrete indications. Senders are numbers.
use tophamm.Base.{
  ◌<◌, zero, suc, Bytes, ℕ, ℕ_discrete, zero, suc, ◌+◌, ◌%◌, ◌≡◌, ◌==◌, refl, true, false, List, [],
  ◌∷◌, ◌++◌, none, some, All, take, drop, length, length-replicate, replicate, arith, if◌then◌else◌,
}
use tophamm.Outcome.{debug, ok, err}
use tophamm.Deconz.Errors.{from_elapsed}
use tophamm.Deconz.Types.{ApsDataIndication}
use tophamm.Deconz.Wire.External.{Byteorder, byteorder}
use tophamm.Deconz.Client
use tophamm.Deconz.Protocol.Response.{Response}
use tophamm.Deconz.Aps.{aps_data_indication, indication_of}
use tophamm.Deconz.Aps.Indications.{Wake, round, go_on}
use tophamm.Helpers.Awaiting.{lookup}
use tophamm.Zdo.Errors.{Result}
use tophamm.Zdo.Protocol.Encoding.{mgmt_lqi_bytes, active_ep_bytes, simple_desc_bytes}
use tophamm.Zdo.Neighbors.{returned, get_neighbors}
use tophamm.Zdo.Neighbors.Termination.{IsFruitful, results, neighbors_of, get_neighbors_ends}
use tophamm.Zdo.Neighbors.Requests.{HasTable, request_neighbors}
use tophamm.Zdo.Neighbors.Requests.Whole.{request_neighbors-HasTable}
use tophamm.Zdo.Transactions.Calls.{request_mgmt_lqi_answered}
use tophamm.Zdo.Transactions.{Channel, replied, query_endpoints}
use tophamm.Zdo.Transactions.Endpoints.{Described, descriptors, query_endpoints_described}
use tophamm.Zdo.Transactions.Exchange.{Event, began, ended, received, start, step, run}
use tophamm.Zdo.Transactions.Exchange.Stopped.{IsFailure, run-received_empty}
use tophamm.Zdo.Transactions.Exchange.Resolved.{reply, run-Resolves}
use tophamm.Program.{receive_all}
use tophamm.Program.Delivery.{receive_all-round}
use tophamm.Tests.Frames.{state, confirm}
use tophamm.Zdo.Protocol.{MgmtLqiResponse}
use tophamm.Zdo.Protocol.Encoding.{IsNeighbor}
use tophamm.Tests.Queries.{
  lamp, lamp-IsNeighbor, coordinator, table, active, description, description-IsSimpleDesc, answer,
}

instance abbrev cursor : Byteorder
cursor = byteorder

replicate-IsFruitful : (n : ℕ) → All IsFruitful (replicate n table)
replicate-IsFruitful zero = tt
replicate-IsFruitful (suc n) =
    (record { entries = omega arith; some_neighbor = omega arith }, replicate-IsFruitful n)

get_neighbors_ends_example :
    (k : ℕ) × (get_neighbors debug (results (replicate 255 table))
      ≡ returned
          (ok (neighbors_of (take k (replicate 255 table))))
          (results (drop k (replicate 255 table))))
get_neighbors_ends_example =
    get_neighbors_ends debug (replicate 255 table) (replicate-IsFruitful 255)
      (omega (arith, length-replicate 255 table))

-- A device with the endpoints 1 and 242, which tells the requests apart by their clusters.
abbrev pub describing : ApsDataIndication
describing = record answer { asdu = 8 ∷ simple_desc_bytes description 14 ++ [] }

abbrev pub listing : ApsDataIndication
listing = record answer { asdu = 7 ∷ active_ep_bytes active ++ [] }

abbrev device : Channel
device (id, request) =
    if request.cluster_id.value == 5 then replied (ok listing) else replied (ok describing)

abbrev pub described : Described
described = (record { value = 1 }, description) ∷ (record { value = 242 }, description) ∷ []

query_endpoints_described_example :
    query_endpoints device (record { value = 0x1234 }) 254
    ≡ (ok (descriptors described), (254 + 1 + length described) % 256)
query_endpoints_described_example =
    query_endpoints_described device (record { value = 0x1234 }) 254 7 listing active [] described
      (omega arith) (omega arith) refl refl refl
      (
        record {
          fits = omega arith;
          response_fits = description-IsSimpleDesc;
          indication = describing;
          tx = 8;
          len = 14;
          rest = [];
          replies = refl;
          carries = refl;
        },
        (
          record {
            fits = omega arith;
            response_fits = description-IsSimpleDesc;
            indication = describing;
            tx = 8;
            len = 14;
            rest = [];
            replies = refl;
            carries = refl;
          },
          tt,
        ),
      )

-- Transaction 255 of the sender 70 is answered after another one began and its own data request was
-- confirmed.
abbrev between : List (Event ℕ)
between = began 4 80 ∷ ended 255 (ok confirm) ∷ []

run-Resolves_example :
    (let before = run between (step (began 255 70) start) in
      ((step (received answer) before).log ≡ (70, ok answer) ∷ before.log)
      × (lookup ℕ_discrete 255 (step (received answer) before).awaiting ≡ none)
      × ((step (received answer) before).running ≡ true))
run-Resolves_example =
    run-Resolves 255 70 between (received answer) (ok answer) start (unfold start in refl)
      (omega arith, (tt, tt)) (reply answer (mgmt_lqi_bytes table ++ []) refl)

-- Transaction 255 waits; an indication without data comes, then its reply, and then its data
-- request fails.
abbrev no_data : ApsDataIndication
no_data = record answer { asdu = [] }

abbrev afterwards : List (Event ℕ)
afterwards = received answer ∷ ended 255 (err from_elapsed) ∷ []

run-received_empty_example :
    (let after = run afterwards (step (received no_data) (step (began 255 70) start)) in
      (after.running ≡ false)
      × (added : List (ℕ × Result ApsDataIndication)) × (after.log
          ≡ added ++ (step (began 255 70) start).log)
      × All IsFailure added)
run-received_empty_example = run-received_empty no_data afterwards (step (began 255 70) start) refl

-- The adapter reports nothing, then an indication, which it hands out.
abbrev adapter : Client.Channel
adapter command = Client.replied (ok (Response.aps_data_indication state answer))

abbrev quiet : Wake
quiet = record {
  device_state = record state { data_indication = false };
  sequence_ids = 8;
  channel = adapter;
  accepted = true;
}

abbrev report : Wake
report = record { device_state = state; sequence_ids = 9; channel = adapter; accepted = true }

round-quiet : round quiet ≡ go_on none
unfolding round
round-quiet = refl

round-report : round report ≡ go_on (some answer)
unfolding round aps_data_indication indication_of Client.make_request
round-report = refl

receive_all-round_example :
    (left : List (ℕ × ℕ)) × (sent : List (ℕ × Result ApsDataIndication)) × (receive_all
        (quiet ∷ [] ++ report ∷ [])
        ((255, 70) ∷ (4, 80) ∷ [])
      ≡ record { running = true; awaiting = left; sent = sent ++ (70, ok answer) ∷ [] })
    × (lookup ℕ_discrete 255 left ≡ none)
unfolding lookup ℕ_discrete
receive_all-round_example =
    receive_all-round 255 70 (quiet ∷ []) report answer (mgmt_lqi_bytes table ++ [])
      ((255, 70) ∷ (4, 80) ∷ []) ((none, round-quiet, tt), tt) round-report refl refl refl

-- A device with two neighbours, which hands out one at a time.
abbrev pub one_from : ℕ → MgmtLqiResponse
one_from index = record {
  status = 0;
  neighbor_table_entries = 2;
  start_index = index;
  neighbor_table_list = take 1 (drop index (lamp ∷ lamp ∷ []));
}

pub one_from-IsNeighbor : (index : ℕ) → All IsNeighbor (one_from index).neighbor_table_list
one_from-IsNeighbor zero = (lamp-IsNeighbor, tt)
one_from-IsNeighbor (suc zero) = (lamp-IsNeighbor, tt)
one_from-IsNeighbor (suc (suc zero)) = tt
one_from-IsNeighbor (suc (suc (suc n))) = tt

-- The index is the second byte of the request.
abbrev pub index_of : Bytes → ℕ
index_of [] = 0
index_of (id ∷ []) = 0
index_of (id ∷ index ∷ rest) = index

abbrev pub from_table : ℕ → ApsDataIndication
from_table index = record answer { asdu = 0 ∷ mgmt_lqi_bytes (one_from index) ++ [] }

abbrev tabled : Channel
tabled (id, request) = replied (ok (from_table (index_of request.asdu)))

tabled-HasTable : HasTable tabled coordinator (lamp ∷ lamp ∷ [])
tabled-HasTable = record {
  size = λ index. 1;
  response = one_from;
  size_positive = λ index. omega arith;
  answers = λ index id hi h.
      request_mgmt_lqi_answered tabled coordinator index id 0 (from_table index) (one_from index) []
        h hi (one_from-IsNeighbor index) refl refl;
  entries = λ index. refl;
  list = λ index. refl;
}

request_neighbors-HasTable_example :
    (id' : ℕ) × (request_neighbors debug tabled coordinator (suc (length (lamp ∷ lamp ∷ []))) 200
      ≡ some (ok (lamp ∷ lamp ∷ []), id'))
    × (id' < 256)
request_neighbors-HasTable_example =
    request_neighbors-HasTable debug tabled coordinator (lamp ∷ lamp ∷ []) 200 tabled-HasTable
      (omega arith) (omega arith)
