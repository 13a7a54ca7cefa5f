-- ===== src/Zdo/Neighbors.antt =====
-- `get_neighbors` of tophamm/src/zdo/mod.rs. What its requests come to is a list, in their order.
pub mod Requests
pub mod Table
pub mod Termination
use tophamm.Base.{ℕ, ◌%◌, leb, if◌then◌else◌, List, [], ◌∷◌, ◌++◌, length}
use tophamm.Outcome.{Build, ok, err, panic, add_u8}
use tophamm.Zdo.Errors.{Result}
use tophamm.Zdo.Protocol.{Neighbor, MgmtLqiResponse}

-- The call returned, with the results that it did not ask for, or it has sent a request for this
-- index and waits, with these neighbours so far.
pub data Progress : Type 0 where
  returned : Result (List Neighbor) → List (Result MgmtLqiResponse) → Progress
  waiting : ℕ → List Neighbor → Progress

-- A round of the loop goes on with the next index, or returns.
pub data Round : Type 0 where
  next : ℕ → List Neighbor → Round
  stop : Result (List Neighbor) → Round

-- `start_index += count` on eight bits.
advance : Result ℕ → List Neighbor → Round
advance (ok start_index) neighbors = next start_index neighbors
advance (err e) neighbors = stop (err e)
advance panic neighbors = stop panic

pub round : Build → ℕ → List Neighbor → Result MgmtLqiResponse → Round
unfolding advance
round build start_index neighbors (ok resp) =
    let count = length resp.neighbor_table_list % 256 in
    let neighbors' = neighbors ++ resp.neighbor_table_list in
    if leb resp.neighbor_table_entries (length neighbors')
    then stop (ok neighbors')
    else advance (add_u8 build start_index count) neighbors'
round build start_index neighbors (err e) = stop (err e)
round build start_index neighbors panic = stop panic

pub collect : Build → ℕ → List Neighbor → List (Result MgmtLqiResponse) → Progress
collect build start_index neighbors [] = waiting start_index neighbors
collect build start_index neighbors (result ∷ rest) =
    elim (round build start_index neighbors result) [
      | next start_index' neighbors' ↦ collect build start_index' neighbors' rest
      | stop result' ↦ returned result' rest
    ]

pub get_neighbors : Build → List (Result MgmtLqiResponse) → Progress
unfolding collect
get_neighbors build results = collect build 0 [] results
