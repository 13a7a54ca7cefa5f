-- ===== src/Zdo/Neighbors/Requests.antt =====
-- `get_neighbors` of tophamm/src/zdo/mod.rs with the requests that it makes, on fuel: each round of
-- the loop is one request.
pub mod Whole
use tophamm.Base.{
  Bool, ℕ, zero, suc, ◌+◌, ◌%◌, ◌<◌, ◌≤◌, ◌≡◌, refl, sym, ◌∙◌, ap, Bool-cases, inl, inr, true,
  false, leb, List, [], ◌++◌, append_assoc, length, length-append, take, drop, drop-append,
  take-drop, take_whole, take_positive, Option, none, some, IsU8, arith,
}
use tophamm.Outcome.{Build, ok}
use tophamm.Deconz.Types.{Destination}
use tophamm.Deconz.Wire.External.{Byteorder}
use tophamm.Zdo.Errors.{Result}
use tophamm.Zdo.Protocol.{Neighbor, MgmtLqiResponse}
use tophamm.Zdo.Transactions.{Channel, request_mgmt_lqi}
use tophamm.Zdo.Neighbors.{next, stop, round}
use tophamm.Zdo.Neighbors.Termination.{IsFruitful, round_stops, round_goes_on}

module _ ⦃bo : Byteorder⦄ (channel : Channel) (destination : Destination) where
  -- The device has this table: asked for what stands from an index on, it hands out some
  -- neighbours of the table from there, as many as it likes but not none, and it reports the
  -- length of the table.
  pub record HasTable (table : List Neighbor) : Type 0 where
    pub size : ℕ → ℕ
    pub response : ℕ → MgmtLqiResponse
    pub size_positive : (index : ℕ) → 0 < size index
    pub answers :
        (index id : ℕ)
        → IsU8 index
        → IsU8 id
        → request_mgmt_lqi channel destination (record { start_index = index }) id
          ≡ (ok (response index), (id + 1) % 256)
    pub entries : (index : ℕ) → (response index).neighbor_table_entries ≡ length table
    pub list :
        (index : ℕ) → (response index).neighbor_table_list ≡ take (size index) (drop index table)

module _ ⦃bo : Byteorder⦄ (build : Build) (channel : Channel) (destination : Destination) where
  -- The result, with the counter of the transaction ids; nothing if the fuel has run out.
  pub request_rounds : ℕ → ℕ → List Neighbor → ℕ → Option (Result (List Neighbor) × ℕ)
  request_rounds zero start_index neighbors transaction_ids = none
  request_rounds (suc fuel) start_index neighbors transaction_ids =
      let (result, transaction_ids') =
        request_mgmt_lqi channel destination (record { start_index = start_index })
          transaction_ids in
      elim (round build start_index neighbors result) [
        | next start_index' neighbors' ↦
            request_rounds fuel start_index' neighbors' transaction_ids'
        | stop result' ↦ some (result', transaction_ids')
      ]

  pub request_neighbors : ℕ → ℕ → Option (Result (List Neighbor) × ℕ)
  unfolding request_rounds
  request_neighbors fuel transaction_ids = request_rounds fuel 0 [] transaction_ids

  pub stops_round :
      (fuel i id id' : ℕ) (ns : List Neighbor) (answer : Result MgmtLqiResponse)
      (result : Result (List Neighbor))
      → request_mgmt_lqi channel destination (record { start_index = i }) id ≡ (answer, id')
      → round build i ns answer ≡ stop result
      → request_rounds (suc fuel) i ns id ≡ some (result, id')
  unfolding request_rounds
  stops_round fuel i id id' ns answer result a r =
      rw (a, request_rounds)
        (rw (r, request_rounds) (ap (λ (p : Result MgmtLqiResponse × ℕ). some (result, p.1)) a))

  pub goes_on_round :
      (fuel i j id id' : ℕ) (ns ms : List Neighbor) (answer : Result MgmtLqiResponse)
      → request_mgmt_lqi channel destination (record { start_index = i }) id ≡ (answer, id')
      → round build i ns answer ≡ next j ms
      → request_rounds (suc fuel) i ns id ≡ request_rounds fuel j ms id'
  unfolding request_rounds
  goes_on_round fuel i j id id' ns ms answer a r =
      rw (a, request_rounds)
        (rw (r, request_rounds)
          (ap (λ (p : Result MgmtLqiResponse × ℕ). request_rounds fuel j ms p.1) a))
