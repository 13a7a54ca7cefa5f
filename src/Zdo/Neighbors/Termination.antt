-- ===== src/Zdo/Neighbors/Termination.antt =====
-- `get_neighbors` ends when every response brings a neighbour.
use tophamm.Base.{
  true, false, ℕ, suc, ◌+◌, ◌<◌, ◌≤◌, ◌≡◌, ◌∙◌, Bool-cases, inl, inr, leb, List, [], ◌∷◌, ◌++◌,
  append_assoc, append-nil, All, length, length-append, take, drop, arith,
}
use tophamm.Outcome.{Build, ok}
use tophamm.Zdo.Errors.{Result}
use tophamm.Zdo.Protocol.{Neighbor, MgmtLqiResponse}
use tophamm.Zdo.Neighbors.{returned, round, next, stop, collect, get_neighbors}

-- A byte of entries, and at least one neighbour.
pub record IsFruitful (r : MgmtLqiResponse) : Type 0 where
  pub entries : r.neighbor_table_entries < 256
  pub some_neighbor : 0 < length r.neighbor_table_list

abbrev pub results : List MgmtLqiResponse → List (Result MgmtLqiResponse)
results [] = []
results (r ∷ rs) = ok r ∷ results rs

abbrev pub neighbors_of : List MgmtLqiResponse → List Neighbor
neighbors_of [] = []
neighbors_of (r ∷ rs) = r.neighbor_table_list ++ neighbors_of rs

pub round_stops :
    (build : Build) (so_far : List Neighbor) (r : MgmtLqiResponse)
    → leb r.neighbor_table_entries (length (so_far ++ r.neighbor_table_list)) ≡ true
    → round build (length so_far) so_far (ok r) ≡ stop (ok (so_far ++ r.neighbor_table_list))
unfolding round
round_stops build so_far r h = rw h

pub round_goes_on :
    (build : Build) (so_far : List Neighbor) (r : MgmtLqiResponse)
    → IsFruitful r
    → leb r.neighbor_table_entries (length (so_far ++ r.neighbor_table_list)) ≡ false
    → round build (length so_far) so_far (ok r)
      ≡ next (length (so_far ++ r.neighbor_table_list)) (so_far ++ r.neighbor_table_list)
unfolding round
round_goes_on build so_far r f h = ground (arith, length-append so_far r.neighbor_table_list)

-- The call returns after some of the responses, with the neighbours of those in their order.
abbrev Ends : Build → List Neighbor → List MgmtLqiResponse → Type 0
Ends build so_far rs =
    (k : ℕ) × (collect build (length so_far) so_far (results rs)
      ≡ returned (ok (so_far ++ neighbors_of (take k rs))) (results (drop k rs)))

collect-Ends :
    (build : Build) (so_far : List Neighbor) (rs : List MgmtLqiResponse)
    → All IsFruitful rs
    → length so_far < 255
    → 255 ≤ length so_far + length rs
    → Ends build so_far rs
unfolding collect
collect-Ends build so_far [] fs h k = absurd (omega arith)
collect-Ends build so_far (r ∷ rs) (f, fs) h k =
    elim (Bool-cases (leb r.neighbor_table_entries (length (so_far ++ r.neighbor_table_list)))) [
      | inl e ↦ (1, rw (round_stops build so_far r e, collect) (rw append-nil))
      | inr e ↦
          (let (n, c) =
              collect-Ends build (so_far ++ r.neighbor_table_list) rs fs (below e) (grows) in
            (suc n, rw (round_goes_on build so_far r f e, collect) (c ∙ rw append_assoc)))
    ]
  where
    grows : 255 ≤ length (so_far ++ r.neighbor_table_list) + length rs
    grows = omega (arith, f.some_neighbor, length-append so_far r.neighbor_table_list)

    below :
        leb r.neighbor_table_entries (length (so_far ++ r.neighbor_table_list)) ≡ false
        → length (so_far ++ r.neighbor_table_list) < 255
    below e = ground (arith, f.entries)

-- In both build profiles, 255 responses are enough: if each brings at least one neighbour,
-- whatever number of entries up to 255 the responses report, the call returns by then, without an
-- overflow, with the neighbours of the responses that it took, in their order.
pub get_neighbors_ends :
    (build : Build) (rs : List MgmtLqiResponse)
    → All IsFruitful rs
    → 255 ≤ length rs
    → (k : ℕ) × (get_neighbors build (results rs)
        ≡ returned (ok (neighbors_of (take k rs))) (results (drop k rs)))
unfolding get_neighbors
get_neighbors_ends build rs fs h = collect-Ends build [] rs fs (omega arith) (omega arith)
