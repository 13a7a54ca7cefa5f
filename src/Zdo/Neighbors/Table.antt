-- ===== src/Zdo/Neighbors/Table.antt =====
-- What `get_neighbors` makes of a device that hands out a table piece by piece.
use tophamm.Base.{
  ℕ, zero, suc, ◌+◌, ◌<◌, ◌≤◌, ◌≡◌, refl, ◌∙◌, List, [], ◌∷◌, ◌++◌, append_assoc, append-nil,
  length, length-append, replicate, arith,
}
use tophamm.Outcome.{Build, ok}
use tophamm.Zdo.Errors.{Result}
use tophamm.Zdo.Protocol.{Neighbor, MgmtLqiResponse}
use tophamm.Zdo.Neighbors.{returned, waiting, round, collect, get_neighbors}

-- A response for the index, from a table of so many entries.
abbrev pub piece : ℕ → ℕ → List Neighbor → Result MgmtLqiResponse
piece total index list = ok (record {
  status = 0;
  neighbor_table_entries = total;
  start_index = index;
  neighbor_table_list = list;
})

-- The table in pieces, each of them behind those before it, and the rest of it.
unfoldable pub pieces : ℕ → ℕ → List (List Neighbor) → List (Result MgmtLqiResponse)
pieces total index [] = []
pieces total index (list ∷ lists) =
    piece total index list ∷ pieces total (index + length list) lists

unfoldable pub concat : List (List Neighbor) → List Neighbor
concat [] = []
concat (list ∷ lists) = list ++ concat lists

-- A piece of a table that is not whole yet: the next index is asked for.
collect_more :
    (build : Build) (total i : ℕ) (so_far list : List Neighbor)
    (rest : List (Result MgmtLqiResponse))
    → i ≡ length so_far
    → total < 256
    → i + length list < total
    → collect build i so_far (piece total i list ∷ rest)
      ≡ collect build (i + length list) (so_far ++ list) rest
unfolding collect round
collect_more build total i so_far list rest e h k = ground (arith, length-append so_far list)

collect_last :
    (build : Build) (total i : ℕ) (so_far list : List Neighbor)
    (rest : List (Result MgmtLqiResponse))
    → total ≤ length so_far + length list
    → collect build i so_far (piece total i list ∷ rest) ≡ returned (ok (so_far ++ list)) rest
unfolding collect round
collect_last build total i so_far list rest h = ground (arith, length-append so_far list)

collect-pieces :
    (build : Build) (total i : ℕ) (so_far : List Neighbor) (lists : List (List Neighbor))
    (rest : List (Result MgmtLqiResponse))
    → i ≡ length so_far
    → total < 256
    → i + length (concat lists) < total
    → collect build i so_far (pieces total i lists ++ rest)
      ≡ collect build (i + length (concat lists)) (so_far ++ concat lists) rest
unfolding pieces concat
collect-pieces build total i so_far [] rest e h k = rw (append-nil so_far, index)
  where
    index : i + 0 ≡ i
    index = omega arith
collect-pieces build total i so_far (list ∷ lists) rest e h k =
    collect_more build total i so_far list _ e h (omega (arith, length-append list (concat lists)))
    ∙ collect-pieces build total (i + length list) (so_far ++ list) lists rest
        (omega (arith, length-append so_far list)) h
        (omega (arith, length-append list (concat lists)))
    ∙ rw (append_assoc so_far list (concat lists), index)
  where
    index : i + length list + length (concat lists) ≡ i + length (list ++ concat lists)
    index = omega (arith, length-append list (concat lists))

from_start :
    (build : Build) (total : ℕ) (lists : List (List Neighbor))
    (rest : List (Result MgmtLqiResponse))
    → total < 256
    → length (concat lists) < total
    → get_neighbors build (pieces total 0 lists ++ rest)
      ≡ collect build (length (concat lists)) (concat lists) rest
unfolding get_neighbors
from_start build total lists rest h k =
    rw index at (collect-pieces build total 0 [] lists rest refl h (omega arith))
  where
    index : 0 + length (concat lists) ≡ length (concat lists)
    index = omega arith

-- In both build profiles, when a device hands out a table of fewer than 256 neighbours in pieces,
-- the last of which is not empty, the call returns the whole table in its order at that piece, and
-- leaves the results that follow.
get_neighbors_whole :
    (build : Build) (lists : List (List Neighbor)) (last : List Neighbor)
    (rest : List (Result MgmtLqiResponse))
    → length (concat lists) + length last < 256
    → 0 < length last
    → (let total = length (concat lists) + length last in
        get_neighbors build
          (pieces total 0 lists ++ (piece total (length (concat lists)) last ∷ rest))
        ≡ returned (ok (concat lists ++ last)) rest)
get_neighbors_whole build lists last rest h k =
    from_start build _ lists _ h (omega arith)
    ∙ collect_last build _ _ (concat lists) last rest (omega arith)

-- As long as the pieces are fewer neighbours than the table has entries, and these are fewer than
-- 256, the call has asked for the index behind the neighbours that it has, without overflow in
-- either build profile, and waits.
get_neighbors_waits :
    (build : Build) (total : ℕ) (lists : List (List Neighbor))
    → total < 256
    → length (concat lists) < total
    → get_neighbors build (pieces total 0 lists) ≡ waiting (length (concat lists)) (concat lists)
unfolding collect
get_neighbors_waits build total lists h k =
    rw (append-nil (pieces total 0 lists)) at (from_start build total lists [] h k)

concat-replicate : (n : ℕ) → concat (replicate n []) ≡ []
unfolding concat
concat-replicate zero = refl
concat-replicate (suc n) = concat-replicate n

-- A device that reports a table of one to 255 entries and hands out no neighbours is asked for
-- index 0 again and again: after any number of its responses the call has not returned.
pub get_neighbors_no_progress :
    (build : Build) (total n : ℕ)
    → 0 < total
    → total < 256
    → get_neighbors build (pieces total 0 (replicate n [])) ≡ waiting 0 []
get_neighbors_no_progress build total n h k =
    rw (concat-replicate n) at
      (get_neighbors_waits build total (replicate n []) k (rw (concat-replicate n) h))
