-- ===== src/Program/Survey.antt =====
-- What the program reports of a network whose devices answer.
use tophamm.Base.{ℕ, suc, ◌<◌, ◌≡◌, refl, ◌∙◌, ap, List, [], ◌∷◌, some, All, length, IsU8}
use tophamm.Outcome.{Build, ok}
use tophamm.Deconz.Types.{Endpoint, ShortAddress}
use tophamm.Deconz.Wire.External.{Byteorder}
use tophamm.Zdo.Protocol.{Neighbor, SimpleDescriptor}
use tophamm.Zdo.Transactions.{Channel, query_endpoints}
use tophamm.Zdo.Neighbors.Requests.{HasTable}
use tophamm.Zdo.Neighbors.Requests.Whole.{request_neighbors-HasTable}
use tophamm.Program.{coordinator, query_neighbors, query_all, survey}

-- A list of endpoints with their descriptors.
abbrev pub Endpoints : Type 0
Endpoints = List (Endpoint × SimpleDescriptor)

abbrev pub reports : (ShortAddress → Endpoints) → List Neighbor → List (ShortAddress × Endpoints)
reports describe [] = []
reports describe (n ∷ ns) = (n.network_address, describe n.network_address) ∷ reports describe ns

module _ ⦃bo : Byteorder⦄ (channel : Channel) where
  -- Under any transaction id, the queries to this neighbour come to its endpoints.
  pub record IsDescribed (describe : ShortAddress → Endpoints) (n : Neighbor) : Type 0 where
    pub after : ℕ → ℕ
    pub after_byte : (id : ℕ) → IsU8 (after id)
    pub answers :
        (id : ℕ)
        → IsU8 id
        → query_endpoints channel n.network_address id ≡ (ok (describe n.network_address), after id)

  module _ (describe : ShortAddress → Endpoints) where
    query_neighbors-reports :
        (ns : List Neighbor) (id : ℕ)
        → IsU8 id
        → All (IsDescribed describe) ns
        → (id' : ℕ) × (query_neighbors channel ns id ≡ (ok (reports describe ns), id'))
    unfolding query_neighbors
    query_neighbors-reports [] id h ds = (id, refl)
    query_neighbors-reports (n ∷ ns) id h (d, ds) =
        let (id', e) = query_neighbors-reports ns (d.after id) (d.after_byte id) ds in
        (id', rw (d.answers id h) (rw e refl))

    -- When the coordinator hands out a table of at most 255 neighbours, some of it with every
    -- response, and the queries to each neighbour come to its endpoints, the program reports every
    -- neighbour of the table in its order, each with its endpoints; one more round than there are
    -- neighbours is enough for the table.
    pub survey-reports :
        (build : Build) (table : List Neighbor) (id : ℕ)
        → HasTable channel coordinator table
        → length table < 256
        → IsU8 id
        → All (IsDescribed describe) table
        → (id' : ℕ) × (survey build (suc (length table)) channel id
            ≡ some (ok (reports describe table), id'))
    unfolding survey
    survey-reports build table id device fits h ds =
        let (id', e, byte) =
          request_neighbors-HasTable build channel coordinator table id device fits h in
        let (id'', q) = query_neighbors-reports table id' byte ds in
        (id'', ap (query_all channel) e ∙ ap some q)
