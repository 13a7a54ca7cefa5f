-- ===== src/Tests/Network.antt =====
-- A network of a coordinator with two neighbours that are alike.
use tophamm.Base.{
  Option, ℕ, suc, ◌+◌, ◌%◌, ◌==◌, ◌≡◌, refl, [], ◌∷◌, length, some, if◌then◌else◌, arith,
}
use tophamm.Outcome.{debug, ok}
use tophamm.Deconz.Types.{ShortAddress}
use tophamm.Deconz.Wire.External.{Byteorder, byteorder}
use tophamm.Zdo.Transactions.{Channel, replied}
use tophamm.Zdo.Transactions.Calls.{request_mgmt_lqi_answered}
use tophamm.Zdo.Transactions.Endpoints.{descriptors, query_endpoints_described}
use tophamm.Zdo.Neighbors.Requests.{HasTable}
use tophamm.Deconz.Port.{SerialPortSettings}
use tophamm.Deconz.Client
use tophamm.Deconz.Protocol.Response
use tophamm.Program.{coordinator}
use tophamm.Program.Survey.{Endpoints, IsDescribed, reports}
use tophamm.Program.Main.{main, loops}
use tophamm.Program.Reports.{main-reports}
use tophamm.Tests.Frames.{state}
use tophamm.Tests.Queries.{lamp, active, description-IsSimpleDesc}
use tophamm.Tests.Transactions.{
  described, listing, describing, one_from, one_from-IsNeighbor, index_of, from_table,
}

instance abbrev cursor : Byteorder
cursor = byteorder

-- The requests are told apart by their clusters.
abbrev network : Channel
network (id, request) =
    if request.cluster_id.value == 0x31
    then replied (ok (from_table (index_of request.asdu)))
    else if request.cluster_id.value == 5
    then replied (ok listing)
    else replied (ok describing)

network-HasTable : HasTable network coordinator (lamp ∷ lamp ∷ [])
network-HasTable = record {
  size = λ index. 1;
  response = one_from;
  size_positive = λ index. omega arith;
  answers = λ index id hi h.
      request_mgmt_lqi_answered network coordinator index id 0 (from_table index) (one_from index)
        [] h hi (one_from-IsNeighbor index) refl refl;
  entries = λ index. refl;
  list = λ index. refl;
}

abbrev two_endpoints : ShortAddress → Endpoints
two_endpoints addr = descriptors described

lamp-IsDescribed : IsDescribed network two_endpoints lamp
lamp-IsDescribed = record {
  after = λ id. (id + 1 + 2) % 256;
  after_byte = λ id. omega arith;
  answers = λ id h.
      query_endpoints_described network lamp.network_address id 7 listing active [] described h
        (omega arith) refl refl refl
        (
          record {
            fits = omega arith;
            response_fits = description-IsSimpleDesc;
            indication = describing;
            tx = 8;
            len = 14;
            rest = [];
            replies = refl;
            carries = refl;
          },
          (
            record {
              fits = omega arith;
              response_fits = description-IsSimpleDesc;
              indication = describing;
              tx = 8;
              len = 14;
              rest = [];
              replies = refl;
              carries = refl;
            },
            tt,
          ),
        );
}

abbrev any_port : ℕ → SerialPortSettings → Option ℕ
any_port path settings = some 1

abbrev notifying : ℕ → Client.Channel
notifying tty command = Client.replied (ok (Response.device_state state))

-- One argument, a port at every path, and an adapter that answers each command alike.
main-reports_example :
    main debug (suc (length (lamp ∷ lamp ∷ []))) any_port notifying network (0 ∷ 7 ∷ [])
    ≡ some (loops (reports two_endpoints (lamp ∷ lamp ∷ [])))
main-reports_example =
    main-reports any_port notifying network two_endpoints debug (lamp ∷ lamp ∷ []) 0 7 [] 1 state
      refl refl network-HasTable (omega arith) (lamp-IsDescribed, (lamp-IsDescribed, tt))
