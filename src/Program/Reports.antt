-- ===== src/Program/Reports.antt =====
-- What the program comes to when the port opens and the devices answer.
use tophamm.Base.{suc, ◌<◌, ◌≡◌, ap, List, ◌∷◌, Option, some, All, length, arith}
use tophamm.Outcome.{Build, ok}
use tophamm.Deconz.Types.{ShortAddress, DeviceState}
use tophamm.Deconz.Wire.External.{Byteorder}
use tophamm.Deconz.Client
use tophamm.Deconz.Client.{replied}
use tophamm.Deconz.Protocol.Request
use tophamm.Deconz.Protocol.Response
use tophamm.Deconz.Port.{SerialPortSettings, tty_settings, open_tty}
use tophamm.Helpers.IncrementingId.{new_id, next}
use tophamm.Zdo.Protocol.{Neighbor}
use tophamm.Zdo.Transactions.{Channel}
use tophamm.Zdo.Neighbors.Requests.{HasTable}
use tophamm.Program.{coordinator}
use tophamm.Program.Survey.{Endpoints, IsDescribed, reports, survey-reports}
use tophamm.Program.Main.{main, loops, ended}

module _ ⦃bo : Byteorder⦄ {P Serial : Type 0} (from_path : P → SerialPortSettings → Option Serial)
    (adapter : Serial → Client.Channel) (network : Channel)
    (describe : ShortAddress → Endpoints) where
  -- When the program has a path, the port at it opens with the settings of the code, the adapter
  -- answers the first command with its device state, the coordinator hands out a table of at most
  -- 255 neighbours, some of it with every response, and the queries to each neighbour come to its
  -- endpoints, then the program ends in its last loop, after every neighbour of the table was
  -- logged in its order, each with its endpoints; one more round than there are neighbours is
  -- enough for the table.
  pub main-reports :
      (build : Build) (table : List Neighbor) (program path : P) (rest : List P) (tty : Serial)
      (state : DeviceState)
      → from_path path tty_settings ≡ some tty
      → adapter tty (0, Request.Request.device_state) ≡ replied (ok (Response.device_state state))
      → HasTable network coordinator table
      → length table < 256
      → All (IsDescribed network describe) table
      → main build (suc (length table)) from_path adapter network (program ∷ path ∷ rest)
        ≡ some (loops (reports describe table))
  unfolding main open_tty Client.device_state Client.make_request next new_id
  main-reports build table program path rest tty state e a device fits ds =
      let (id', s) = survey-reports network describe build table 0 device fits (omega arith) ds in
      rw (e, a) (ap ended s)
