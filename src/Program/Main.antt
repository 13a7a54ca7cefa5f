-- ===== src/Program/Main.antt =====
-- The `main` function of tophamm/src/main.rs from its arguments to its last loop.
use tophamm.Base.{ℕ, Option, none, some, List, [], ◌∷◌}
use tophamm.Outcome.{Build, ok, err, panic}
use tophamm.Deconz.Types.{Endpoint, ShortAddress, DeviceState}
use tophamm.Deconz.Errors
use tophamm.Deconz.Wire.External.{Byteorder}
use tophamm.Deconz.Client
use tophamm.Deconz.Port.{SerialPortSettings, open_tty}
use tophamm.Helpers.IncrementingId.{new_id}
use tophamm.Zdo.Errors.{Error, Result, from_deconz}
use tophamm.Zdo.Protocol.{SimpleDescriptor}
use tophamm.Zdo.Transactions.{Channel}
use tophamm.Program.{survey}

-- `main` returns an error, or panics, or stays in its last loop, with what it has logged of the
-- neighbours.
pub data End : Type 0 where
  returns : Error → End
  panics : End
  loops : List (ShortAddress × List (Endpoint × SimpleDescriptor)) → End

-- The argument behind the program's name: `args[1]`.
abbrev second : {P : Type 0} → List P → Option P
second [] = none
second (program ∷ []) = none
second (program ∷ path ∷ rest) = some path

abbrev surveyed : Result (List (ShortAddress × List (Endpoint × SimpleDescriptor))) → End
surveyed (ok logged) = loops logged
surveyed (err e) = returns e
surveyed panic = panics

abbrev pub ended :
    Option (Result (List (ShortAddress × List (Endpoint × SimpleDescriptor))) × ℕ) → Option End
ended none = none
ended (some (result, transaction_ids)) = some (surveyed result)

module _ ⦃bo : Byteorder⦄ (build : Build) (fuel : ℕ) where
  abbrev after_state : Channel → Errors.Result DeviceState → Option End
  after_state network (ok state) = ended (survey build fuel network new_id)
  after_state network (err e) = some (returns (from_deconz e))
  after_state network panic = some panics

  abbrev after_open :
      {Serial : Type 0} → (Serial → Client.Channel) → Channel → Errors.Result Serial → Option End
  after_open adapter network (ok tty) =
      after_state network (Client.device_state (adapter tty) new_id).0
  after_open adapter network (err e) = some (returns (from_deconz e))
  after_open adapter network panic = some panics

  abbrev with_path :
      {P Serial : Type 0}
      → (P → SerialPortSettings → Option Serial)
      → (Serial → Client.Channel)
      → Channel
      → Option P
      → Option End
  with_path from_path adapter network none = some panics
  with_path from_path adapter network (some path) =
      after_open adapter network (open_tty from_path path)

  -- The first question to the adapter is its device state; the survey follows with what the zdo
  -- layer's requests come to. Nothing, if the fuel for the neighbour table has run out.
  unfoldable pub main :
      {P Serial : Type 0}
      → (P → SerialPortSettings → Option Serial)
      → (Serial → Client.Channel)
      → Channel
      → List P
      → Option End
  main from_path adapter network args = with_path from_path adapter network (second args)
