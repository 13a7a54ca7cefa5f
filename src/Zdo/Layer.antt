-- ===== src/Zdo/Layer.antt =====
-- The zdo layer of tophamm/src/zdo/mod.rs with its requests: the calls of `Zdo::make_request` on
-- their way through the channel, the transmitting task, a spawned task for each request, and the
-- receiving task. The frame of a request is written to a vector before the call, which never fails.
pub mod Follows
pub mod Once
use tophamm.Base.{◌≡◌, ℕ, List, [], ◌∷◌, ◌++◌, Option, none, some}
use tophamm.Deconz.Types.{ApsDataRequest, ApsDataIndication, ApsDataConfirm}
use tophamm.Deconz.Errors
use tophamm.Zdo.Transactions.Exchange
use tophamm.Zdo.Transactions.Exchange.{began, ended, received}
use tophamm.Calls
use tophamm.Calls.{Calls, Mpsc, Item, call, took, enter, pick}

pub record Layer (S : Type 0) (C : Type 0) : Type 0 where
  pub requests : Calls ApsDataRequest S C
  -- The tasks that have not run yet.
  pub spawned : List (Item ApsDataRequest S)
  -- Those that wait for `aps_data_request`.
  pub in_flight : List (ℕ × ApsDataRequest)
  pub senders : Exchange.Senders S

pub data Event (S : Type 0) : Type 0 where
  on_requests : Calls.Event ApsDataRequest S → Event S
  -- A spawned task, by its place, registers its sender and calls `aps_data_request`.
  task_polled : ℕ → Event S
  -- The call of one that waits, by its place, ends.
  request_ended : ℕ → Errors.Result ApsDataConfirm → Event S
  indication_received : ApsDataIndication → Event S

module _ {S C : Type 0} where
  abbrev pub with_requests : Option (Calls ApsDataRequest S C) → Layer S C → Option (Layer S C)
  with_requests none y = none
  with_requests (some requests) y = some (record y { requests = requests })

  abbrev pub spawn : Option (Item ApsDataRequest S × C) → Layer S C → Option (Layer S C)
  spawn none y = none
  spawn (some (item, channel)) y =
      some (record y { requests = took item channel y.requests; spawned = y.spawned ++ item ∷ [] })

  abbrev pub begin_request :
      Option (Item ApsDataRequest S × List (Item ApsDataRequest S)) → Layer S C → Option (Layer S C)
  begin_request none y = none
  begin_request (some ((id, request, sender), spawned)) y = some (record y {
    spawned = spawned;
    in_flight = y.in_flight ++ (id, request) ∷ [];
    senders = Exchange.step (began id sender) y.senders;
  })

  abbrev pub end_request :
      Option ((ℕ × ApsDataRequest) × List (ℕ × ApsDataRequest))
      → Errors.Result ApsDataConfirm
      → Layer S C
      → Option (Layer S C)
  end_request none result y = none
  end_request (some ((id, request), in_flight)) result y =
      some (record y { in_flight = in_flight; senders = Exchange.step (ended id result) y.senders })

module _ {S C : Type 0} (requests : Mpsc (Item ApsDataRequest S) C) where
  unfoldable pub step : Event S → Layer S C → Option (Layer S C)
  step (on_requests (Calls.called request sender)) y =
      some (record y { requests = call request sender y.requests })
  step (on_requests (Calls.entered n)) y =
      with_requests (enter requests (pick n y.requests.waiting) y.requests) y
  step (on_requests Calls.received) y = spawn (requests.recv y.requests.channel) y
  step (task_polled n) y = begin_request (pick n y.spawned) y
  step (request_ended n result) y = end_request (pick n y.in_flight) result y
  step (indication_received indication) y =
      some (record y { senders = Exchange.step (received indication) y.senders })

  unfoldable pub start : Layer S C
  start = record {
    requests = Calls.start requests;
    spawned = [];
    in_flight = [];
    senders = Exchange.start;
  }

  -- The events happen in this order, from one state to another.
  pub data Runs : Layer S C → List (Event S) → Layer S C → Type 0 where
    done : (y : Layer S C) → Runs y [] y
    more :
        {x y z : Layer S C} {e : Event S} {es : List (Event S)}
        → step e x ≡ some y
        → Runs y es z
        → Runs x (e ∷ es) z
