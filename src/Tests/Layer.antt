-- ===== src/Tests/Layer.antt =====
-- A run of the zdo layer, its calls included. Senders are numbers.
use mathlib.Mathlib.Data.Multiset.Defs.{of_list}
use tophamm.Base.{ℕ, ℕ_discrete, ◌≡◌, ◌≤◌, refl, List, [], ◌∷◌, Option, none, length}
use tophamm.Deconz.Types.{ApsDataRequest}
use tophamm.Helpers.Awaiting.Delivery.{delivered}
use tophamm.Helpers.IncrementingId.{next, new_id}
use tophamm.Zdo.Transactions.Exchange
use tophamm.Calls
use tophamm.Calls.{Item, single}
use tophamm.Calls.Conserved.{made, numbered, all}
use tophamm.Calls.Totals.{asks}
use tophamm.Zdo.Layer.{
  Layer, Event, on_requests, task_polled, indication_received, step, start, Runs, done, more,
}
use tophamm.Zdo.Layer.Once.{on_channel, make_requests-once}
use tophamm.Tests.Queries.{answer}
use tophamm.Tests.Frames.{read_table}

-- Two transactions; the task of the second runs first.
abbrev events : List (Event ℕ)
events =
    on_requests (Calls.called read_table 70)
    ∷ on_requests (Calls.entered 0)
    ∷ on_requests (Calls.called read_table 71)
    ∷ on_requests Calls.received
    ∷ on_requests (Calls.entered 0)
    ∷ on_requests Calls.received
    ∷ task_polled 1
    ∷ indication_received answer
    ∷ []

abbrev end_state : Layer ℕ (Option (Item ApsDataRequest ℕ))
end_state = record (start single) {
  requests = record {
    ids = 2;
    waiting = [];
    channel = none;
    taken = (0, read_table, 70) ∷ (1, read_table, 71) ∷ [];
  };
  spawned = (0, read_table, 70) ∷ [];
  in_flight = (1, read_table) ∷ [];
  senders =
      Exchange.step (Exchange.received answer) (Exchange.step (Exchange.began 1 71) Exchange.start);
}

events-Runs : Runs single (start single) events end_state
unfolding step start Calls.start new_id next
events-Runs =
    more refl
      (more refl (more refl (more refl (more refl (more refl (more refl (more refl (done _))))))))

make_requests-once_example :
    (of_list (numbered new_id (made (on_channel events))) ≡ of_list (all single end_state.requests))
    × (delivered ℕ_discrete 71 end_state.senders.log
        ≤ asks ℕ_discrete 71 (made (on_channel events)))
    × (length end_state.senders.awaiting ≤ 256)
make_requests-once_example = make_requests-once single ℕ_discrete 71 events-Runs
