-- ===== src/Tests/Passage.antt =====
-- An indication on its way to the zdo layer.
use tophamm.Base.{◌≡◌, refl, List, [], ◌∷◌, ◌++◌, Option, some}
use tophamm.Deconz.Types.{ApsDataIndication}
use tophamm.Calls.{single}
use tophamm.Program.Passage.{
  Passage, Event, passes, reads, sends, takes, step, start, Runs, done, more,
}
use tophamm.Program.Passage.Order.{for_zdo, on_the_way, passed-on_the_way}
use tophamm.Tests.Queries.{answer}

abbrev other : ApsDataIndication
other = record answer { destination_endpoint = record { value = 1 } }

-- One is taken, one is for another endpoint, and one is still held.
abbrev events : List Event
events = passes answer ∷ reads ∷ passes other ∷ sends ∷ reads ∷ passes answer ∷ reads ∷ takes ∷ []

abbrev end_state : Passage (Option ApsDataIndication) (Option ApsDataIndication)
end_state = record (start single single) {
  passed = answer ∷ other ∷ answer ∷ [];
  held = some answer;
  taken = answer ∷ [];
}

events-Runs : Runs single single (start single single) events end_state
unfolding step start
events-Runs =
    more refl
      (more refl (more refl (more refl (more refl (more refl (more refl (more refl (done _))))))))

passed-on_the_way_example :
    for_zdo end_state.passed ≡ end_state.taken ++ on_the_way single single end_state
passed-on_the_way_example = passed-on_the_way single single events-Runs
