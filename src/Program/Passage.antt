-- ===== src/Program/Passage.antt =====
-- The way of an indication from the task of deconz/src/aps.rs that fetches it to the receiving task
-- of tophamm/src/zdo/mod.rs: the channel that `ApsReader` reads, the task in tophamm/src/main.rs,
-- and the channel to the zdo layer. All of them run, so that no receiver is dropped.
pub mod Order
use mathlib.Core.Option.{some-injective}
use tophamm.Base.{
  ◌≡◌, refl, sym, ap, ◌∙◌, subst, append_assoc, List, [], ◌∷◌, ◌++◌, Option, none, some,
  if◌then◌else◌, arith,
}
use tophamm.Deconz.Types.{ApsDataIndication}
use tophamm.Calls.{Mpsc}
use tophamm.Program.{is_zdo}

-- What the fetching task has passed, what is in the two channels, what the task between them holds
-- while it waits for room, and what the receiving task has taken.
pub record Passage (C : Type 0) (D : Type 0) : Type 0 where
  pub passed : List ApsDataIndication
  pub indications : C
  pub held : Option ApsDataIndication
  pub zdo : D
  pub taken : List ApsDataIndication

pub data Event : Type 0 where
  -- `send` of `ApsIndications::task` puts an indication into the channel.
  passes : ApsDataIndication → Event
  -- The task takes one from the reader, and holds it if it is for endpoint 0.
  reads : Event
  -- Its `send` puts it into the channel to the zdo layer.
  sends : Event
  takes : Event

abbrev pub kept : ApsDataIndication → Option ApsDataIndication
kept indication = if is_zdo indication then some indication else none

module _ {C D : Type 0} where
  abbrev pub passed_into : ApsDataIndication → Option C → Passage C D → Option (Passage C D)
  passed_into indication none y = none
  passed_into indication (some channel) y =
      some (record y { passed = y.passed ++ indication ∷ []; indications = channel })

  -- `ApsReader::poll_next`, while the task holds none.
  abbrev pub read_from :
      Option ApsDataIndication → Option (ApsDataIndication × C) → Passage C D → Option (Passage C D)
  read_from none none y = none
  read_from none (some (indication, channel)) y =
      some (record y { indications = channel; held = kept indication })
  read_from (some i) o y = none

  abbrev pub sent_into : Option D → Passage C D → Option (Passage C D)
  sent_into none y = none
  sent_into (some channel) y = some (record y { held = none; zdo = channel })

  abbrev pub taken_from : Option (ApsDataIndication × D) → Passage C D → Option (Passage C D)
  taken_from none y = none
  taken_from (some (indication, channel)) y =
      some (record y { zdo = channel; taken = y.taken ++ indication ∷ [] })

module _ {C D : Type 0} (indications : Mpsc ApsDataIndication C)
    (zdo : Mpsc ApsDataIndication D) where
  abbrev pub send_held : Option ApsDataIndication → Passage C D → Option (Passage C D)
  send_held none y = none
  send_held (some indication) y = sent_into (zdo.try_send indication y.zdo) y

  unfoldable pub step : Event → Passage C D → Option (Passage C D)
  step (passes indication) y =
      passed_into indication (indications.try_send indication y.indications) y
  step reads y = read_from y.held (indications.recv y.indications) y
  step sends y = send_held y.held y
  step takes y = taken_from (zdo.recv y.zdo) y

  unfoldable pub start : Passage C D
  start = record {
    passed = [];
    indications = indications.empty;
    held = none;
    zdo = zdo.empty;
    taken = [];
  }

  pub data Runs : Passage C D → List Event → Passage C D → Type 0 where
    done : (y : Passage C D) → Runs y [] y
    more :
        {x y z : Passage C D} {e : Event} {es : List Event}
        → step e x ≡ some y
        → Runs y es z
        → Runs x (e ∷ es) z
