-- ===== src/Deconz/Aps/Indications.antt =====
-- `ApsIndications::task` of deconz/src/aps.rs: the loop that fetches indications when the adapter
-- reports one, and passes them to the application. The list is what `recv` of the watch channel
-- gives, with what the task meets in each round.
use tophamm.Base.{
  All, append_assoc, ◌≡◌, refl, ◌∙◌, ℕ, Bool, true, false, List, [], ◌∷◌, ◌++◌, Option, none, some,
  if◌then◌else◌,
}
use tophamm.Outcome.{ok, err, panic}
use tophamm.Deconz.Types.{DeviceState, ApsDataIndication}
use tophamm.Deconz.Errors.{Result}
use tophamm.Deconz.Client.{Channel}
use tophamm.Deconz.Aps.{aps_data_indication}

-- A device state, the counter that other tasks use too, what comes back for the command, and
-- whether the application still has the receiver when it is sent an indication.
pub record Wake : Type 0 where
  pub device_state : DeviceState
  pub sequence_ids : ℕ
  pub channel : Channel
  pub accepted : Bool

-- A round goes on, with what it passed to the application; or the loop ends; or the task panics.
pub data Round : Type 0 where
  go_on : Option ApsDataIndication → Round
  break crash : Round

abbrev pass : Bool → ApsDataIndication → Round
pass true indication = go_on (some indication)
pass false indication = break

abbrev fetched : Bool → Result ApsDataIndication → Round
fetched accepted (ok indication) = pass accepted indication
fetched accepted (err e) = go_on none
fetched accepted panic = crash

unfoldable pub round : Wake → Round
round w =
    if w.device_state.data_indication
    then fetched w.accepted (aps_data_indication w.channel w.sequence_ids).0
    else go_on none

pub data Status : Type 0 where
  running finished crashed : Status

abbrev pub listed : Option ApsDataIndication → List ApsDataIndication
listed none = []
listed (some indication) = indication ∷ []

-- What was passed to the application, in order, and what became of the task.
unfoldable pub task : List Wake → List ApsDataIndication × Status
unfolding round
task [] = ([], running)
task (w ∷ ws) = elim (round w) [
  | go_on passed ↦ (let (rest, status) = task ws in (listed passed ++ rest, status))
  | break ↦ ([], finished)
  | crash ↦ ([], crashed)
]

module _ {ℓ} (P : ApsDataIndication → Type ℓ) where
  -- The round goes on, and what it passes to the application, if anything, satisfies the predicate.
  abbrev pub Passes : Wake → Type ℓ
  Passes w = (o : Option ApsDataIndication) × (round w ≡ go_on o) × All P (listed o)

  All-listed :
      (o : Option ApsDataIndication) (xs : List ApsDataIndication)
      → All P (listed o)
      → All P xs
      → All P (listed o ++ xs)
  All-listed none xs h hs = hs
  All-listed (some i) xs (h, u) hs = (h, hs)

  task-go_on :
      (w : Wake) (ws : List Wake) (o : Option ApsDataIndication)
      → round w ≡ go_on o
      → task (w ∷ ws) ≡ (listed o ++ (task ws).0, (task ws).1)
  unfolding task
  task-go_on w ws o e = rw (e, task) refl

  -- After rounds that go on, an indication is passed behind all that they passed.
  pub task-Passes :
      (ws : List Wake) (w : Wake) (i : ApsDataIndication)
      → All Passes ws
      → round w ≡ go_on (some i)
      → (xs : List ApsDataIndication) × (task (ws ++ w ∷ []) ≡ (xs ++ i ∷ [], running)) × All P xs
  task-Passes [] w i h e = ([], task-go_on w [] (some i) e ∙ unfold task in refl, tt)
  task-Passes (v ∷ ws) w i ((o, f, p), h) e =
      let (xs, t, hs) = task-Passes ws w i h e in
      (
        listed o ++ xs,
        task-go_on v (ws ++ w ∷ []) o f ∙ rw (t, append_assoc) refl,
        All-listed o xs p hs,
      )
