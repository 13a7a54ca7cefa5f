-- ===== src/Deconz/System.antt =====
-- The tasks of the library together, as `Deconz::new` of deconz/src/deconz.rs starts them: the
-- transmitting and the receiving task on the map of commands, the watch channel from the receiving
-- task to the three tasks of deconz/src/aps.rs, and the map of data requests.
pub mod Broadcasts
pub mod Flow
pub mod Once
pub mod Passed
use tophamm.Base.{
  refl, ◌≡◌, ℕ, ℕ_discrete, ite, Bool, true, false, if◌then◌else◌, List, [], ◌∷◌, ◌++◌, Option,
  none, some, Bytes,
}
use tophamm.Outcome.{Build}
use tophamm.Deconz.Types.{DeviceState, ApsDataRequest, ApsDataIndication}
use tophamm.Deconz.Errors.{Result}
use tophamm.Deconz.Wire.External.{Byteorder}
use tophamm.Deconz.Client.{Channel}
use tophamm.Deconz.Rx.{process_frame}
use tophamm.Deconz.Exchange
use tophamm.Deconz.Aps.Confirmations
use tophamm.Deconz.Aps.Indications
use tophamm.Deconz.System.Broadcasts.{Watch}

pub record System (S : Type 0) (W : Type 0) : Type 0 where
  -- The transmitting and the receiving task.
  pub serial : Exchange.Senders S
  -- What each task of aps.rs has of the watch channel.
  pub requests_watch : W
  pub confirms_watch : W
  pub indications_watch : W
  -- The forwarding task: its flag, and the request that it is forwarding.
  pub request_free_slots : Bool
  pub forwarding : Option ℕ
  pub aps : Confirmations.Senders S
  -- The task of the indications: what it has passed on, in order, and whether it still runs.
  pub passed : List ApsDataIndication
  pub indications : Indications.Status

-- A step of the transmitting or the receiving task; the forwarding task sees a device state, takes
-- a request, or ends its forwarding; the confirming task or that of the indications sees a device
-- state, with the counter as it is then and what comes back for its command.
pub data Event (S : Type 0) : Type 0 where
  on_serial : Exchange.Event S → Event S
  requests_woken : Event S
  taken : ℕ → S → Event S
  forwarded : ℕ → Result (Unit {0}) → Event S
  confirms_woken : ℕ → Channel → Event S
  indications_woken : ℕ → Channel → Bool → Event S

module _ ⦃bo : Byteorder⦄ {S : Type 0} (build : Build) where
  -- The device state that the receiving task broadcasts in a step.
  unfoldable pub broadcast_of : Exchange.Event S → Exchange.Senders S → Option DeviceState
  broadcast_of (Exchange.received frame) p =
      if p.running then (process_frame build frame p.awaiting).broadcast else none
  broadcast_of _ p = none

module _ {W : Type 0} (watch : Watch W) where
  abbrev pub told : Option DeviceState → W → W
  told none w = w
  told (some d) w = watch.broadcast d w

module _ {S W : Type 0} where
  abbrev pub woken_requests : Option ℕ → Option (DeviceState × W) → System S W → Option (System S W)
  woken_requests none (some (d, w)) y =
      some (record y { requests_watch = w; request_free_slots = d.data_request_free_slots })
  woken_requests none none y = none
  woken_requests (some id) seen y = none

  abbrev pub take_request : Bool → Option ℕ → ℕ → S → System S W → Option (System S W)
  take_request true none id sender y = some (record y {
    request_free_slots = false;
    forwarding = some id;
    aps = Confirmations.step (Confirmations.began id sender) y.aps;
  })
  take_request _ _ id sender y = none

  abbrev pub end_forwarding : Option ℕ → ℕ → Result (Unit {0}) → System S W → Option (System S W)
  end_forwarding none id result y = none
  end_forwarding (some j) id result y =
      ite (ℕ_discrete j id)
        (some (record y {
          forwarding = none;
          aps = Confirmations.step (Confirmations.ended id result) y.aps;
        }))
        none

  abbrev pub woken_confirms :
      Option (DeviceState × W) → ℕ → Channel → System S W → Option (System S W)
  woken_confirms none sequence_ids channel y = none
  woken_confirms (some (d, w)) sequence_ids channel y = some (record y {
    confirms_watch = w;
    aps = Confirmations.step (Confirmations.woken d sequence_ids channel) y.aps;
  })

  abbrev pub after_round : Indications.Round → W → System S W → System S W
  after_round (Indications.go_on o) w y = record y {
    indications_watch = w;
    passed = y.passed ++ Indications.listed o;
  }
  after_round Indications.break w y = record y {
    indications_watch = w;
    indications = Indications.finished;
  }
  after_round Indications.crash w y = record y {
    indications_watch = w;
    indications = Indications.crashed;
  }

  abbrev pub woken_indications :
      Indications.Status
      → Option (DeviceState × W)
      → ℕ
      → Channel
      → Bool
      → System S W
      → Option (System S W)
  woken_indications Indications.running (some (d, w)) sequence_ids channel accepted y = some (
      after_round
        (Indications.round (record {
          device_state = d;
          sequence_ids = sequence_ids;
          channel = channel;
          accepted = accepted;
        }))
        w y)
  woken_indications _ _ sequence_ids channel accepted y = none

module _ {S W : Type 0} (watch : Watch W) where
  unfoldable pub start : System S W
  start = record {
    serial = Exchange.start;
    requests_watch = watch.start;
    confirms_watch = watch.start;
    indications_watch = watch.start;
    request_free_slots = false;
    forwarding = none;
    aps = Confirmations.start;
    passed = [];
    indications = Indications.running;
  }

module _ ⦃bo : Byteorder⦄ {S W : Type 0} (build : Build) (watch : Watch W) where
  abbrev pub serial_step : Exchange.Event S → System S W → System S W
  serial_step e y =
      let o = broadcast_of build e y.serial in
      record y {
        serial = Exchange.step build e y.serial;
        requests_watch = told watch o y.requests_watch;
        confirms_watch = told watch o y.confirms_watch;
        indications_watch = told watch o y.indications_watch;
      }

  -- Nothing, when the task is not at the point where the event can happen.
  unfoldable pub step : Event S → System S W → Option (System S W)
  step (on_serial e) y = some (serial_step e y)
  step requests_woken y = woken_requests y.forwarding (watch.recv y.requests_watch) y
  step (taken id sender) y = take_request y.request_free_slots y.forwarding id sender y
  step (forwarded id result) y = end_forwarding y.forwarding id result y
  step (confirms_woken sequence_ids channel) y =
      woken_confirms (watch.recv y.confirms_watch) sequence_ids channel y
  step (indications_woken sequence_ids channel accepted) y =
      woken_indications y.indications (watch.recv y.indications_watch) sequence_ids channel accepted
        y

  pub step-serial_step :
      (e : Exchange.Event S) (y : System S W) → step (on_serial e) y ≡ some (serial_step e y)
  unfolding step
  step-serial_step e y = refl

  -- The events happen in this order, from one state to another.
  pub data Runs : System S W → List (Event S) → System S W → Type 0 where
    done : (y : System S W) → Runs y [] y
    more :
        {x y z : System S W} {e : Event S} {es : List (Event S)}
        → step e x ≡ some y
        → Runs y es z
        → Runs x (e ∷ es) z

  pub Runs-append :
      {x y z : System S W} {es fs : List (Event S)}
      → Runs x es y
      → Runs y fs z
      → Runs x (es ++ fs) z
  Runs-append (done x) r = r
  Runs-append (more h q) r = more h (Runs-append q r)
