-- ===== src/Tests/System.antt =====
-- A run of the five tasks of the library. Senders are numbers.
use tophamm.Base.{ℕ, ℕ_discrete, ◌≡◌, ◌≤◌, refl, true, List, [], ◌∷◌, Option, none, some, length}
use tophamm.Outcome.{debug, ok}
use tophamm.Deconz.Types.{DeviceState}
use tophamm.Deconz.Wire.External.{Byteorder, byteorder}
use tophamm.Deconz.Protocol.Response
use tophamm.Deconz.Protocol.Response.Encoding.{response_frame}
use tophamm.Deconz.Client
use tophamm.Deconz.Client.{Channel, make_request}
use tophamm.Deconz.Rx.Dispatch.{process_frame_notified}
use tophamm.Deconz.Exchange
use tophamm.Deconz.Aps.Confirmations
use tophamm.Deconz.Aps.{aps_data_indication}
use tophamm.Deconz.Aps.Indications
use tophamm.Deconz.System.Broadcasts.{latest, take_unseen}
use tophamm.Deconz.System.Flow.{free, takes, reports, takes-le-reports}
use tophamm.Deconz.System.Passed.{indicates, passed-le-reports}
use tophamm.Deconz.System.{
  System, Event, on_serial, requests_woken, taken, forwarded, indications_woken, broadcast_of, step,
  start, Runs, done, more,
}
use tophamm.Tests.Frames.{state}
use tophamm.Tests.Queries.{answer}

instance abbrev cursor : Byteorder
cursor = byteorder

-- The adapter notifies of a free slot and an indication, and hands the indication out.
abbrev notified : Event ℕ
notified = on_serial (Exchange.received (response_frame (Response.device_state_changed state) 9 0))

abbrev adapter : Channel
adapter command = Client.replied (ok (Response.aps_data_indication state answer))

abbrev after_notified : System ℕ (Option DeviceState)
after_notified = record (start latest) {
  requests_watch = some state;
  confirms_watch = some state;
  indications_watch = some state;
}

step-notified : step debug latest notified (start latest) ≡ some after_notified
unfolding step broadcast_of start Exchange.step Exchange.start
step-notified = rw (process_frame_notified debug state 9 0 []) refl

abbrev events : List (Event ℕ)
events =
    notified
    ∷ requests_woken
    ∷ taken 5 70
    ∷ on_serial (Exchange.began 3 80)
    ∷ indications_woken 4 adapter true
    ∷ forwarded 5 (ok tt)
    ∷ []

abbrev end_state : System ℕ (Option DeviceState)
end_state = record (start latest) {
  serial = Exchange.step debug (Exchange.began 3 80) Exchange.start;
  requests_watch = none;
  confirms_watch = some state;
  indications_watch = none;
  aps =
      Confirmations.step (Confirmations.ended 5 (ok tt))
        (Confirmations.step (Confirmations.began 5 70) Confirmations.start);
  passed = answer ∷ [];
}

events-Runs : Runs debug latest (start latest) events end_state
unfolding step start broadcast_of take_unseen ℕ_discrete Indications.round aps_data_indication
    make_request
events-Runs =
    more step-notified (more refl (more refl (more refl (more refl (more refl (done _))))))

takes-le-reports_example : takes events ≤ reports debug free events
takes-le-reports_example = takes-le-reports debug latest events-Runs

passed-le-reports_example : length end_state.passed ≤ reports debug indicates events
passed-le-reports_example = passed-le-reports debug latest events-Runs
