-- ===== src/Deconz/System/Passed.antt =====
-- What the task of the indications (`ApsIndications` of deconz/src/aps.rs) passes to the
-- application, against what the adapter has reported to the receiving task.
use mathlib.Core.Option.{some-injective}
use tophamm.Base.{
  ap, length, length-append, refl, ℕ, ◌≡◌, ◌+◌, ◌≤◌, arith, Bool, true, false, List, [], ◌∷◌,
  Option, none, some,
}
use tophamm.Outcome.{Build}
use tophamm.Deconz.Types.{DeviceState}
use tophamm.Deconz.Errors.{Result}
use tophamm.Deconz.Wire.External.{Byteorder}
use tophamm.Deconz.Client.{Channel}
use tophamm.Deconz.Aps.Indications
use tophamm.Deconz.Aps.Indications.{Wake, Round, round, listed}
use tophamm.Deconz.System.Broadcasts.{Watch}
use tophamm.Deconz.System.Flow.{
  owed, report_of, reports, waiting, waiting-told, waiting-recv, owed-broadcast_of,
}
use tophamm.Deconz.System.{
  System, Event, on_serial, requests_woken, taken, forwarded, confirms_woken, indications_woken,
  broadcast_of, woken_requests, take_request, end_forwarding, woken_confirms, after_round,
  woken_indications, step, start, Runs, done, more,
}

abbrev pub indicates : DeviceState → Bool
indicates d = d.data_indication

abbrev given : Round → ℕ
given (Indications.go_on o) = length (listed o)
given Indications.break = 0
given Indications.crash = 0

given-round : (w : Wake) → given (round w) ≤ owed indicates (some w.device_state)
unfolding round
given-round w = ground arith

module _ {S W : Type 0} (watch : Watch W) where
  -- What was passed, and what may be passed with no further report.
  abbrev credit : System S W → ℕ
  credit y = length y.passed + waiting watch indicates y.indications_watch

  passed-after_round :
      (r : Round) (w : W) (x : System S W)
      → credit (after_round r w x) ≤ given r + length x.passed + waiting watch indicates w
  passed-after_round (Indications.go_on none) w x = omega (arith, length-append x.passed [])
  passed-after_round (Indications.go_on (some i)) w x =
      omega (arith, length-append x.passed (i ∷ []))
  passed-after_round Indications.break w x = omega arith
  passed-after_round Indications.crash w x = omega arith

  passed-woken_requests :
      (x y : System S W) (forwarding : Option ℕ) (seen : Option (DeviceState × W))
      → woken_requests forwarding seen x ≡ some y
      → credit y ≡ credit x
  passed-woken_requests x y none (some (d, w)) h = ground arith
  passed-woken_requests x y none none h = ground arith
  passed-woken_requests x y (some id) seen h = ground arith

  passed-take_request :
      (id : ℕ) (sender : S) (x y : System S W) (forwarding : Option ℕ) (b : Bool)
      → take_request b forwarding id sender x ≡ some y
      → credit y ≡ credit x
  passed-take_request id sender x y none true h = ground arith
  passed-take_request id sender x y (some j) true h = ground arith
  passed-take_request id sender x y forwarding false h = ground arith

  passed-end_forwarding :
      (id : ℕ) (result : Result (Unit {0})) (x y : System S W) (forwarding : Option ℕ)
      → end_forwarding forwarding id result x ≡ some y
      → credit y ≡ credit x
  passed-end_forwarding id result x y none h = ground arith
  passed-end_forwarding id result x y (some j) h = ground arith

  passed-woken_confirms :
      (q : ℕ) (channel : Channel) (x y : System S W) (seen : Option (DeviceState × W))
      → woken_confirms seen q channel x ≡ some y
      → credit y ≡ credit x
  passed-woken_confirms q channel x y none h = ground arith
  passed-woken_confirms q channel x y (some (d, w)) h = ground arith

  passed-woken_indications :
      (q : ℕ) (channel : Channel) (accepted : Bool) (x y : System S W) (status : Indications.Status)
      (seen : Option (DeviceState × W))
      → watch.recv x.indications_watch ≡ seen
      → woken_indications status seen q channel accepted x ≡ some y
      → credit y ≤ credit x
  passed-woken_indications q channel accepted x y Indications.running (some (d, w)) e h =
      let (s, n) = waiting-recv watch indicates d x.indications_watch w e in
      let v : Wake = record {
        device_state = d;
        sequence_ids = q;
        channel = channel;
        accepted = accepted;
      } in
      omega (
        arith,
        s,
        n,
        given-round v,
        passed-after_round (round v) w x,
        ap credit (some-injective _ _ h),
      )
  passed-woken_indications q channel accepted x y Indications.running none e h = ground arith
  passed-woken_indications q channel accepted x y Indications.finished seen e h = ground arith
  passed-woken_indications q channel accepted x y Indications.crashed seen e h = ground arith

module _ ⦃bo : Byteorder⦄ {S W : Type 0} (build : Build) (watch : Watch W) where
  passed-step :
      (e : Event S) (x y : System S W)
      → step build watch e x ≡ some y
      → credit watch y ≤ report_of build indicates e + credit watch x
  unfolding step
  passed-step (on_serial e) x y h = ground (
    arith,
    owed-broadcast_of build indicates e x.serial,
    waiting-told watch indicates (broadcast_of build e x.serial) x.indications_watch,
  )
  passed-step requests_woken x y h =
      omega (arith, passed-woken_requests watch x y x.forwarding (watch.recv x.requests_watch) h)
  passed-step (taken id sender) x y h =
      omega (arith, passed-take_request watch id sender x y x.forwarding x.request_free_slots h)
  passed-step (forwarded id result) x y h =
      omega (arith, passed-end_forwarding watch id result x y x.forwarding h)
  passed-step (confirms_woken q channel) x y h =
      omega (arith, passed-woken_confirms watch q channel x y (watch.recv x.confirms_watch) h)
  passed-step (indications_woken q channel accepted) x y h = omega (
    arith,
    passed-woken_indications watch q channel accepted x y x.indications
        (watch.recv x.indications_watch) refl h,
  )

  passed-Runs :
      {x y : System S W} {es : List (Event S)}
      → Runs build watch x es y
      → credit watch y ≤ reports build indicates es + credit watch x
  passed-Runs (done x) = omega arith
  passed-Runs (more {x} {y} {e} s r) = omega (arith, passed-step e x y s, passed-Runs r)

  -- However the steps of the five tasks are interleaved from their start, the application is
  -- passed at most as many indications as frames arrived whose decoding reports a device state
  -- with an indication.
  pub passed-le-reports :
      {y : System S W} {es : List (Event S)}
      → Runs build watch (start watch) es y
      → length y.passed ≤ reports build indicates es
  unfolding start
  passed-le-reports r = omega (arith, passed-Runs r, ap (owed indicates) watch.unseen-start)
