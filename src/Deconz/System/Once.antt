-- ===== src/Deconz/System/Once.antt =====
-- The maps of senders that the tasks share, when all of them run.
use mathlib.Core.Option.{some-injective}
use tophamm.Base.{
  sym, ◌∙◌, ap, refl, ℕ, ◌≡◌, ◌+◌, ◌≤◌, arith, ite, Bool, true, false, List, [], ◌∷◌, ◌++◌, Option,
  none, some,
}
use tophamm.Outcome.{Build}
use tophamm.Deconz.Types.{DeviceState}
use tophamm.Deconz.Errors.{Result}
use tophamm.Deconz.Wire.External.{Byteorder}
use tophamm.Deconz.Client.{Channel}
use tophamm.Helpers.Awaiting.Delivery.{delivered}
use tophamm.Deconz.Exchange
use tophamm.Deconz.Exchange.Once.{begun, delivered-le-begun}
use tophamm.Deconz.Aps.Confirmations
use tophamm.Deconz.Aps.Confirmations.Once as Requests
use tophamm.Deconz.Aps.Indications
use tophamm.Deconz.System.Broadcasts.{Watch}
use tophamm.Deconz.System.{
  System, Event, on_serial, requests_woken, taken, forwarded, confirms_woken, indications_woken,
  woken_requests, take_request, end_forwarding, woken_confirms, after_round, woken_indications,
  step, start, Runs, done, more,
}

module _ {S : Type 0} where
  abbrev serial_of : Event S → List (Exchange.Event S)
  serial_of (on_serial e) = e ∷ []
  serial_of _ = []

  -- What the transmitting and the receiving task do in a run.
  abbrev pub serial_events : List (Event S) → List (Exchange.Event S)
  serial_events [] = []
  serial_events (e ∷ es) = serial_of e ++ serial_events es

  module _ (name : Discrete S) (s : S) where
    abbrev asked_of : Event S → ℕ
    asked_of (taken id x) = ite (name x s) 1 0
    asked_of _ = 0

    -- How many data requests that are taken carry the sender.
    abbrev pub asked : List (Event S) → ℕ
    asked [] = 0
    asked (e ∷ es) = asked_of e + asked es

module _ {S W : Type 0} where
  -- What a step that is none of the transmitting or the receiving task does to the two maps.
  pub woken_requests-same :
      (x y : System S W) (forwarding : Option ℕ) (seen : Option (DeviceState × W))
      → woken_requests forwarding seen x ≡ some y
      → (y.serial ≡ x.serial) × (y.aps ≡ x.aps)
  woken_requests-same x y none (some (d, w)) h = (ground arith, ground arith)
  woken_requests-same x y none none h = ground arith
  woken_requests-same x y (some id) seen h = ground arith

  pub take_request-began :
      (id : ℕ) (sender : S) (x y : System S W) (forwarding : Option ℕ) (b : Bool)
      → take_request b forwarding id sender x ≡ some y
      → (y.serial ≡ x.serial) × (y.aps ≡ Confirmations.step (Confirmations.began id sender) x.aps)
  take_request-began id sender x y none true h = (ground arith, ground arith)
  take_request-began id sender x y (some j) true h = ground arith
  take_request-began id sender x y forwarding false h = ground arith

  pub end_forwarding-ended :
      (id : ℕ) (result : Result (Unit {0})) (x y : System S W) (forwarding : Option ℕ)
      → end_forwarding forwarding id result x ≡ some y
      → (y.serial ≡ x.serial) × (y.aps ≡ Confirmations.step (Confirmations.ended id result) x.aps)
  end_forwarding-ended id result x y none h = ground arith
  end_forwarding-ended id result x y (some j) h = (ground arith, ground arith)

  pub woken_confirms-woken :
      (q : ℕ) (channel : Channel) (x y : System S W) (seen : Option (DeviceState × W))
      → woken_confirms seen q channel x ≡ some y
      → (y.serial ≡ x.serial)
        × (d : DeviceState) × (y.aps ≡ Confirmations.step (Confirmations.woken d q channel) x.aps)
  woken_confirms-woken q channel x y none h = ground arith
  woken_confirms-woken q channel x y (some (d, w)) h = (ground arith, d, ground arith)

  after_round-same :
      (r : Indications.Round) (w : W) (x : System S W)
      → ((after_round r w x).serial ≡ x.serial) × ((after_round r w x).aps ≡ x.aps)
  after_round-same (Indications.go_on o) w x = (refl, refl)
  after_round-same Indications.break w x = (refl, refl)
  after_round-same Indications.crash w x = (refl, refl)

  pub woken_indications-same :
      (q : ℕ) (channel : Channel) (accepted : Bool) (x y : System S W) (status : Indications.Status)
      (seen : Option (DeviceState × W))
      → woken_indications status seen q channel accepted x ≡ some y
      → (y.serial ≡ x.serial) × (y.aps ≡ x.aps)
  woken_indications-same q channel accepted x y Indications.running (some (d, w)) h =
      let (f, g) = after_round-same _ w x in
      let e = some-injective _ _ h in
      (ap (λ (z : System S W). z.serial) (sym e) ∙ f, ap (λ (z : System S W). z.aps) (sym e) ∙ g)
  woken_indications-same q channel accepted x y Indications.running none h = ground arith
  woken_indications-same q channel accepted x y Indications.finished seen h = ground arith
  woken_indications-same q channel accepted x y Indications.crashed seen h = ground arith

-- Events on the map of data requests that take one state of it to another, with so many requests
-- that carry the sender.
abbrev Follows :
    {S : Type 0} → Discrete S → S → ℕ → Confirmations.Senders S → Confirmations.Senders S → Type 0
Follows {S} name s n p q =
    (cs : List (Confirmations.Event S)) × (q ≡ Confirmations.run cs p)
    × (Requests.begun name s cs ≡ n)

module _ ⦃bo : Byteorder⦄ {S W : Type 0} (build : Build) (watch : Watch W) where
  step-projects :
      (name : Discrete S) (s : S) (e : Event S) (x y : System S W)
      → step build watch e x ≡ some y
      → (y.serial ≡ Exchange.run build (serial_of e) x.serial)
        × Follows name s (asked_of name s e) x.aps y.aps
  unfolding step Exchange.run Confirmations.run
  step-projects name s (on_serial e) x y h = (ground arith, ([], ground arith, refl))
  step-projects name s requests_woken x y h =
      let (f, g) = woken_requests-same x y x.forwarding (watch.recv x.requests_watch) h in
      (f, ([], g, refl))
  step-projects name s (taken id sender) x y h =
      let (f, g) = take_request-began id sender x y x.forwarding x.request_free_slots h in
      (f, (Confirmations.began id sender ∷ [], g, omega arith))
  step-projects name s (forwarded id result) x y h =
      let (f, g) = end_forwarding-ended id result x y x.forwarding h in
      (f, (Confirmations.ended id result ∷ [], g, omega arith))
  step-projects name s (confirms_woken q channel) x y h =
      let (f, d, g) = woken_confirms-woken q channel x y (watch.recv x.confirms_watch) h in
      (f, (Confirmations.woken d q channel ∷ [], g, omega arith))
  step-projects name s (indications_woken q channel accepted) x y h =
      let (f, g) =
        woken_indications-same q channel accepted x y x.indications (watch.recv x.indications_watch)
          h in
      (f, ([], g, refl))

  -- A run of the system is, on the map of commands, the run of the events of the transmitting and
  -- the receiving task.
  Runs-serial :
      (name : Discrete S) (s : S) {x y : System S W} {es : List (Event S)}
      → Runs build watch x es y
      → (y.serial ≡ Exchange.run build (serial_events es) x.serial)
        × Follows name s (asked name s es) x.aps y.aps
  Runs-serial name s (done x) =
      (unfold Exchange.run in refl, ([], unfold Confirmations.run in refl, refl))
  Runs-serial name s (more {x} {y} {e} {es} h r) =
      let (f, (cs, g, n)) = step-projects name s e x y h in
      let (f', (cs', g', n')) = Runs-serial name s r in
      (
        f'
            ∙ ap (Exchange.run build (serial_events es)) f
            ∙ (sym (Exchange.run-append build (serial_of e) (serial_events es) x.serial)),
        (
          cs ++ cs',
          g' ∙ ap (Confirmations.run cs') g ∙ (sym (Confirmations.run-append cs cs' x.aps)),
          Requests.begun-append name s cs cs' ∙ omega (arith, n, n'),
        ),
      )

  -- However the steps of the five tasks are interleaved from their start, the sender of a command
  -- is handed at most as many messages as there are commands that carry it, and that of a data
  -- request at most as many as there are data requests taken that carry it.
  pub delivered-le-taken :
      (name : Discrete S) (s : S) {y : System S W} {es : List (Event S)}
      → Runs build watch (start watch) es y
      → (delivered name s y.serial.log ≤ begun build name s (serial_events es))
        × (delivered name s y.aps.1 ≤ asked name s es)
  unfolding start
  delivered-le-taken name s {es = es} r =
      let (f, (cs, g, n)) = Runs-serial name s r in
      (
        rw f (delivered-le-begun build name s (serial_events es)),
        rw (g, ← n) (Requests.delivered-le-begun name s cs),
      )
