-- ===== src/Deconz/System/Flow.antt =====
-- What the forwarding task and the task of the indications (`ApsRequests`, `ApsIndications` of
-- deconz/src/aps.rs) do, against what the adapter has reported to the receiving task.
use mathlib.Core.Option.{some-injective}
use tophamm.Base.{
  sym, ◌∙◌, ◌≡◌, ◌+◌, ◌≤◌, arith, Bool, true, false, List, [], ◌∷◌, Option, none, some, Bytes,
}
use tophamm.Base.{ℕ, ℕ_discrete, if◌then◌else◌, Option-cases, inl, inr, refl, ap}
use tophamm.Outcome.{Build, ok, err, panic}
use tophamm.Deconz.Types.{DeviceState}
use tophamm.Deconz.Wire.External.{Byteorder}
use tophamm.Deconz.Protocol.Response.{Response, state_of, from_frame}
use tophamm.Helpers.Awaiting.Map.{deregister_lem}
use tophamm.Deconz.Client.{Channel}
use tophamm.Deconz.Exchange
use tophamm.Deconz.Aps.Indications
use tophamm.Deconz.Exchange.{began, ended, received}
use tophamm.Deconz.Rx.{Pending, second, handle, process_at, process_frame}
use tophamm.Deconz.Errors.{Result}
use tophamm.Deconz.System.Broadcasts.{Watch}
use tophamm.Deconz.System.{
  after_round, woken_indications, woken_confirms, end_forwarding, take_request, woken_requests,
  System, Event, on_serial, requests_woken, taken, forwarded, confirms_woken, indications_woken,
  broadcast_of, told, step, start, Runs, done, more,
}

abbrev pub reported : Result Response → Option DeviceState
reported (ok r) = state_of r
reported (err e) = none
reported panic = none

module _ (flag : DeviceState → Bool) where
  -- One for a device state with the flag.
  abbrev pub owed : Option DeviceState → ℕ
  owed none = 0
  owed (some d) = if flag d then 1 else 0

  owed-handle :
      {S : Type 0} (q : ℕ) (result : Result Response) (awaiting : Pending S)
      → owed (handle q result awaiting).broadcast ≤ owed (reported result)
  unfolding handle
  owed-handle q (ok r) awaiting = ground (arith, deregister_lem ℕ_discrete q awaiting)
  owed-handle q (err e) awaiting = ground (arith, deregister_lem ℕ_discrete q awaiting)
  owed-handle q panic awaiting = omega arith

module _ ⦃bo : Byteorder⦄ (build : Build) (flag : DeviceState → Bool) where
  owed-process_frame :
      {S : Type 0} (frame : Bytes) (awaiting : Pending S)
      → owed flag (process_frame build frame awaiting).broadcast
        ≤ owed flag (reported (from_frame build frame))
  unfolding process_frame process_at
  owed-process_frame frame awaiting = elim (Option-cases (second frame)) [
    | inl e ↦ rw e (omega arith)
    | inr (q, e) ↦ rw e (owed-handle flag q (from_frame build frame) awaiting)
  ]

  module _ {S : Type 0} where
    abbrev pub report_of : Event S → ℕ
    report_of (on_serial (received frame)) = owed flag (reported (from_frame build frame))
    report_of _ = 0

    -- How many of the frames that arrive report a device state with the flag.
    abbrev pub reports : List (Event S) → ℕ
    reports [] = 0
    reports (e ∷ es) = report_of e + reports es

    pub owed-broadcast_of :
        (e : Exchange.Event S) (p : Exchange.Senders S)
        → owed flag (broadcast_of build e p) ≤ report_of (on_serial e)
    unfolding broadcast_of
    owed-broadcast_of (began q sender) p = omega arith
    owed-broadcast_of (ended q result) p = omega arith
    owed-broadcast_of (received frame) p = ground (arith, owed-process_frame frame p.awaiting)

abbrev take_of : {S : Type 0} → Event S → ℕ
take_of (taken id sender) = 1
take_of _ = 0

-- How many requests the forwarding task takes.
abbrev pub takes : {S : Type 0} → List (Event S) → ℕ
takes [] = 0
takes (e ∷ es) = take_of e + takes es

module _ {W : Type 0} (watch : Watch W) (flag : DeviceState → Bool) where
  abbrev pub waiting : W → ℕ
  waiting w = owed flag (watch.unseen w)

  pub waiting-told :
      (o : Option DeviceState) (w : W) → waiting (told watch o w) ≤ owed flag o + waiting w
  waiting-told none w = omega arith
  waiting-told (some d) w = rw (watch.unseen-broadcast d w) (omega arith)

  pub waiting-recv :
      (d : DeviceState) (w w' : W)
      → watch.recv w ≡ some (d, w')
      → (waiting w ≡ owed flag (some d)) × (waiting w' ≡ 0)
  waiting-recv d w w' e = let (s, n) = watch.recv_seen d w w' e in (rw s refl, rw n refl)

abbrev pub free : DeviceState → Bool
free d = d.data_request_free_slots

module _ ⦃bo : Byteorder⦄ {S W : Type 0} (build : Build) (watch : Watch W) where
  -- The requests that may be taken with no further report.
  abbrev credit : System S W → ℕ
  credit y = (if y.request_free_slots then 1 else 0) + waiting watch free y.requests_watch

  woken_requests-credit :
      (x y : System S W) (forwarding : Option ℕ) (seen : Option (DeviceState × W))
      → watch.recv x.requests_watch ≡ seen
      → woken_requests forwarding seen x ≡ some y
      → credit y ≤ credit x
  woken_requests-credit x y none (some (d, w)) e h =
      let (s, n) = waiting-recv watch free d x.requests_watch w e in ground (arith, s, n)
  woken_requests-credit x y none none e h = ground arith
  woken_requests-credit x y (some id) seen e h = ground arith

  take_request-credit :
      (id : ℕ) (sender : S) (x y : System S W) (forwarding : Option ℕ) (b : Bool)
      → x.request_free_slots ≡ b
      → take_request b forwarding id sender x ≡ some y
      → 1 + credit y ≤ credit x
  take_request-credit id sender x y none true e h = ground arith
  take_request-credit id sender x y (some j) true e h = ground arith
  take_request-credit id sender x y forwarding false e h = ground arith

  end_forwarding-credit :
      (id : ℕ) (result : Result (Unit {0})) (x y : System S W) (forwarding : Option ℕ)
      → end_forwarding forwarding id result x ≡ some y
      → credit y ≡ credit x
  end_forwarding-credit id result x y none h = ground arith
  end_forwarding-credit id result x y (some j) h = ground arith

  woken_confirms-credit :
      (q : ℕ) (channel : Channel) (x y : System S W) (seen : Option (DeviceState × W))
      → woken_confirms seen q channel x ≡ some y
      → credit y ≡ credit x
  woken_confirms-credit q channel x y none h = ground arith
  woken_confirms-credit q channel x y (some (d, w)) h = ground arith

  after_round-credit :
      (r : Indications.Round) (w : W) (x : System S W) → credit (after_round r w x) ≡ credit x
  after_round-credit (Indications.go_on o) w x = refl
  after_round-credit Indications.break w x = refl
  after_round-credit Indications.crash w x = refl

  woken_indications-credit :
      (q : ℕ) (channel : Channel) (accepted : Bool) (x y : System S W) (status : Indications.Status)
      (seen : Option (DeviceState × W))
      → woken_indications status seen q channel accepted x ≡ some y
      → credit y ≡ credit x
  woken_indications-credit q channel accepted x y Indications.running (some (d, w)) h =
      ap credit (sym (some-injective _ _ h)) ∙ after_round-credit _ w x
  woken_indications-credit q channel accepted x y Indications.running none h = ground arith
  woken_indications-credit q channel accepted x y Indications.finished seen h = ground arith
  woken_indications-credit q channel accepted x y Indications.crashed seen h = ground arith

  takes-step :
      (e : Event S) (x y : System S W)
      → step build watch e x ≡ some y
      → take_of e + credit y ≤ report_of build free e + credit x
  unfolding step
  takes-step (on_serial e) x y h = ground (
    arith,
    owed-broadcast_of build free e x.serial,
    waiting-told watch free (broadcast_of build e x.serial) x.requests_watch,
  )
  takes-step requests_woken x y h =
      omega (arith, woken_requests-credit x y x.forwarding (watch.recv x.requests_watch) refl h)
  takes-step (taken id sender) x y h =
      omega (arith, take_request-credit id sender x y x.forwarding x.request_free_slots refl h)
  takes-step (forwarded id result) x y h =
      omega (arith, end_forwarding-credit id result x y x.forwarding h)
  takes-step (confirms_woken q channel) x y h =
      omega (arith, woken_confirms-credit q channel x y (watch.recv x.confirms_watch) h)
  takes-step (indications_woken q channel accepted) x y h = omega (
    arith,
    woken_indications-credit q channel accepted x y x.indications (watch.recv x.indications_watch)
        h,
  )

  takes-Runs :
      {x y : System S W} {es : List (Event S)}
      → Runs build watch x es y
      → takes es + credit y ≤ reports build free es + credit x
  takes-Runs (done x) = omega arith
  takes-Runs (more {x} {y} {e} s r) = omega (arith, takes-step e x y s, takes-Runs r)

  -- However the steps of the five tasks are interleaved from their start, at most as many data
  -- requests are taken for the adapter as frames arrived whose decoding reports a device state with
  -- free slots.
  pub takes-le-reports :
      {y : System S W} {es : List (Event S)}
      → Runs build watch (start watch) es y
      → takes es ≤ reports build free es
  unfolding start
  takes-le-reports r = omega (arith, takes-Runs r, ap (owed free) watch.unseen-start)
