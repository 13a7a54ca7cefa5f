-- ===== src/Deconz/Library/Tasks.antt =====
-- A run of the library, seen from its tasks: it is a run of Deconz/System, in which the items that
-- the tasks take from their channels begin.
use mathlib.Core.Option.{some-injective}
use tophamm.Base.{
  ℕ, ◌+◌, ◌≡◌, refl, ap, sym, subst, ◌∙◌, List, [], ◌∷◌, ◌++◌, Option, none, some, arith,
}
use tophamm.Deconz.Types.{ApsDataRequest}
use tophamm.Deconz.Wire.External.{Byteorder}
use tophamm.Deconz.Protocol.Request.{Request}
use tophamm.Deconz.Exchange.{began, ended, received}
use tophamm.Deconz.Tx.{send_request}
use tophamm.Deconz.System
use tophamm.Deconz.System.{System}
use tophamm.Calls
use tophamm.Calls.{Mpsc, Calls, Item, call, took, receive, enter, sent_in, pick}
use tophamm.Calls.Totals.{total, total-append, weight, enter-taken}
use tophamm.Deconz.Library.Weights.{
  command_weight, request_weight, command_weights, request_weights, command_weights-append,
  request_weights-append,
}
use tophamm.Deconz.Library.{
  External, Library, Event, on_commands, command_sent, on_requests, frame_received, requests_woken,
  request_forwarded, confirms_woken, indications_woken, Sending, idle, busy, dead, with_system,
  with_commands, with_requests, begin_command, end_command, begin_request, step, Runs, done, more,
}

module _ ⦃bo : Byteorder⦄ {S W C D Z : Type 0} (external : External S W C D Z) where
  open external use {build, watch}

  -- A run of the tasks from one state to another, in which what begins has the weight of what was
  -- taken on the way, whatever the weight.
  pub record Follows (x : Library S W C D Z) (y : Library S W C D Z) : Type 0 where
    pub events : List (System.Event S)
    pub run : System.Runs build watch x.system events y.system
    pub commands :
        (g : ℕ → S → ℕ)
        → command_weights g events + total (weight g) x.commands.taken
          ≡ total (weight g) y.commands.taken
    pub requests :
        (g : ℕ → S → ℕ)
        → request_weights g events + total (weight g) x.requests.taken
          ≡ total (weight g) y.requests.taken

  -- No step of the tasks.
  Follows-still :
      (x y : Library S W C D Z)
      → y.system ≡ x.system
      → y.commands.taken ≡ x.commands.taken
      → y.requests.taken ≡ x.requests.taken
      → Follows x y
  Follows-still x y f c d = record {
    events = [];
    run = subst (System.Runs build watch x.system []) (sym f) (System.done x.system);
    commands = λ g. omega (arith, ap (total (weight g)) c);
    requests = λ g. omega (arith, ap (total (weight g)) d);
  }

  -- One step of the tasks in which no item begins.
  Follows-one :
      (e : System.Event S) (x y : Library S W C D Z)
      → ((g : ℕ → S → ℕ) → (command_weight g e ≡ 0) × (request_weight g e ≡ 0))
      → System.step build watch e x.system ≡ some y.system
      → y.commands.taken ≡ x.commands.taken
      → y.requests.taken ≡ x.requests.taken
      → Follows x y
  Follows-one e x y z h c d = record {
    events = e ∷ [];
    run = System.more h (System.done y.system);
    commands = λ g. omega (arith, (z g).0, ap (total (weight g)) c);
    requests = λ g. omega (arith, (z g).1, ap (total (weight g)) d);
  }

  Follows-trans : (x y z : Library S W C D Z) → Follows x y → Follows y z → Follows x z
  Follows-trans x y z p q = record {
    events = p.events ++ q.events;
    run = System.Runs-append build watch p.run q.run;
    commands =
        λ g. omega (arith, p.commands g, q.commands g, command_weights-append g p.events q.events);
    requests =
        λ g. omega (arith, p.requests g, q.requests g, request_weights-append g p.events q.events);
  }

  with_system-Follows :
      (e : System.Event S) (x y : Library S W C D Z) (o : Option (System S W))
      → ((g : ℕ → S → ℕ) → (command_weight g e ≡ 0) × (request_weight g e ≡ 0))
      → System.step build watch e x.system ≡ o
      → with_system o x ≡ some y
      → Follows x y
  with_system-Follows e x y none z f h = ground arith
  with_system-Follows e x y (some s) z f h =
      Follows-one e x y z (f ∙ ground arith) (ground arith) (ground arith)

  begin_command-Follows :
      (sending : Sending) (o : Option (Item Request S × C)) (x y : Library S W C D Z)
      → begin_command external sending o x ≡ some y
      → Follows x y
  begin_command-Follows idle (some ((q, r, s), c)) x y h =
      subst (Follows x) (some-injective _ _ h) (record {
        events = System.on_serial (began q s) ∷ [];
        run =
            System.more (System.step-serial_step build watch (began q s) x.system) (System.done _);
        commands = λ g. omega (arith, total-append (weight g) x.commands.taken ((q, r, s) ∷ []));
        requests = λ g. omega arith;
      })
  begin_command-Follows idle none x y h = ground arith
  begin_command-Follows (busy q r) o x y h = ground arith
  begin_command-Follows dead o x y h = ground arith

  begin_request-Follows :
      (o : Option (Item ApsDataRequest S × D)) (x y : Library S W C D Z)
      → begin_request external o x ≡ some y
      → Follows x y
  begin_request-Follows none x y h = ground arith
  begin_request-Follows (some ((id, r, s), d)) x y h =
      begun (System.step build watch (System.taken id s) x.system) refl h
    where
      begun :
          (o : Option (System S W))
          → System.step build watch (System.taken id s) x.system ≡ o
          → with_system o (record x { requests = took (id, r, s) d x.requests }) ≡ some y
          → Follows x y
      begun none e k = ground arith
      begun (some t) e k = subst (Follows x) (some-injective _ _ k) (record {
        events = System.taken id s ∷ [];
        run = System.more e (System.done t);
        commands = λ g. omega arith;
        requests = λ g. omega (arith, total-append (weight g) x.requests.taken ((id, r, s) ∷ []));
      })

  end_command-Follows :
      (sending : Sending) (x y : Library S W C D Z)
      → end_command external sending x ≡ some y
      → Follows x y
  end_command-Follows idle x y h = ground arith
  end_command-Follows (busy q r) x y h =
      let e = ended q (send_request external.sink build q r x.line).0 in
      subst (Follows x) (some-injective _ _ h) (
        Follows-one (System.on_serial e) x _ (λ g. (refl, refl))
          (System.step-serial_step build watch e x.system) refl refl)
  end_command-Follows dead x y h = ground arith

  with_commands-Follows :
      (o : Option (Calls Request S C)) (x y : Library S W C D Z)
      → ((c : Calls Request S C) → o ≡ some c → c.taken ≡ x.commands.taken)
      → with_commands o x ≡ some y
      → Follows x y
  with_commands-Follows none x y k h = ground arith
  with_commands-Follows (some c) x y k h =
      Follows-still x y (ground arith) (ground (arith, k c refl)) (ground arith)

  with_requests-Follows :
      (o : Option (Calls ApsDataRequest S D)) (x y : Library S W C D Z)
      → ((d : Calls ApsDataRequest S D) → o ≡ some d → d.taken ≡ x.requests.taken)
      → with_requests o x ≡ some y
      → Follows x y
  with_requests-Follows none x y k h = ground arith
  with_requests-Follows (some d) x y k h =
      Follows-still x y (ground arith) (ground arith) (ground (arith, k d refl))

  step-Follows : (e : Event S) (x y : Library S W C D Z) → step external e x ≡ some y → Follows x y
  unfolding step
  step-Follows (on_commands (Calls.called r s)) x y h =
      Follows-still x y (ground arith) (ground arith) (ground arith)
  step-Follows (on_commands (Calls.entered n)) x y h =
      with_commands-Follows _ x y
        (λ c. enter-taken external.commands (pick n x.commands.waiting) x.commands c) h
  step-Follows (on_commands Calls.received) x y h = begin_command-Follows x.sending _ x y h
  step-Follows command_sent x y h = end_command-Follows x.sending x y h
  step-Follows (on_requests (Calls.called r s)) x y h =
      Follows-still x y (ground arith) (ground arith) (ground arith)
  step-Follows (on_requests (Calls.entered n)) x y h =
      with_requests-Follows _ x y
        (λ d. enter-taken external.requests (pick n x.requests.waiting) x.requests d) h
  step-Follows (on_requests Calls.received) x y h = begin_request-Follows _ x y h
  step-Follows (frame_received frame) x y h = subst (Follows x) (some-injective _ _ h) (
      Follows-one (System.on_serial (received frame)) x _ (λ g. (refl, refl))
        (System.step-serial_step build watch (received frame) x.system) refl refl)
  step-Follows requests_woken x y h =
      with_system-Follows System.requests_woken x y _ (λ g. (refl, refl)) refl h
  step-Follows (request_forwarded id result) x y h =
      with_system-Follows (System.forwarded id result) x y _ (λ g. (refl, refl)) refl h
  step-Follows (confirms_woken q channel) x y h =
      with_system-Follows (System.confirms_woken q channel) x y _ (λ g. (refl, refl)) refl h
  step-Follows (indications_woken q channel accepted) x y h =
      with_system-Follows (System.indications_woken q channel accepted) x y _ (λ g. (refl, refl))
        refl h

  pub Runs-Follows :
      {x y : Library S W C D Z} {es : List (Event S)} → Runs external x es y → Follows x y
  Runs-Follows (done x) = Follows-still x x refl refl refl
  Runs-Follows (more {x} {y} {z} {e} h r) =
      Follows-trans x y z (step-Follows e x y h) (Runs-Follows r)
