-- ===== src/Deconz/Library/Queues.antt =====
-- A run of the library, seen from one of its two channels.
use mathlib.Mathlib.Data.Multiset.Defs.{of_list}
use tophamm.Base.{◌++◌, ◌++◌, ◌≡◌, ap, sym, subst, List, [], ◌∷◌, Option, none, some, arith}
use tophamm.Deconz.Types.{ApsDataRequest}
use tophamm.Deconz.Wire.External.{Byteorder}
use tophamm.Deconz.Protocol.Request.{Request}
use tophamm.Deconz.System.{System}
use tophamm.Helpers.IncrementingId.{new_id}
use tophamm.Calls
use tophamm.Calls.{Mpsc, Calls, Item, call, receive, enter, pick}
use tophamm.Calls.Conserved
use tophamm.Calls.Conserved.{made, numbered, all, of_list-made}
use tophamm.Deconz.Library.{
  External, Library, Event, on_commands, command_sent, on_requests, frame_received, requests_woken,
  request_forwarded, confirms_woken, indications_woken, Sending, idle, busy, dead, with_system,
  with_commands, with_requests, begin_command, end_command, begin_request, step, start, Runs, done,
  more,
}

module _ {S : Type 0} where
  abbrev command_of : Event S → List (Calls.Event Request S)
  command_of (on_commands e) = e ∷ []
  command_of _ = []

  abbrev request_of : Event S → List (Calls.Event ApsDataRequest S)
  request_of (on_requests e) = e ∷ []
  request_of _ = []

  -- What happens on the channel of the commands, and on that of the data requests.
  abbrev pub on_command_channel : List (Event S) → List (Calls.Event Request S)
  on_command_channel [] = []
  on_command_channel (e ∷ es) = command_of e ++ on_command_channel es

  abbrev pub on_request_channel : List (Event S) → List (Calls.Event ApsDataRequest S)
  on_request_channel [] = []
  on_request_channel (e ∷ es) = request_of e ++ on_request_channel es

module _ ⦃bo : Byteorder⦄ {S W C D Z : Type 0} (external : External S W C D Z) where
  with_system-same :
      (o : Option (System S W)) (x y : Library S W C D Z)
      → with_system o x ≡ some y
      → (y.commands ≡ x.commands) × (y.requests ≡ x.requests)
  with_system-same none x y h = ground arith
  with_system-same (some s) x y h = (ground arith, ground arith)

  begin_command-receive :
      (sending : Sending) (o : Option (Item Request S × C)) (x y : Library S W C D Z)
      → begin_command external sending o x ≡ some y
      → (receive external.commands o x.commands ≡ some y.commands) × (y.requests ≡ x.requests)
  begin_command-receive idle (some ((q, r, s), c)) x y h = (ground arith, ground arith)
  begin_command-receive idle none x y h = ground arith
  begin_command-receive (busy q r) o x y h = ground arith
  begin_command-receive dead o x y h = ground arith

  begin_request-receive :
      (o : Option (Item ApsDataRequest S × D)) (x y : Library S W C D Z)
      → begin_request external o x ≡ some y
      → (y.commands ≡ x.commands) × (receive external.requests o x.requests ≡ some y.requests)
  begin_request-receive none x y h = ground arith
  begin_request-receive (some ((id, r, s), c)) x y h =
      let (f, g) = with_system-same _ _ y h in (f, ap some (sym g))

  end_command-same :
      (sending : Sending) (x y : Library S W C D Z)
      → end_command external sending x ≡ some y
      → (y.commands ≡ x.commands) × (y.requests ≡ x.requests)
  end_command-same idle x y h = ground arith
  end_command-same (busy q r) x y h = (ground arith, ground arith)
  end_command-same dead x y h = ground arith

  with_commands-enter :
      (o : Option (Calls Request S C)) (x y : Library S W C D Z)
      → with_commands o x ≡ some y
      → (o ≡ some y.commands) × (y.requests ≡ x.requests)
  with_commands-enter none x y h = ground arith
  with_commands-enter (some c) x y h = (ground arith, ground arith)

  with_requests-enter :
      (o : Option (Calls ApsDataRequest S D)) (x y : Library S W C D Z)
      → with_requests o x ≡ some y
      → (y.commands ≡ x.commands) × (o ≡ some y.requests)
  with_requests-enter none x y h = ground arith
  with_requests-enter (some c) x y h = (ground arith, ground arith)

module _ {R S C : Type 0} (mpsc : Mpsc (Item R S) C) where
  none_happens : (x y : Calls R S C) → y ≡ x → Conserved.Runs mpsc x [] y
  none_happens x y f = subst (Conserved.Runs mpsc x []) (sym f) (Conserved.done x)

  one_happens :
      (e : Calls.Event R S) (x y : Calls R S C)
      → Calls.step mpsc e x ≡ some y
      → Conserved.Runs mpsc x (e ∷ []) y
  one_happens e x y h = Conserved.more h (Conserved.done y)

module _ ⦃bo : Byteorder⦄ {S W C D Z : Type 0} (external : External S W C D Z) where
  open external use {commands, requests}

  -- The step as one on the channel of the commands, and as one on that of the data requests.
  abbrev Queues : Event S → Library S W C D Z → Library S W C D Z → Type 0
  Queues e x y =
      Conserved.Runs commands x.commands (command_of e) y.commands
      × Conserved.Runs requests x.requests (request_of e) y.requests

  neither :
      (x y : Library S W C D Z)
      → (y.commands ≡ x.commands) × (y.requests ≡ x.requests)
      → Queues requests_woken x y
  neither x y (f, g) = (none_happens commands _ _ f, none_happens requests _ _ g)

  on_first :
      (e : Calls.Event Request S) (x y : Library S W C D Z)
      → (Calls.step commands e x.commands ≡ some y.commands) × (y.requests ≡ x.requests)
      → Queues (on_commands e) x y
  on_first e x y (f, g) = (one_happens commands e _ _ f, none_happens requests _ _ g)

  on_second :
      (e : Calls.Event ApsDataRequest S) (x y : Library S W C D Z)
      → (y.commands ≡ x.commands) × (Calls.step requests e x.requests ≡ some y.requests)
      → Queues (on_requests e) x y
  on_second e x y (f, g) = (none_happens commands _ _ f, one_happens requests e _ _ g)

  step-Queues : (e : Event S) (x y : Library S W C D Z) → step external e x ≡ some y → Queues e x y
  unfolding step Calls.step
  step-Queues (on_commands (Calls.called r s)) x y h =
      on_first (Calls.called r s) x y (ground arith, ground arith)
  step-Queues (on_commands (Calls.entered n)) x y h =
      on_first (Calls.entered n) x y (with_commands-enter external _ x y h)
  step-Queues (on_commands Calls.received) x y h =
      on_first Calls.received x y (begin_command-receive external x.sending _ x y h)
  step-Queues command_sent x y h = neither x y (end_command-same external x.sending x y h)
  step-Queues (on_requests (Calls.called r s)) x y h =
      on_second (Calls.called r s) x y (ground arith, ground arith)
  step-Queues (on_requests (Calls.entered n)) x y h =
      on_second (Calls.entered n) x y (with_requests-enter external _ x y h)
  step-Queues (on_requests Calls.received) x y h =
      on_second Calls.received x y (begin_request-receive external _ x y h)
  step-Queues (frame_received frame) x y h = neither x y (ground arith, ground arith)
  step-Queues requests_woken x y h = neither x y (with_system-same external _ x y h)
  step-Queues (request_forwarded id result) x y h = neither x y (with_system-same external _ x y h)
  step-Queues (confirms_woken q channel) x y h = neither x y (with_system-same external _ x y h)
  step-Queues (indications_woken q channel accepted) x y h =
      neither x y (with_system-same external _ x y h)

  pub Runs-Queues :
      {x y : Library S W C D Z} {es : List (Event S)}
      → Runs external x es y
      → Conserved.Runs commands x.commands (on_command_channel es) y.commands
        × Conserved.Runs requests x.requests (on_request_channel es) y.requests
  Runs-Queues (done x) = (Conserved.done x.commands, Conserved.done x.requests)
  Runs-Queues (more {x} {y} {z} {e} {es} h r) =
      let (p, q) = step-Queues e x y h in
      let (p', q') = Runs-Queues r in
      (Conserved.Runs-append commands p p', Conserved.Runs-append requests q q')

  -- However the steps of the callers and of the five tasks are interleaved from their start, the
  -- commands that are called for, under consecutive sequence numbers modulo 256, are as a multiset
  -- those that the transmitting task has taken, those in its channel and those that wait for room
  -- in it; and so for the data requests, under consecutive request ids modulo 256, and the
  -- forwarding task.
  pub calls_conserved :
      {y : Library S W C D Z} {es : List (Event S)} (line : Z)
      → Runs external (start external line) es y
      → (of_list (numbered new_id (made (on_command_channel es)))
          ≡ of_list (all commands y.commands))
        × (of_list (numbered new_id (made (on_request_channel es)))
            ≡ of_list (all requests y.requests))
  unfolding start
  calls_conserved line r =
      let (p, q) = Runs-Queues r in (of_list-made commands p, of_list-made requests q)
