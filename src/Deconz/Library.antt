-- ===== src/Deconz/Library.antt =====
-- The library as its callers see it: the calls of `Deconz` (deconz/src/deconz.rs) on their way
-- through the two channels, the transmitting task with what it puts on the serial line, and the
-- other tasks as in Deconz/System. Any call can be made at any time: the tasks of deconz/src/aps.rs
-- make some too. When a panic ends a task, the calls that are left stay where they are.
pub mod Queues
pub mod Weights
pub mod Tasks
pub mod Once
pub mod Line
pub mod Served
pub mod Steps
pub mod Forwarded
use tophamm.Base.{◌≡◌, Bool, ℕ, List, [], ◌∷◌, Option, none, some, Bytes}
use tophamm.Outcome.{Build, ok, err, panic}
use tophamm.Deconz.Types.{ApsDataRequest}
use tophamm.Deconz.Errors.{Result}
use tophamm.Deconz.Wire.External.{Byteorder}
use tophamm.Deconz.Protocol.Request.{Request}
use tophamm.Deconz.Client.{Channel}
use tophamm.Deconz.Slip.Writer.{Sink}
use tophamm.Deconz.Tx.{send_request}
use tophamm.Deconz.Exchange.{began, ended, received}
use tophamm.Deconz.System.Broadcasts.{Watch}
use tophamm.Deconz.System
use tophamm.Deconz.System.{System, serial_step}
use tophamm.Calls
use tophamm.Calls.{Calls, Mpsc, Item, call, took, enter, pick}

-- The transmitting task waits for a command, sends one, or has panicked.
pub data Sending : Type 0 where
  idle : Sending
  busy : ℕ → Request → Sending
  dead : Sending

-- What the library is given: the build profile, and the code of tokio that it uses.
pub record External (S : Type 0) (W : Type 0) (C : Type 0) (D : Type 0) (Z : Type 0) : Type 0 where
  pub build : Build
  pub watch : Watch W
  pub commands : Mpsc (Item Request S) C
  pub requests : Mpsc (Item ApsDataRequest S) D
  pub sink : Sink Z

pub record Library (S : Type 0) (W : Type 0) (C : Type 0) (D : Type 0) (Z : Type 0) : Type 0 where
  pub system : System S W
  pub commands : Calls Request S C
  pub requests : Calls ApsDataRequest S D
  pub sending : Sending
  pub line : Z

pub data Event (S : Type 0) : Type 0 where
  on_commands : Calls.Event Request S → Event S
  -- The sending of the command that was taken last ends.
  command_sent : Event S
  on_requests : Calls.Event ApsDataRequest S → Event S
  frame_received : Bytes → Event S
  requests_woken : Event S
  request_forwarded : ℕ → Result (Unit {0}) → Event S
  confirms_woken : ℕ → Channel → Event S
  indications_woken : ℕ → Channel → Bool → Event S

-- A panic ends the transmitting task.
abbrev pub sending_after : Result (Unit {0}) → Sending
sending_after (ok u) = idle
sending_after (err e) = idle
sending_after panic = dead

module _ {S W C D Z : Type 0} where
  abbrev pub with_system : Option (System S W) → Library S W C D Z → Option (Library S W C D Z)
  with_system none y = none
  with_system (some system) y = some (record y { system = system })

  abbrev pub with_commands :
      Option (Calls Request S C) → Library S W C D Z → Option (Library S W C D Z)
  with_commands none y = none
  with_commands (some commands) y = some (record y { commands = commands })

  abbrev pub with_requests :
      Option (Calls ApsDataRequest S D) → Library S W C D Z → Option (Library S W C D Z)
  with_requests none y = none
  with_requests (some requests) y = some (record y { requests = requests })

module _ ⦃bo : Byteorder⦄ {S W C D Z : Type 0} (external : External S W C D Z) where
  open external use {build, watch, sink}

  -- `register_while` begins: the sender is registered before the request is sent.
  abbrev pub begin_command :
      Sending → Option (Item Request S × C) → Library S W C D Z → Option (Library S W C D Z)
  begin_command idle (some ((q, request, sender), channel)) y = some (record y {
    commands = took (q, request, sender) channel y.commands;
    sending = busy q request;
    system = serial_step build watch (began q sender) y.system;
  })
  begin_command idle none y = none
  begin_command (busy q request) o y = none
  begin_command dead o y = none

  abbrev pub end_command : Sending → Library S W C D Z → Option (Library S W C D Z)
  end_command (busy q request) y =
      let (result, line) = send_request sink build q request y.line in
      some (record y {
        sending = sending_after result;
        line = line;
        system = serial_step build watch (ended q result) y.system;
      })
  end_command idle y = none
  end_command dead y = none

  abbrev pub begin_request :
      Option (Item ApsDataRequest S × D) → Library S W C D Z → Option (Library S W C D Z)
  begin_request (some ((id, request, sender), channel)) y =
      with_system (System.step build watch (System.taken id sender) y.system)
        (record y { requests = took (id, request, sender) channel y.requests })
  begin_request none y = none

  -- Nothing, when the task is not at the point where the event can happen.
  unfoldable pub step : Event S → Library S W C D Z → Option (Library S W C D Z)
  step (on_commands (Calls.called request sender)) y =
      some (record y { commands = call request sender y.commands })
  step (on_commands (Calls.entered n)) y =
      with_commands (enter external.commands (pick n y.commands.waiting) y.commands) y
  step (on_commands Calls.received) y =
      begin_command y.sending (external.commands.recv y.commands.channel) y
  step command_sent y = end_command y.sending y
  step (on_requests (Calls.called request sender)) y =
      some (record y { requests = call request sender y.requests })
  step (on_requests (Calls.entered n)) y =
      with_requests (enter external.requests (pick n y.requests.waiting) y.requests) y
  step (on_requests Calls.received) y = begin_request (external.requests.recv y.requests.channel) y
  step (frame_received frame) y =
      some (record y { system = serial_step build watch (received frame) y.system })
  step requests_woken y = with_system (System.step build watch System.requests_woken y.system) y
  step (request_forwarded id result) y =
      with_system (System.step build watch (System.forwarded id result) y.system) y
  step (confirms_woken q channel) y =
      with_system (System.step build watch (System.confirms_woken q channel) y.system) y
  step (indications_woken q channel accepted) y =
      with_system (System.step build watch (System.indications_woken q channel accepted) y.system) y

  -- `line` is the sink before the first byte.
  unfoldable pub start : Z → Library S W C D Z
  start line = record {
    system = System.start watch;
    commands = Calls.start external.commands;
    requests = Calls.start external.requests;
    sending = idle;
    line = line;
  }

  -- The events happen in this order, from one state to another.
  pub data Runs : Library S W C D Z → List (Event S) → Library S W C D Z → Type 0 where
    done : (y : Library S W C D Z) → Runs y [] y
    more :
        {x y z : Library S W C D Z} {e : Event S} {es : List (Event S)}
        → step e x ≡ some y
        → Runs y es z
        → Runs x (e ∷ es) z
