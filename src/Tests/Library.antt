-- ===== src/Tests/Library.antt =====
-- A run of the library, its calls included. Senders are numbers.
use mathlib.Mathlib.Data.Multiset.Defs.{of_list}
use tophamm.Base.{
  arith, ℕ, ℕ_discrete, ◌≡◌, ◌≤◌, refl, List, [], ◌∷◌, ◌++◌, Option, some, map, Bytes,
}
use tophamm.Base.Little.{to_le_bytes}
use tophamm.Outcome.{debug, ok}
use tophamm.Deconz.Types.{DeviceState, ApsDataRequest}
use tophamm.Deconz.Wire.External.{Byteorder, byteorder}
use tophamm.Deconz.Protocol.Request
use tophamm.Deconz.Protocol.Request.{Request, into_frame}
use tophamm.Deconz.Protocol.Request.Frame.{request_frame}
use tophamm.Helpers.Awaiting.Delivery.{delivered}
use tophamm.Helpers.IncrementingId.{next, new_id}
use tophamm.Deconz.Protocol.Command.{command_byte}
use tophamm.Deconz.Protocol.Request.Payload.{payload}
use tophamm.Deconz.Slip.{crc16, sum_bytes}
use tophamm.Deconz.Slip.Reader.{byte}
use tophamm.Deconz.Tx.{send_request-request_frame, send_request}
use tophamm.Deconz.Exchange
use tophamm.Deconz.System
use tophamm.Deconz.System.Broadcasts.{latest}
use tophamm.Calls
use tophamm.Calls.{Item, single}
use tophamm.Calls.Conserved.{made, numbered, all}
use tophamm.Calls.Totals.{asks}
use tophamm.Deconz.Library.{
  External, Library, Event, on_commands, on_requests, command_sent, step, start, Runs, done, more,
}
use tophamm.Deconz.Library.Queues.{on_command_channel, on_request_channel, calls_conserved}
use tophamm.Deconz.Library.Once.{delivered-le-called}
use tophamm.Deconz.Library.Served.{CanTakeAll, Runs-CanTakeAll}
use tophamm.Deconz.Library.Forwarded.{CanForwardAll, Runs-CanForwardAll}
use tophamm.Deconz.Library.Line.Frames.{read_frames, read_frames-line, IsSendable}
use tophamm.Tests.Frames.{read_table}
use tophamm.Tests.Line.{buffer, buffer-IsAccepting}

instance abbrev cursor : Byteorder
cursor = byteorder

abbrev tokio :
    External ℕ (Option DeviceState) (Option (Item Request ℕ)) (Option (Item ApsDataRequest ℕ)) Bytes
tokio = record {
  build = debug;
  watch = latest;
  commands = single;
  requests = single;
  sink = buffer;
}

-- A data request is called for; then two commands are, and the second goes in first; it is sent.
abbrev events : List (Event ℕ)
events =
    on_requests (Calls.called read_table 80)
    ∷ on_requests (Calls.entered 0)
    ∷ on_commands (Calls.called Request.version 70)
    ∷ on_commands (Calls.called Request.device_state 71)
    ∷ on_commands (Calls.entered 1)
    ∷ on_commands Calls.received
    ∷ on_commands (Calls.entered 0)
    ∷ command_sent
    ∷ []

abbrev first : Item Request ℕ
first = (0, Request.version, 70)

abbrev second : Item Request ℕ
second = (1, Request.device_state, 71)

abbrev end_state :
    Library ℕ (Option DeviceState) (Option (Item Request ℕ)) (Option (Item ApsDataRequest ℕ)) Bytes
end_state = record (start tokio []) {
  system =
      System.serial_step debug latest (Exchange.ended 1 (ok tt))
        (System.serial_step debug latest (Exchange.began 1 71) (System.start latest));
  commands = record { ids = 2; waiting = []; channel = some first; taken = second ∷ [] };
  requests = record { ids = 1; waiting = []; channel = some (0, read_table, 80); taken = [] };
  line = (send_request buffer debug 1 Request.device_state []).1;
}

crc16-second : crc16 debug (request_frame Request.device_state 1) ≡ ok 65_523
unfolding crc16 sum_bytes request_frame command_byte Request.command_id payload to_le_bytes
crc16-second = refl

second-IsSendable : IsSendable debug second
second-IsSendable = record {
  request = tt;
  crc = 65_523;
  checksum = crc16-second;
  clear = ((omega arith, omega arith), (omega arith, omega arith));
}

second_sent : (send_request buffer debug 1 Request.device_state []).0 ≡ ok tt
second_sent =
    (send_request-request_frame buffer debug 1 Request.device_state 65_523 [] [] tt (omega arith)
      buffer-IsAccepting crc16-second ((omega arith, omega arith), (omega arith, omega arith))
      refl).0

events-Runs : Runs tokio (start tokio []) events end_state
unfolding step start Calls.start System.start new_id next
events-Runs = more refl (
    more refl (
      more refl
        (more refl (more refl (more refl (more refl (more (rw second_sent refl) (done _))))))))

calls_conserved_example :
    (of_list (numbered new_id (made (on_command_channel events)))
      ≡ of_list (all single end_state.commands))
    × (of_list (numbered new_id (made (on_request_channel events)))
        ≡ of_list (all single end_state.requests))
calls_conserved_example = calls_conserved tokio [] events-Runs

delivered-le-called_example :
    (delivered ℕ_discrete 71 end_state.system.serial.log
      ≤ asks ℕ_discrete 71 (made (on_command_channel events)))
    × (delivered ℕ_discrete 71 end_state.system.aps.1
        ≤ asks ℕ_discrete 71 (made (on_request_channel events)))
delivered-le-called_example = delivered-le-called tokio ℕ_discrete 71 [] events-Runs

read_frames-line_example :
    read_frames debug 1 (map byte end_state.line ++ byte 7 ∷ [])
    ≡ some (ok (request_frame Request.device_state 1) ∷ [], byte 7 ∷ [])
unfolding start
read_frames-line_example =
    read_frames-line tokio [] (byte 7 ∷ []) events-Runs refl buffer-IsAccepting refl
      (second-IsSendable, tt)

Runs-CanTakeAll_example : CanTakeAll tokio [] end_state events
Runs-CanTakeAll_example = Runs-CanTakeAll tokio [] events-Runs

Runs-CanForwardAll_example : CanForwardAll tokio end_state events
unfolding Exchange.step Exchange.start System.start
Runs-CanForwardAll_example = Runs-CanForwardAll tokio [] events-Runs refl
