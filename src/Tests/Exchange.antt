-- ===== src/Tests/Exchange.antt =====
-- The tasks of the library side by side, at concrete events. Senders are numbers.
use tophamm.Base.{
  ◌≢◌, ◌<◌, ltb, ◌++◌, Bytes, inl, false, ℕ, ℕ_discrete, ◌+◌, ◌%◌, ◌≡◌, refl, true, List, [], ◌∷◌,
  arith,
}
use tophamm.Base.Little.{to_le_bytes, from_le_bytes}
use tophamm.Outcome.{debug, ok, err}
use tophamm.Deconz.Types.{CommandId, mismatched_crc}
use tophamm.Deconz.Errors.{error, unsupported_command, from_slip, from_elapsed}
use tophamm.Deconz.Wire.External.{Byteorder, byteorder}
use tophamm.Deconz.Slip.{crc16, sum_bytes}
use tophamm.Deconz.Slip.Reader.{check_and_remove_crc}
use tophamm.Deconz.Protocol.Command.{command_byte}
use tophamm.Deconz.Protocol.Request
use tophamm.Deconz.Protocol.Response
use tophamm.Deconz.Protocol.Response.{Response, solicited}
use tophamm.Deconz.Protocol.Response.Encoding.{response_frame, response_body, confirm_bytes}
use tophamm.Deconz.Protocol.Fields.Address.{destination_bytes, address_bytes, mode_byte}
use tophamm.Deconz.Protocol.Fields.State.{state_byte}
use tophamm.Deconz.Client
use tophamm.Deconz.Client.{Timer, Channel, make_request, aps_data_request}
use tophamm.Deconz.Rx.Task.{task}
use tophamm.Deconz.Rx.Task.Line.{line}
use tophamm.Deconz.Rx.Task.Messages.{
  Item, message, noise, frames, states, replies, waiting_after, task-line,
}
use tophamm.Deconz.Rx.Task.Stopped.{task-IsFatal}
use tophamm.Deconz.Exchange
use tophamm.Deconz.Exchange.Reply.Timed
use tophamm.Deconz.Exchange.Reply.Timed.{
  Timed, make_request_answered, make_request_elapsed, make_request_failed,
}
use tophamm.Deconz.Aps.{confirm_of}
use tophamm.Deconz.Aps.Confirmations
use tophamm.Deconz.Aps.Confirmations.Confirmed
use tophamm.Deconz.Aps.Confirmations.Confirmed.{aps_data_request_confirmed}
use tophamm.Tests.Frames.{state, confirm, confirmed, confirmed-IsResponse, read_table}
use tophamm.Tests.Tasks.{waiting_senders, confirmed-solicited}

instance abbrev cursor : Byteorder
cursor = byteorder

-- A response for the sender 70, and a frame of three bytes with a wrong checksum.
abbrev items : List Item
items = message confirmed 3 0 65_387 ∷ noise (1 ∷ 0 ∷ 0 ∷ []) ∷ []

crc16-confirmed : crc16 debug (response_frame confirmed 3 0) ≡ ok 65_387
unfolding crc16 sum_bytes response_frame response_body confirm_bytes destination_bytes address_bytes
    mode_byte to_le_bytes state_byte command_byte Response.command_id
crc16-confirmed = refl

noisy : check_and_remove_crc debug (1 ∷ 0 ∷ 0 ∷ []) ≡ err (from_slip mismatched_crc)
unfolding check_and_remove_crc crc16 sum_bytes from_le_bytes
noisy = refl

task-line_example : task debug (line (frames items)) waiting_senders ≡ record {
  running = true;
  awaiting = waiting_after items waiting_senders;
  broadcasts = states items;
  sent = replies items waiting_senders;
}
task-line_example =
    task-line debug items waiting_senders
      ((confirmed-IsResponse, crc16-confirmed), ((omega arith, noisy), tt))

-- A response, then one byte between END bytes, then another frame.
abbrev lone : Bytes
lone = 7 ∷ []

task-IsFatal_example :
    task debug (line (frames items ++ lone ∷ lone ∷ [])) waiting_senders ≡ record {
      running = false;
      awaiting = waiting_after items waiting_senders;
      broadcasts = states items;
      sent = replies items waiting_senders;
    }
task-IsFatal_example =
    task-IsFatal debug items lone (lone ∷ []) waiting_senders
      ((confirmed-IsResponse, crc16-confirmed), ((omega arith, noisy), tt)) (inl refl)
      (omega arith, tt)

ltb-before : (duration time : ℕ) → time < duration → ltb time duration ≡ true
ltb-before duration time h = ground arith

ltb-after : (duration time : ℕ) → duration < time → ltb time duration ≡ false
ltb-after duration time h = ground arith

-- A clock that returns the value exactly when it comes before the duration has elapsed.
abbrev clock : Timer
clock = record {
  in_time = λ duration time. ltb time duration;
  in_time-before = ltb-before;
  in_time-after = ltb-after;
}

-- Another command begins, and the sending ends, before the answer comes.
abbrev between : Timed ℕ
between = (5, Exchange.began 4 80) ∷ (2, Exchange.ended 3 (ok tt)) ∷ []

-- The reply to a request of a sequence number.
abbrev reply_to : ℕ → Exchange.Event ℕ
reply_to q = Exchange.received (response_frame confirmed q 0)

make_request_answered_example :
    make_request
      (Timed.channel_of debug ℕ_discrete clock 10 70 between 400 reply_to Exchange.start)
      Request.Request.aps_data_confirm
      3
    ≡ (ok confirmed, (3 + 1) % 256)
make_request_answered_example =
    make_request_answered debug ℕ_discrete clock Request.Request.aps_data_confirm 3 10 0 400 70
      confirmed between Exchange.start confirmed-IsResponse confirmed-solicited
      (unfold Exchange.start in refl) (unfold Exchange.start in refl)
      ((omega arith, omega arith), ((tt, tt), tt)) (omega arith)

no_command : (c : CommandId) → command_byte c ≢ 99
unfolding command_byte
no_command CommandId.version = omega arith
no_command _ = omega arith

make_request_failed_example :
    (make_request
        (Timed.channel_of debug ℕ_discrete clock 10 70 between 400
          (λ q. Exchange.ended q (err from_elapsed))
          Exchange.start)
        Request.Request.aps_data_confirm
        3
      ≡ (err from_elapsed, (3 + 1) % 256))
    × (make_request
          (Timed.channel_of debug ℕ_discrete clock 10 70 between 400
            (λ q. Exchange.received (99 ∷ q ∷ []))
            Exchange.start)
          Request.Request.aps_data_confirm
          3
        ≡ (err (error (unsupported_command 99)), (3 + 1) % 256))
make_request_failed_example =
    make_request_failed debug ℕ_discrete clock Request.Request.aps_data_confirm 3 10 400 99 []
      from_elapsed 70 between Exchange.start (unfold Exchange.start in refl)
      (unfold Exchange.start in refl) ((omega arith, omega arith), ((tt, tt), tt)) no_command
      (omega arith)

-- The command waits in the queue for longer than the timeout.
make_request_elapsed_example :
    make_request
      (Timed.channel_of debug ℕ_discrete clock 600 70 between 400 reply_to Exchange.start)
      Request.Request.aps_data_confirm
      3
    ≡ (err from_elapsed, (3 + 1) % 256)
make_request_elapsed_example =
    make_request_elapsed debug ℕ_discrete clock Request.Request.aps_data_confirm 3 600 0 400 70
      confirmed between Exchange.start confirmed-IsResponse confirmed-solicited
      (unfold Exchange.start in refl) (unfold Exchange.start in refl)
      ((omega arith, omega arith), ((tt, tt), tt)) (omega arith)

-- The adapter hands out the confirmation for the request 5.
abbrev adapter : Channel
adapter command = Client.replied (ok confirmed)

fetched-confirmed : Confirmations.fetched adapter 9 ≡ ok (5, confirm)
unfolding make_request confirm_of
fetched-confirmed = refl

abbrev others : List (Confirmations.Event ℕ)
others = Confirmations.began 6 80 ∷ Confirmations.ended 5 (ok tt) ∷ []

aps_data_request_confirmed_example :
    aps_data_request
      (Confirmed.channel_of ℕ_discrete 70 others
        (record state { data_confirm = true })
        9
        adapter
        Confirmations.start)
      read_table
      5
    ≡ (ok confirm, (5 + 1) % 256)
aps_data_request_confirmed_example =
    aps_data_request_confirmed ℕ_discrete read_table 5 70 others
      (record state { data_confirm = true }) 9 adapter confirm Confirmations.start
      ((omega arith, tt), (tt, tt)) refl fetched-confirmed
