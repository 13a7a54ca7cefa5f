-- ===== src/Tests/Tasks.antt =====
-- The tasks and the maps of pending senders at concrete states. Senders are numbers.
use tophamm.Helpers.Awaiting.Delivery.{Call, registers, sends, run}
use tophamm.Helpers.Awaiting.Abstract.{seen, all_promised, run-all_promised}
use tophamm.Base.{List, ℕ, ℕ_discrete, ◌≡◌, refl, true, [], ◌∷◌, none}
use tophamm.Outcome.{debug}
use tophamm.Deconz.Wire.External.{Byteorder, byteorder}
use tophamm.Deconz.Protocol.Command
use tophamm.Deconz.Protocol.Command.{command_byte}
use tophamm.Deconz.Protocol.Response
use tophamm.Deconz.Protocol.Response.{Response, from_frame, solicited}
use tophamm.Deconz.Protocol.Response.Encoding.{response_frame}
use tophamm.Deconz.Rx.{Pending, process_frame}
use tophamm.Deconz.Rx.Dispatch.{process_frame_confirm}
use tophamm.Tests.Frames.{state, confirm, confirmed, confirmed-IsResponse}

instance abbrev cursor : Byteorder
cursor = byteorder

-- Senders 70 and 80 wait for the sequence numbers 3 and 4.
abbrev pub waiting_senders : Pending ℕ
waiting_senders = (3, 70) ∷ (4, 80) ∷ []

pub confirmed-solicited : solicited confirmed ≡ true
unfolding solicited Command.solicited Response.command_id
confirmed-solicited = refl

process_frame_confirm_example :
    (process_frame debug (response_frame confirmed 3 0) waiting_senders).broadcast ≡ none
process_frame_confirm_example =
    process_frame_confirm debug state 5 3 0 confirm waiting_senders confirmed-IsResponse

-- The second sender of an id takes the place of the first.
abbrev history : List (Call ℕ ℕ ℕ)
history = registers 4 90 ∷ registers 5 91 ∷ sends 4 7 ∷ sends 4 8 ∷ []

run-all_promised_example :
    seen ℕ_discrete (run ℕ_discrete history (waiting_senders, []))
    ≡ all_promised ℕ_discrete history (seen ℕ_discrete (waiting_senders, []))
run-all_promised_example = run-all_promised ℕ_discrete history waiting_senders []
