-- ===== src/Deconz/Rx/Task/Messages.antt =====
-- What the receiving task makes of a line of responses, told by the responses themselves.
use tophamm.Base.{
  Bool, refl, ◌∙◌, ℕ, ℕ_discrete, ◌≡◌, true, false, List, [], ◌∷◌, ◌++◌, Option, none, some, Bytes,
  All, length, length-append, ◌<◌, arith,
}
use tophamm.Base.Little.{to_le_bytes, length-to_le_bytes}
use tophamm.Outcome.{Build, ok, err}
use tophamm.Deconz.Types.{DeviceState}
use tophamm.Deconz.Errors.{Result, from_slip}
use tophamm.Deconz.Types.{mismatched_crc}
use tophamm.Deconz.Wire.External.{Byteorder}
use tophamm.Deconz.Protocol.Response.{Response, solicited, state_of}
use tophamm.Deconz.Protocol.Response.Encoding.{response_frame, IsResponse}
use tophamm.Deconz.Slip.{crc16}
use tophamm.Deconz.Slip.Reader.{check_and_remove_crc}
use tophamm.Deconz.Slip.Reader.Rounds.{check-to_le_bytes}
use tophamm.Helpers.Awaiting.{lookup, remove}
use tophamm.Helpers.Awaiting.Map.{deregister_lem, remove_missing}
use tophamm.Deconz.Rx.{Pending, handle}
use tophamm.Deconz.Rx.Dispatch.{process_frame_handles}
use tophamm.Deconz.Rx.Task.{task, Served, conclude, react}
use tophamm.Deconz.Rx.Task.Line.{line, tasks, task-tasks, IsFrame}

-- A frame that the line carries: a response, with its sequence number, its status and its checksum,
-- or a frame whose checksum does not match.
pub data Item : Type 0 where
  message : Response → ℕ → ℕ → ℕ → Item
  noise : Bytes → Item

unfoldable pub bytes_of : Item → Bytes
bytes_of (message r sequence_id status crc) =
    response_frame r sequence_id status ++ to_le_bytes 2 crc
bytes_of (noise bytes) = bytes

unfoldable pub frames : List Item → List Bytes
frames [] = []
frames (item ∷ items) = bytes_of item ∷ frames items

abbrev pub IsItem : Build → Item → Type 0
IsItem build (message r sequence_id status crc) =
    IsResponse r × (crc16 build (response_frame r sequence_id status) ≡ ok crc)
IsItem build (noise bytes) =
    (0 < length bytes) × (check_and_remove_crc build bytes ≡ err (from_slip mismatched_crc))

abbrev listed {ℓ} : {A : Type ℓ} → Option A → List A
listed none = []
listed (some a) = a ∷ []

-- The device states of the responses, in order.
unfoldable pub states : List Item → List DeviceState
states [] = []
states (message r sequence_id status crc ∷ items) = listed (state_of r) ++ states items
states (noise bytes ∷ items) = states items

module _ {S : Type 0} where
  -- Each response that answers a request goes to whoever waits for its sequence number then, and
  -- to nobody else; a response that nobody waits for, and a notification, change nothing.
  unfoldable pub replies : List Item → Pending S → List (S × Result Response)
  replies [] awaiting = []
  replies (message r sequence_id status crc ∷ items) awaiting =
      let dropped = replies items awaiting in
      elim (solicited r) [
        | false ↦ dropped
        | true ↦ elim (lookup ℕ_discrete sequence_id awaiting) [
          | none ↦ dropped
          | some sender ↦ (sender, ok r) ∷ replies items (remove ℕ_discrete sequence_id awaiting)
        ]
      ]
  replies (noise bytes ∷ items) awaiting = replies items awaiting

  unfoldable pub waiting_after : List Item → Pending S → Pending S
  waiting_after [] awaiting = awaiting
  waiting_after (message r sequence_id status crc ∷ items) awaiting = elim (solicited r) [
    | false ↦ waiting_after items awaiting
    | true ↦ waiting_after items (remove ℕ_discrete sequence_id awaiting)
  ]
  waiting_after (noise bytes ∷ items) awaiting = waiting_after items awaiting

-- What the task has done with the items, and whether it still runs.
abbrev pub outcome : {S : Type 0} → Bool → List Item → Pending S → Served S
outcome running items awaiting = record {
  running = running;
  awaiting = waiting_after items awaiting;
  broadcasts = states items;
  sent = replies items awaiting;
}

bytes_of-IsFrame : (build : Build) (item : Item) → IsItem build item → IsFrame (bytes_of item)
unfolding bytes_of
bytes_of-IsFrame build (message r q t c) h =
    omega (arith, length-append (response_frame r q t) (to_le_bytes 2 c), length-to_le_bytes 2 c)
bytes_of-IsFrame build (noise bytes) (h, e) = h

pub frames-IsFrame :
    (build : Build) (items : List Item) → All (IsItem build) items → All IsFrame (frames items)
unfolding frames
frames-IsFrame build [] h = tt
frames-IsFrame build (item ∷ items) (h, hs) =
    (bytes_of-IsFrame build item h, frames-IsFrame build items hs)

pub noise_checked :
    (build : Build) (bytes : Bytes)
    → check_and_remove_crc build bytes ≡ err (from_slip mismatched_crc)
    → check_and_remove_crc build (bytes_of (noise bytes)) ≡ err (from_slip mismatched_crc)
unfolding bytes_of
noise_checked build bytes e = e

module _ ⦃bo : Byteorder⦄ {S : Type 0} (build : Build) where
  pub react-message :
      (r : Response) (q t c : ℕ) (awaiting : Pending S)
      → IsItem build (message r q t c)
      → react build (check_and_remove_crc build (bytes_of (message r q t c))) awaiting
        ≡ handle q (ok r) awaiting
  unfolding bytes_of
  react-message r q t c awaiting (h, e) =
      rw (check-to_le_bytes build (response_frame r q t) c e)
        (process_frame_handles build r q t awaiting h)

  pub conclude-handle :
      (running : Bool) (r : Response) (q t c : ℕ) (items : List Item) (awaiting : Pending S)
      → conclude
          (handle q (ok r) awaiting).result
          (handle q (ok r) awaiting)
          (outcome running items (handle q (ok r) awaiting).awaiting)
        ≡ outcome running (message r q t c ∷ items) awaiting
  unfolding handle states replies waiting_after
  conclude-handle running r q t c items awaiting =
      ground (arith, deregister_lem ℕ_discrete q awaiting, remove_missing ℕ_discrete q awaiting)

  tasks-expected :
      (items : List Item) (awaiting : Pending S)
      → All (IsItem build) items
      → tasks build (frames items) awaiting ≡ outcome true items awaiting
  unfolding tasks frames
  tasks-expected [] awaiting h = unfold states replies waiting_after in refl
  tasks-expected (message r q t c ∷ items) awaiting (h, hs) =
      rw
        (
          react-message r q t c awaiting h,
          tasks-expected items (handle q (ok r) awaiting).awaiting hs,
        )
        (conclude-handle true r q t c items awaiting)
  tasks-expected (noise bytes ∷ items) awaiting ((h, e), hs) =
      rw (noise_checked build bytes e, tasks-expected items awaiting hs)
        (unfold states replies waiting_after in refl)

  -- On a line that carries frames between END bytes, escaped throughout, of which some are
  -- well-formed responses with their checksums and the others are not empty and have a checksum
  -- that does not match, the task keeps running: it broadcasts the device states of the responses
  -- in order, hands each response that answers a request to whoever waits for its sequence number
  -- at that point, frees the number, and takes no notice of the others.
  pub task-line :
      (items : List Item) (awaiting : Pending S)
      → All (IsItem build) items
      → task build (line (frames items)) awaiting ≡ record {
        running = true;
        awaiting = waiting_after items awaiting;
        broadcasts = states items;
        sent = replies items awaiting;
      }
  task-line items awaiting h =
      task-tasks build (frames items) awaiting (frames-IsFrame build items h)
      ∙ tasks-expected items awaiting h
