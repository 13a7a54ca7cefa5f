-- ===== src/Deconz/Rx/Task/Stopped.antt =====
-- A frame that ends the receiving task.
use tophamm.Base.{
  ◌<◌, ◌≡◌, ◌≢◌, refl, ◌∙◌, ◌⊎◌, inl, inr, false, none, List, [], ◌∷◌, ◌++◌, Bytes, All, All-append,
  length, arith,
}
use tophamm.Outcome.{Build, ok, panic}
use tophamm.Deconz.Wire.External.{Byteorder}
use tophamm.Deconz.Slip.Reader.{check_and_remove_crc}
use tophamm.Deconz.Rx.{from_frame, Pending, Processed, handle, process_frame, process_at, second}
use tophamm.Deconz.Rx.Task.{task, react}
use tophamm.Deconz.Rx.Task.Line.{line, tasks, task-tasks, IsFrame}
use tophamm.Deconz.Rx.Task.Messages.{
  Item, message, noise, IsItem, frames, frames-IsFrame, states, replies, waiting_after, outcome,
  react-message, conclude-handle, noise_checked,
}

-- A frame that the task cannot stand: one byte, or a right checksum behind fewer than two bytes or
-- behind bytes whose decoding panics.
abbrev pub IsFatal : ⦃bo : Byteorder⦄ → Build → Bytes → Type 0
IsFatal build frame =
    (length frame ≡ 1)
    ⊎ ((inner : Bytes) × (check_and_remove_crc build frame ≡ ok inner)
        × ((length inner < 2) ⊎ (from_frame build inner ≡ panic)))

one_byte :
    (build : Build) (frame : Bytes) → length frame ≡ 1 → check_and_remove_crc build frame ≡ panic
unfolding check_and_remove_crc
one_byte build frame h = rw h refl

no_inner : (build : Build) (inner : Bytes) → check_and_remove_crc build [] ≢ ok inner
unfolding check_and_remove_crc
no_inner build inner e = cc e

IsFatal-IsFrame :
    ⦃bo : Byteorder⦄ (build : Build) (frame : Bytes) → IsFatal build frame → IsFrame frame
IsFatal-IsFrame build (b ∷ frame) s = omega arith
IsFatal-IsFrame build [] (inl h) = omega arith
IsFatal-IsFrame build [] (inr (inner, e, h)) = absurd (no_inner build inner e)

module _ ⦃bo : Byteorder⦄ {S : Type 0} (build : Build) where
  abbrev crash : Pending S → Processed S
  crash awaiting = record { result = panic; awaiting = awaiting; broadcast = none; sent = none }

  process_frame_short :
      (inner : Bytes) (awaiting : Pending S)
      → length inner < 2
      → process_frame build inner awaiting ≡ crash awaiting
  unfolding process_frame process_at second
  process_frame_short [] awaiting h = refl
  process_frame_short (b ∷ []) awaiting h = refl
  process_frame_short (b ∷ c ∷ rest) awaiting h = absurd (omega arith)

  process_frame_panics :
      (inner : Bytes) (awaiting : Pending S)
      → from_frame build inner ≡ panic
      → process_frame build inner awaiting ≡ crash awaiting
  unfolding process_frame process_at second handle
  process_frame_panics [] awaiting h = refl
  process_frame_panics (b ∷ []) awaiting h = refl
  process_frame_panics (b ∷ c ∷ rest) awaiting h = rw h refl

  react-IsFatal :
      (frame : Bytes) (awaiting : Pending S)
      → IsFatal build frame
      → react build (check_and_remove_crc build frame) awaiting ≡ crash awaiting
  react-IsFatal frame awaiting (inl h) = rw (one_byte build frame h) refl
  react-IsFatal frame awaiting (inr (inner, e, inl h)) = rw e (process_frame_short inner awaiting h)
  react-IsFatal frame awaiting (inr (inner, e, inr h)) =
      rw e (process_frame_panics inner awaiting h)

  tasks-IsFatal :
      (items : List Item) (short : Bytes) (more : List Bytes) (awaiting : Pending S)
      → All (IsItem build) items
      → IsFatal build short
      → tasks build (frames items ++ short ∷ more) awaiting ≡ outcome false items awaiting
  unfolding tasks frames
  tasks-IsFatal [] short more awaiting h s =
      rw (react-IsFatal short awaiting s) (unfold states replies waiting_after in refl)
  tasks-IsFatal (message r q t c ∷ items) short more awaiting (h, hs) s =
      rw
        (
          react-message build r q t c awaiting h,
          tasks-IsFatal items short more (handle q (ok r) awaiting).awaiting hs s,
        )
        (conclude-handle build false r q t c items awaiting)
  tasks-IsFatal (noise bytes ∷ items) short more awaiting ((h, e), hs) s =
      rw (noise_checked build bytes e, tasks-IsFatal items short more awaiting hs s)
        (unfold states replies waiting_after in refl)

  -- On a line of escaped frames between END bytes, one frame of a single byte, or with a right
  -- checksum behind fewer than two bytes or behind bytes whose decoding panics, ends the receiving
  -- task by a panic: what came before it, well-formed responses and frames with a wrong checksum,
  -- is served, and of all frames behind it none is looked at.
  pub task-IsFatal :
      (items : List Item) (short : Bytes) (more : List Bytes) (awaiting : Pending S)
      → All (IsItem build) items
      → IsFatal build short
      → All IsFrame more
      → task build (line (frames items ++ short ∷ more)) awaiting ≡ record {
        running = false;
        awaiting = waiting_after items awaiting;
        broadcasts = states items;
        sent = replies items awaiting;
      }
  task-IsFatal items short more awaiting h s hs =
      task-tasks build (frames items ++ short ∷ more) awaiting (
        All-append _ (frames items) (short ∷ more) (frames-IsFrame build items h)
          (IsFatal-IsFrame build short s, hs))
      ∙ tasks-IsFatal items short more awaiting h s
