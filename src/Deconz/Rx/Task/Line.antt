-- ===== src/Deconz/Rx/Task/Line.antt =====
-- The receiving task on a line that carries frames.
use tophamm.Base.{
  refl, ◌≡◌, ◌∙◌, ◌⊎◌, inl, inr, ap, Bool, false, List, [], ◌∷◌, ◌++◌, map, append_assoc, Bytes,
  length, arith, All, ◌<◌,
}
use tophamm.Outcome.{Build}
use tophamm.Deconz.Errors.{Result}
use tophamm.Deconz.Wire.External.{Byteorder}
use tophamm.Deconz.Slip.{end_byte}
use tophamm.Deconz.Slip.Reader.{
  Answer, byte, Progress, Round, returned, waiting, next, stop, round, read_loop,
  check_and_remove_crc,
}
use tophamm.Deconz.Slip.Reader.Rounds.{read_start, read_escaped, read_end}
use tophamm.Deconz.Slip.Writer.Encoded.{escaped}
use tophamm.Deconz.Rx.{Pending, Processed}
use tophamm.Deconz.Rx.Task.{Served, idle, conclude, react, serve, task}

-- A frame on the line between END bytes, all of its bytes escaped.
abbrev pub on_line : Bytes → List Answer
on_line frame = byte end_byte ∷ map byte (escaped frame) ++ byte end_byte ∷ []

unfoldable pub line : List Bytes → List Answer
line [] = []
line (frame ∷ frames) = on_line frame ++ line frames

abbrev pub IsFrame : Bytes → Type 0
IsFrame frame = 0 < length frame

Round-cases :
    (r : Round)
    → ((frame : Bytes) × (escaped : Bool) × (r ≡ next frame escaped))
      ⊎ ((result : Result Bytes) × (r ≡ stop result))
Round-cases (next frame escaped) = inl (frame, escaped, refl)
Round-cases (stop result) = inr (result, refl)

read_on_line :
    (build : Build) (frame : Bytes) (rest : List Answer)
    → IsFrame frame
    → read_loop build [] false (on_line frame ++ rest)
      ≡ returned (check_and_remove_crc build frame) rest
read_on_line build [] rest h = absurd (omega arith)
read_on_line build (b ∷ bs) rest h =
    rw (append_assoc (map byte (escaped (b ∷ bs))) _ rest)
      (read_start build _ ∙ read_escaped build [] (b ∷ bs) _ ∙ read_end build b bs rest)

module _ ⦃bo : Byteorder⦄ {S : Type 0} (build : Build) where
  -- The rest of the task, after one call of `read_frame`.
  abbrev after : Progress → Pending S → Served S
  after (waiting frame escaped) awaiting = idle awaiting
  after (returned result answers) awaiting =
      let p = react build result awaiting in conclude p.result p (task build answers p.awaiting)

  serve-read_loop :
      (frame : Bytes) (escaped : Bool) (answers : List Answer) (awaiting : Pending S)
      → serve build frame escaped answers awaiting
        ≡ after (read_loop build frame escaped answers) awaiting
  unfolding serve read_loop task
  serve-read_loop frame escaped [] awaiting = refl
  serve-read_loop frame escaped (a ∷ rest) awaiting =
      elim (Round-cases (round build frame escaped a)) [
        | inl (f, e, h) ↦ rw (h, serve, read_loop) (serve-read_loop f e rest awaiting)
        | inr (r, h) ↦ rw (h, serve, read_loop)
      ]

  -- The task takes the checked frames one by one.
  unfoldable pub tasks : List Bytes → Pending S → Served S
  tasks [] awaiting = idle awaiting
  tasks (frame ∷ frames) awaiting =
      let p = react build (check_and_remove_crc build frame) awaiting in
      conclude p.result p (tasks frames p.awaiting)

  abbrev reaction : Bytes → Pending S → Processed S
  reaction frame awaiting = react build (check_and_remove_crc build frame) awaiting

  pub task-tasks :
      (frames : List Bytes) (awaiting : Pending S)
      → All IsFrame frames
      → task build (line frames) awaiting ≡ tasks frames awaiting
  unfolding task tasks line read_loop
  task-tasks [] awaiting h = refl
  task-tasks (frame ∷ frames) awaiting (h, hs) =
      serve-read_loop [] false (on_line frame ++ line frames) awaiting
      ∙ ap (λ (p : Progress). after p awaiting) (read_on_line build frame (line frames) h)
      ∙ ap (λ (s : Served S). conclude (reaction frame awaiting).result (reaction frame awaiting) s)
          (task-tasks frames (reaction frame awaiting).awaiting hs)
