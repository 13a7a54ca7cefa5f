-- ===== src/Deconz/Messages/Distinct.antt =====
-- Which error a text is of.
use tophamm.Base.{
  ap, sym, ◌∙◌, arith, ◌+◌, ◌<◌, length, drop, ℕ, zero, suc, ◌≡◌, refl, ◌==◌, if◌then◌else◌, ◌∷◌,
  ◌++◌,
}
use tophamm.Base.Decimal.{number-decimal, codes, number}
use tophamm.Deconz.Messages.{
  channel_error, timeout, serial_port, slip, error, unsolicited_confirm, unsupported_parameter,
  todo, unsupported_command, error_text, duplicate_sequence_id, kind_text, invalid_parameter, io,
  unexpected_response, unsolicited_response, IoError, ErrorKind, Text, parameter_text,
}
use tophamm.Deconz.Messages.Names.{
  char, from_colon, which_command, which_parameter, which_slip, which_command_lem, which_slip_lem,
  which_parameter_lem,
}

-- What is left behind the first words.
abbrev behind : Text → Text → Text
behind words text = drop (length words) text

unfoldable which_unsolicited : Text → ErrorKind
which_unsolicited text =
    if char 12 text == 114
    then unsolicited_response
        (number 0 (behind (codes "unsolicited response with sequence ID: ") text))
    else unsolicited_confirm
        (number 0 (behind (codes "unsolicited confirm with request ID: ") text))

unfoldable which_unsupported : Text → ErrorKind
which_unsupported text =
    if char 12 text == 99
    then unsupported_command (number 0 (behind (codes "unsupported command ID: ") text))
    else unsupported_parameter (number 0 (behind (codes "unsupported parameter ID: ") text))

-- Of the texts that begin with a `u`.
unfoldable which_un : Text → ErrorKind
which_un text =
    if char 2 text == 101
    then unexpected_response
        (which_command (behind (codes "unexpected command ID as response: ") text))
    else if char 3 text == 111
    then which_unsolicited text
    else which_unsupported text

-- By the first character, with what the text of an inner error stands for.
unfoldable which_by : ℕ → ErrorKind → Text → ErrorKind
which_by first inner text =
    if first == 100
    then duplicate_sequence_id (number 0 (behind (codes "duplicate sequence ID: ") text))
    else if first == 117
    then which_un text
    else if first == 105
    then invalid_parameter (which_parameter (behind (codes "invalid parameter for ID ") text))
        (error inner)
    else if first == 83
    then slip (which_slip (behind (codes "SLIP error: ") text))
    else if first == 115
    then serial_port
    else if first == 116
    then timeout
    else if first == 99
    then channel_error
    else todo

abbrev inner_text : Text → Text
inner_text text =
    behind (codes ": deconz error: ") (from_colon (behind (codes "invalid parameter for ID ") text))

unfoldable which : ℕ → Text → ErrorKind
which zero text = todo
which (suc fuel) text = which_by (char 0 text) (which fuel (inner_text text)) text

-- No error of the standard library's input and output is in it.
abbrev pub IsOwn : ErrorKind → Type 0
IsOwn (io e) = ⊥
IsOwn (invalid_parameter p (error kind)) = IsOwn kind
IsOwn _ = Unit {0}

abbrev depth : ErrorKind → ℕ
depth (invalid_parameter p (error kind)) = 1 + depth kind
depth _ = 0

module _ (io_text : IoError → Text) (serial_text : Text) where
  which-kind_text :
      (fuel : ℕ) (kind : ErrorKind)
      → IsOwn kind
      → depth kind < fuel
      → which fuel (kind_text io_text serial_text kind) ≡ kind
  unfolding which which_by which_un which_unsolicited which_unsupported kind_text
  which-kind_text zero kind h l = absurd (omega arith)
  which-kind_text (suc fuel) (duplicate_sequence_id q) h l = rw (number-decimal q) refl
  which-kind_text (suc fuel) (unsolicited_response q) h l = rw (number-decimal q) refl
  which-kind_text (suc fuel) (unsolicited_confirm q) h l = rw (number-decimal q) refl
  which-kind_text (suc fuel) (unexpected_response c) h l = rw (which_command_lem c) refl
  which-kind_text (suc fuel) (unsupported_command byte) h l = rw (number-decimal byte) refl
  which-kind_text (suc fuel) (unsupported_parameter byte) h l = rw (number-decimal byte) refl
  which-kind_text (suc fuel) (invalid_parameter p (error kind)) h l =
      let rest : Text = 32 ∷ (codes "deconz error: " ++ kind_text io_text serial_text kind) in
      let (f, g) = which_parameter_lem p rest in
      let inner : Text → ErrorKind = λ text. which fuel (behind (codes ": deconz error: ") text) in
      ap (λ q. invalid_parameter q (error (inner (from_colon (parameter_text p ++ 58 ∷ rest))))) f
      ∙ ap (λ text. invalid_parameter p (error (inner text))) g
      ∙ ap (λ k. invalid_parameter p (error k)) (which-kind_text fuel kind h (omega arith))
  which-kind_text (suc fuel) (slip e) h l = rw (which_slip_lem e) refl
  which-kind_text (suc fuel) serial_port h l = refl
  which-kind_text (suc fuel) (io e) h l = absurd h
  which-kind_text (suc fuel) timeout h l = refl
  which-kind_text (suc fuel) channel_error h l = refl
  which-kind_text (suc fuel) todo h l = refl

  -- Two errors of the library that have the same text are the same, unless there is an error of
  -- the standard library's input and output in one of them.
  pub error_text_inj :
      (k k' : ErrorKind)
      → IsOwn k
      → IsOwn k'
      → error_text io_text serial_text (error k) ≡ error_text io_text serial_text (error k')
      → error k ≡ error k'
  unfolding error_text
  error_text_inj k k' h h' e =
      let fuel = 1 + depth k + depth k' in
      ap error (
        sym (which-kind_text fuel k h (omega arith))
        ∙ ap (λ text. which fuel (drop 14 text)) e
        ∙ which-kind_text fuel k' h' (omega arith))
