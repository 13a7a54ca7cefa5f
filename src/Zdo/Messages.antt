-- ===== src/Zdo/Messages.antt =====
-- The texts of tophamm/src/zdo/errors.rs: its `Display`, on top of that of the library's errors.
use tophamm.Base.{arith, ◌≡◌, ap, refl, ◌++◌, drop}
use tophamm.Base.Decimal.{codes}
use tophamm.Deconz.Errors.{IoError}
use tophamm.Deconz.Errors
use tophamm.Deconz.Messages.{Text}
use tophamm.Deconz.Messages
use tophamm.Deconz.Messages.Names.{char}
use tophamm.Deconz.Messages.Distinct
use tophamm.Zdo.Errors.{ErrorKind, Error, deconz, io, channel_error, error}

module _ (io_text : IoError → Text) (serial_text : Text) where
  unfoldable pub kind_text : ErrorKind → Text
  kind_text (deconz e) = codes "deconz: " ++ Messages.error_text io_text serial_text e
  kind_text (io e) = codes "io: " ++ io_text e
  kind_text channel_error = codes "channel error"

  unfoldable pub error_text : Error → Text
  unfolding kind_text
  error_text (error kind) = kind_text kind

-- No error of the standard library's input and output is in it.
abbrev pub IsOwn : Error → Type 0
IsOwn (error (deconz (Errors.error kind))) = Distinct.IsOwn kind
IsOwn (error (io e)) = ⊥
IsOwn (error channel_error) = Unit {0}

module _ (io_text : IoError → Text) (serial_text : Text) where
  -- Two errors of the zdo layer that have the same text, down to the errors of the library that
  -- they carry, are the same, unless there is an error of the standard library's input and output
  -- in one of them: whatever the texts of those and of the serial port's errors are.
  pub error_text_inj :
      (e e' : Error)
      → IsOwn e
      → IsOwn e'
      → error_text io_text serial_text e ≡ error_text io_text serial_text e'
      → e ≡ e'
  unfolding error_text kind_text
  error_text_inj (error (deconz (Errors.error k))) (error (deconz (Errors.error k'))) h h' t =
      ap (λ x. error (deconz x))
        (Distinct.error_text_inj io_text serial_text k k' h h' (ap (drop 8) t))
  error_text_inj (error (deconz (Errors.error k))) (error channel_error) h h' t =
      absurd (omega (arith, ap (char 0) t))
  error_text_inj (error channel_error) (error (deconz (Errors.error k))) h h' t =
      absurd (omega (arith, ap (char 0) t))
  error_text_inj (error channel_error) (error channel_error) h h' t = refl
  error_text_inj (error (io e)) e' h h' t = absurd h
  error_text_inj e (error (io e')) h h' t = absurd h'
