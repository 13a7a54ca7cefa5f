-- ===== src/Deconz/Errors.antt =====
-- deconz/src/errors.rs. An I/O error of the standard library is its kind: the end of the input, or
-- an error of the operating system by its code. A serial port error is never looked into.
use tophamm.Base.{ℕ}
use tophamm.Outcome.{Outcome}
use tophamm.Deconz.Types.{CommandId, ParameterId, SlipError}

pub data IoError : Type 0 where
  unexpected_eof : IoError
  os : ℕ → IoError

mutual
  pub data ErrorKind : Type 0 where
    duplicate_sequence_id : ℕ → ErrorKind
    unsolicited_response : ℕ → ErrorKind
    unsolicited_confirm : ℕ → ErrorKind
    unexpected_response : CommandId → ErrorKind
    unsupported_command : ℕ → ErrorKind
    unsupported_parameter : ℕ → ErrorKind
    invalid_parameter : ParameterId → Error → ErrorKind
    slip : SlipError → ErrorKind
    serial_port : ErrorKind
    io : IoError → ErrorKind
    timeout channel_error todo : ErrorKind

  pub data Error : Type 0 where
    error : ErrorKind → Error

-- The conversions by `From`.
abbrev pub from_io : IoError → Error
from_io e = error (io e)

abbrev pub from_slip : SlipError → Error
from_slip e = error (slip e)

abbrev pub from_kind : ErrorKind → Error
from_kind kind = error kind

abbrev pub from_elapsed : Error
from_elapsed = error timeout

-- `Result<T>` of the crate.
abbrev pub Result {ℓ} : Type ℓ → Type ℓ
Result A = Outcome Error A
