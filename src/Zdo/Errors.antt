-- ===== src/Zdo/Errors.antt =====
-- tophamm/src/zdo/errors.rs.
use tophamm.Outcome.{Outcome}
use tophamm.Deconz.Errors.{IoError}
use tophamm.Deconz.Errors

pub data ErrorKind : Type 0 where
  deconz : Errors.Error → ErrorKind
  io : IoError → ErrorKind
  channel_error : ErrorKind

pub data Error : Type 0 where
  error : ErrorKind → Error

-- The conversion by `From` of an error of the library.
abbrev pub from_deconz : Errors.Error → Error
from_deconz e = error (deconz e)

abbrev pub Result {ℓ} : Type ℓ → Type ℓ
Result A = Outcome Error A
