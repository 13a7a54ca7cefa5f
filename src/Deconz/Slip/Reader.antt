-- ===== src/Deconz/Slip/Reader.antt =====
-- `Reader` of deconz/src/slip.rs. What the serial line answers to each read of one byte is a list
-- of events; a read that is not answered yet leaves the reader waiting.
pub mod Rounds
pub mod Unescaped
use tophamm.Base.{
  ℕ, ◌-◌, Bool, true, false, ◌==◌, ltb, if◌then◌else◌, List, [], ◌∷◌, ◌++◌, Bytes, length, take,
  drop,
}
use tophamm.Base.Little.{from_le_bytes}
use tophamm.Outcome.{Build, ok, err, panic, ◌>>=◌}
use tophamm.Deconz.Types.{mismatched_crc, invalid_escape}
use tophamm.Deconz.Errors.{IoError, Result, from_io, from_slip}
use tophamm.Deconz.Slip.{end_byte, esc_byte, esc_end, esc_esc, crc16}

-- The answers to `read` with a buffer of one byte: a byte, no bytes at the end of the stream, or an
-- error.
pub data Answer : Type 0 where
  byte : ℕ → Answer
  no_bytes : Answer
  failed : IoError → Answer

-- The buffer starts as zero, and the number of bytes read is not looked at.
pub read_byte : Answer → Result ℕ
read_byte (byte b) = ok b
read_byte no_bytes = ok 0
read_byte (failed e) = err (from_io e)

-- `frame.len() - 2` underflows on fewer than two bytes: a debug build panics there, and a release
-- build at the slice that starts at the wrapped index. From two bytes on, the slice behind `len`
-- has exactly two, so that `MissingCrc` is never returned.
unfoldable pub check_and_remove_crc : Build → Bytes → Result Bytes
check_and_remove_crc build frame =
    if ltb (length frame) 2
    then panic
    else let len = length frame - 2 in
      let provided_crc = from_le_bytes (drop len frame) in
      crc16 build (take len frame) >>= λ calculated_crc.
      if provided_crc == calculated_crc then ok (take len frame) else err (from_slip mismatched_crc)

-- A round of the loop goes on, waiting for the second byte of an escape or not, or it returns.
pub data Round : Type 0 where
  next : Bytes → Bool → Round
  stop : Result Bytes → Round

abbrev is_empty : Bytes → Bool
is_empty [] = true
is_empty (b ∷ bs) = false

on_byte : Build → Bytes → ℕ → Round
on_byte build frame b =
    if b == end_byte
    then if is_empty frame then next [] false else stop (check_and_remove_crc build frame)
    else if b == esc_byte
    then next frame true
    else next (frame ++ b ∷ []) false

on_escaped : Bytes → ℕ → Round
on_escaped frame b =
    if b == esc_esc
    then next (frame ++ esc_byte ∷ []) false
    else if b == esc_end
    then next (frame ++ end_byte ∷ []) false
    else stop (err (from_slip invalid_escape))

abbrev on_read : Build → Bytes → Bool → Result ℕ → Round
on_read build frame true (ok b) = on_escaped frame b
on_read build frame false (ok b) = on_byte build frame b
on_read build frame escaped (err e) = stop (err e)
on_read build frame escaped panic = stop panic

unfoldable pub round : Build → Bytes → Bool → Answer → Round
unfolding on_byte on_escaped read_byte
round build frame escaped answer = on_read build frame escaped (read_byte answer)

-- The reader returned, with the answers that it did not use, or it waits with a part of a frame.
pub data Progress : Type 0 where
  returned : Result Bytes → List Answer → Progress
  waiting : Bytes → Bool → Progress

unfoldable pub read_loop : Build → Bytes → Bool → List Answer → Progress
read_loop build frame escaped [] = waiting frame escaped
read_loop build frame escaped (a ∷ rest) = elim (round build frame escaped a) [
  | next frame' escaped' ↦ read_loop build frame' escaped' rest
  | stop result ↦ returned result rest
]

unfoldable pub read_frame : Build → List Answer → Progress
unfolding read_loop
read_frame build answers = read_loop build [] false answers
