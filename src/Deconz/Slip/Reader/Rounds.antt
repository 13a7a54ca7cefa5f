-- ===== src/Deconz/Slip/Reader/Rounds.antt =====
-- The reader's loop over pieces of a frame, with any answers behind them.
use tophamm.Base.{
  ℕ, zero, suc, ◌+◌, ◌-◌, ◌≡◌, ◌≢◌, refl, ap, ◌∙◌, false, ltb, List, [], ◌∷◌, ◌++◌, map,
  append_assoc, append-nil, Bytes, length, length-append, length-take_le, take-append, drop-append,
  replicate, IsU16, arith,
}
use mathlib.Core.List.{map-append}
use tophamm.Base.Little.{
  from_le_bytes-to_le_bytes, length-to_le_bytes, to_le_bytes, length-to_le_bytes,
  from_le_bytes-to_le_bytes,
}
use tophamm.Outcome.{Build, debug, release, ok}
use tophamm.Deconz.Slip.{end_byte, esc_byte, crc16}
use tophamm.Deconz.Slip.Reader.{
  read_frame, Answer, byte, no_bytes, returned, waiting, round, read_loop, check_and_remove_crc,
}
use tophamm.Deconz.Slip.Writer.Encoded.{escape, escaped}

-- A byte that stands for itself on the line.
abbrev pub IsClear : ℕ → Type 0
IsClear b = (b ≢ end_byte) × (b ≢ esc_byte)

pub read_clear :
    (build : Build) (frame : Bytes) (b : ℕ) (rest : List Answer)
    → IsClear b
    → read_loop build frame false (byte b ∷ rest) ≡ read_loop build (frame ++ b ∷ []) false rest
unfolding read_loop round
read_clear build frame b rest h = ground arith

read_escape :
    (build : Build) (frame : Bytes) (b : ℕ) (rest : List Answer)
    → read_loop build frame false (map byte (escape b) ++ rest)
      ≡ read_loop build (frame ++ b ∷ []) false rest
unfolding read_loop round escape
read_escape build frame b rest = ground arith

pub read_escaped :
    (build : Build) (frame bytes : Bytes) (rest : List Answer)
    → read_loop build frame false (map byte (escaped bytes) ++ rest)
      ≡ read_loop build (frame ++ bytes) false rest
unfolding escaped
read_escaped build frame [] rest = rw append-nil
read_escaped build frame (b ∷ bs) rest =
    rw (map-append byte (escape b) (escaped bs), append_assoc (map byte (escape b)) _ rest)
      (read_escape build frame b _ ∙ read_escaped build (frame ++ b ∷ []) bs rest ∙ rw append_assoc)

pub read_end :
    (build : Build) (b : ℕ) (frame : Bytes) (rest : List Answer)
    → read_loop build (b ∷ frame) false (byte end_byte ∷ rest)
      ≡ returned (check_and_remove_crc build (b ∷ frame)) rest
unfolding read_loop round
read_end build b frame rest = refl

pub read_frame-read_loop :
    (build : Build) (answers : List Answer)
    → read_frame build answers ≡ read_loop build [] false answers
unfolding read_frame
read_frame-read_loop build answers = refl

pub read_start :
    (build : Build) (rest : List Answer)
    → read_loop build [] false (byte end_byte ∷ rest) ≡ read_loop build [] false rest
unfolding read_loop round
read_start build rest = refl

crc16-lt : (build : Build) (bytes : Bytes) (crc : ℕ) → crc16 build bytes ≡ ok crc → IsU16 crc
unfolding crc16
crc16-lt debug bytes crc e = ground arith
crc16-lt release bytes crc e = ground arith

pub check-to_le_bytes :
    (build : Build) (bytes : Bytes) (crc : ℕ)
    → crc16 build bytes ≡ ok crc
    → check_and_remove_crc build (bytes ++ to_le_bytes 2 crc) ≡ ok bytes
unfolding check_and_remove_crc
check-to_le_bytes build bytes crc e =
    rw
      (
        long,
        back,
        take-append bytes (to_le_bytes 2 crc),
        drop-append bytes (to_le_bytes 2 crc),
        e,
        from_le_bytes-to_le_bytes 2 crc (crc16-lt build bytes crc e),
      )
      (ground arith)
  where
    whole : length (bytes ++ to_le_bytes 2 crc) ≡ length bytes + 2
    whole = omega (arith, length-append bytes (to_le_bytes 2 crc), length-to_le_bytes 2 crc)

    long : ltb (length (bytes ++ to_le_bytes 2 crc)) 2 ≡ false
    long = ground (arith, whole)

    back : length (bytes ++ to_le_bytes 2 crc) - 2 ≡ length bytes
    back = omega (arith, whole)

-- A frame comes back without its two last bytes, or not at all.
pub length-check :
    (build : Build) (frame out : Bytes)
    → check_and_remove_crc build frame ≡ ok out
    → length out + 2 ≡ length frame
unfolding check_and_remove_crc
length-check build frame out e = ground (arith, length-take_le (length frame - 2) frame)

-- At the end of the stream each read answers no bytes, and the loop takes a zero for it.
pub read_no_bytes :
    (n : ℕ) (build : Build) (frame : Bytes)
    → read_loop build frame false (replicate n no_bytes) ≡ waiting (frame ++ replicate n 0) false
unfolding read_loop round
read_no_bytes zero build frame = rw append-nil
read_no_bytes (suc n) build frame =
    read_no_bytes n build (frame ++ 0 ∷ [])
    ∙ ap (λ (f : Bytes). waiting f false) (append_assoc frame (0 ∷ []) (replicate n 0))
