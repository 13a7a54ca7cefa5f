-- ===== src/Tests/Line.antt =====
-- The serial line at concrete frames, on a sink that keeps every byte.
use tophamm.Base.{
  List, ◌⊎◌, ◌*◌, ◌==◌, some, ltb, if◌then◌else◌, ◌≡◌, ◌≢◌, refl, false, [], ◌∷◌, ◌++◌, ◌+◌, ◌%◌,
  ◌^◌, map, none, Bytes, arith,
}
use tophamm.Base.Little.{to_le_bytes, from_le_bytes}
use tophamm.Outcome.{debug, release, ok, err, panic}
use tophamm.Deconz.Errors.{Result, from_slip}
use tophamm.Deconz.Types.{mismatched_crc}
use tophamm.Deconz.Slip.Detection.{check_accepts, check_single_byte}
use tophamm.Deconz.Slip.Reader.Unescaped.{unescape, pair, concluded, read_frame-unescape}
use tophamm.Deconz.Slip.{crc16, sum_bytes, end_byte}
use tophamm.Deconz.Slip.Checksum.{crc16_debug, sum}
use tophamm.Deconz.Slip.Reader.{
  Answer, byte, returned, waiting, read_frame, read_loop, round, check_and_remove_crc, no_bytes,
}
use tophamm.Deconz.Slip.Writer.{Sink, write_frame}
use tophamm.Deconz.Slip.Writer.Encoded.{slip_frame, IsAccepting}
use tophamm.Deconz.Slip.RoundTrip.{
  IsClearCrc, read_frame-write_frame, read_frame_collision, read_frame_no_bytes,
}

abbrev pub buffer : Sink Bytes
buffer = record {
  write_u8 = λ b s. (none, s ++ b ∷ []);
  write_u16_le = λ v s. (none, s ++ to_le_bytes 2 v);
  flush = λ s. (none, s);
  accepted = λ s. s;
  write_u8_accepted = λ b s h. refl;
  write_u16_le_accepted = λ v s h. refl;
  flush_accepted = λ s h. refl;
}

pub buffer-IsAccepting : IsAccepting buffer
buffer-IsAccepting = record {
  write_u8 = λ b s. refl;
  write_u16_le = λ v s. refl;
  flush = λ s. refl;
}

abbrev message : Bytes
message = 1 ∷ 192 ∷ 219 ∷ []

crc16-message : crc16 debug message ≡ ok 65_124
unfolding crc16 sum_bytes
crc16-message = refl

sent_message :
    (write_frame buffer debug message []).1 ≡ 192 ∷ 1 ∷ 219 ∷ 220 ∷ 219 ∷ 221 ∷ 100 ∷ 254 ∷ 192 ∷ []
unfolding write_frame crc16 sum_bytes to_le_bytes
sent_message = refl

-- A byte that is changed on the way is noticed.
mismatched :
    read_frame debug (map byte (192 ∷ 2 ∷ 219 ∷ 220 ∷ 219 ∷ 221 ∷ 100 ∷ 254 ∷ 192 ∷ []))
    ≡ returned (err (from_slip mismatched_crc)) []
unfolding read_frame read_loop round check_and_remove_crc crc16 sum_bytes from_le_bytes
mismatched = refl

message-IsClearCrc : IsClearCrc 65_124
message-IsClearCrc = ((omega arith, omega arith), (omega arith, omega arith))

written : (write_frame buffer debug message []).0 ≡ ok tt
unfolding write_frame crc16 sum_bytes
written = refl

read_frame-write_frame_example :
    ((write_frame buffer debug message []).0 ≡ ok tt)
    × (read_frame debug (map byte (write_frame buffer debug message []).1 ++ byte 7 ∷ [])
        ≡ returned (ok message) (byte 7 ∷ []))
read_frame-write_frame_example =
    read_frame-write_frame buffer debug message 65_124 [] (byte 7 ∷ []) buffer-IsAccepting
      crc16-message message-IsClearCrc refl

-- The checksum of a byte 64 is 0xFFC0, whose low byte is END.
read_frame_collision_example :
    (result : Result Bytes) × (read_frame debug (map byte (slip_frame (64 ∷ []) 65_472) ++ [])
      ≡ returned result (byte 255 ∷ byte 192 ∷ []))
    × (result ≢ ok (64 ∷ []))
read_frame_collision_example = read_frame_collision debug (64 ∷ []) 65_472 [] (λ e. cc) refl

read_frame_no_bytes_example :
    read_frame debug (no_bytes ∷ no_bytes ∷ []) ≡ waiting (0 ∷ 0 ∷ []) false
read_frame_no_bytes_example = read_frame_no_bytes debug 2

crc16_debug_example : crc16 debug message ≡ (
    if ltb 0 (sum message)
    then if ltb (sum message) 65_536 then crc16 release message else panic
    else panic)
crc16_debug_example = crc16_debug message

check_accepts_example : check_and_remove_crc release (message ++ 100 ∷ 254 ∷ []) ≡ (
    if (sum message + (100 + 256 * 254)) % 2 ^ 16 == 0
    then ok message
    else err (from_slip mismatched_crc))
check_accepts_example = check_accepts message 100 254 (omega arith) (omega arith)

message_accepted :
    check_and_remove_crc release (((1 ∷ []) ++ 192 ∷ 219 ∷ []) ++ 100 ∷ 254 ∷ [])
    ≡ ok ((1 ∷ []) ++ 192 ∷ 219 ∷ [])
unfolding check_and_remove_crc crc16 sum_bytes from_le_bytes
message_accepted = refl

check_single_byte_example :
    check_and_remove_crc release (((1 ∷ []) ++ 64 ∷ 219 ∷ []) ++ 100 ∷ 254 ∷ [])
    ≡ err (from_slip mismatched_crc)
check_single_byte_example =
    check_single_byte (1 ∷ []) (219 ∷ []) 192 64 100 254 (omega arith) (omega arith) (omega arith)
      (omega arith) (omega arith) message_accepted

-- 219 and 220 stand for 192.
read_frame-unescape_example :
    (left : List Answer) × (read_frame debug
        (byte end_byte ∷ map byte (1 ∷ 219 ∷ 220 ∷ 5 ∷ []) ++ byte end_byte ∷ byte 7 ∷ [])
      ≡ returned (concluded debug (unescape (1 ∷ 219 ∷ 220 ∷ 5 ∷ []))) left)
    × ((left ≡ byte 7 ∷ []) ⊎ (unescape (1 ∷ 219 ∷ 220 ∷ 5 ∷ []) ≡ none))
read_frame-unescape_example =
    read_frame-unescape debug 1 (219 ∷ 220 ∷ 5 ∷ []) (byte 7 ∷ [])
      (omega arith, (omega arith, (omega arith, (omega arith, tt))))

unescaped : unescape (1 ∷ 219 ∷ 220 ∷ 5 ∷ []) ≡ some (1 ∷ 192 ∷ 5 ∷ [])
unfolding unescape pair
unescaped = refl
