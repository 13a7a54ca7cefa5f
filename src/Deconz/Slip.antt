-- ===== src/Deconz/Slip.antt =====
-- deconz/src/slip.rs: frames of bytes on the serial line, with a checksum, between END bytes.
pub mod Checksum
pub mod Reader
pub mod Writer
pub mod RoundTrip
pub mod Detection
use tophamm.Base.{ℕ, ◌+◌, ◌-◌, List, [], ◌∷◌, Bytes}
use tophamm.Outcome.{Build, ok, add_u16, ◌>>=◌}
use tophamm.Deconz.Errors.{Result}

abbrev pub end_byte : ℕ
end_byte = 192

abbrev pub esc_byte : ℕ
esc_byte = 219

abbrev pub esc_end : ℕ
esc_end = 220

abbrev pub esc_esc : ℕ
esc_esc = 221

-- The loop of `crc16`, on sixteen bits.
unfoldable pub sum_bytes : Build → ℕ → Bytes → Result ℕ
sum_bytes build crc [] = ok crc
sum_bytes build crc (byte ∷ bytes) = do crc' ← add_u16 build crc byte; sum_bytes build crc' bytes

-- `!crc + 1`
unfoldable pub crc16 : Build → Bytes → Result ℕ
crc16 build bytes = do crc ← sum_bytes build 0 bytes; add_u16 build (65_535 - crc) 1
