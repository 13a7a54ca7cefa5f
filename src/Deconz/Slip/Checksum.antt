-- ===== src/Deconz/Slip/Checksum.antt =====
-- The checksum completes the sum of the bytes to 65536.
use tophamm.Base.{
  ltb, if◌then◌else◌, ◌^◌, ap, ℕ, ◌+◌, ◌-◌, ◌%◌, ◌<◌, ◌≤◌, ◌≡◌, [], ◌∷◌, Bytes, arith, IsU16,
}
use tophamm.Outcome.{Build, debug, release, ok, panic}
use tophamm.Deconz.Slip.{sum_bytes, crc16}

unfoldable pub sum : Bytes → ℕ
sum [] = 0
sum (byte ∷ bytes) = byte + sum bytes

sum_bytes-sum :
    (build : Build) (crc : ℕ) (bytes : Bytes)
    → crc + sum bytes < 2 ^ 16
    → sum_bytes build crc bytes ≡ ok (crc + sum bytes)
unfolding sum_bytes sum
sum_bytes-sum build crc [] h = ap ok (omega arith)
sum_bytes-sum build crc (b ∷ bs) h = ground (arith, sum_bytes-sum build (crc + b) bs)

sum_bytes_overflow :
    (crc : ℕ) (bytes : Bytes)
    → crc < 2 ^ 16
    → 2 ^ 16 ≤ crc + sum bytes
    → sum_bytes debug crc bytes ≡ panic
unfolding sum_bytes sum
sum_bytes_overflow crc [] hc h = absurd (omega arith)
sum_bytes_overflow crc (b ∷ bs) hc h = ground (arith, sum_bytes_overflow (crc + b) bs)

sum_bytes_wraps :
    (crc : ℕ) (bytes : Bytes)
    → crc < 2 ^ 16
    → sum_bytes release crc bytes ≡ ok ((crc + sum bytes) % 2 ^ 16)
unfolding sum_bytes sum
sum_bytes_wraps crc [] h = ap ok (omega arith)
sum_bytes_wraps crc (b ∷ bs) h =
    ground (arith, sum_bytes_wraps (crc + b) bs, sum_bytes_wraps ((crc + b) % 2 ^ 16) bs)

-- A release build computes the complement of the sum modulo 65536.
pub crc16_release :
    (bytes : Bytes)
    → (crc : ℕ) × (crc16 release bytes ≡ ok crc) × (IsU16 crc) × ((sum bytes + crc) % 2 ^ 16 ≡ 0)
unfolding crc16
crc16_release bytes = (
  (2 ^ 16 - sum bytes % 2 ^ 16) % 2 ^ 16,
  rw (sum_bytes_wraps 0 bytes (omega arith)) (ground arith),
  omega arith,
  omega arith,
)

-- A debug build computes the checksum that a release build computes when the sum of the bytes is
-- neither zero nor 65536 or more, and panics otherwise.
pub crc16_debug :
    (bytes : Bytes)
    → crc16 debug bytes ≡ (
        if ltb 0 (sum bytes)
        then if ltb (sum bytes) 65_536 then crc16 release bytes else panic
        else panic)
unfolding crc16
crc16_debug bytes =
    ground (
      arith,
      sum_bytes-sum debug 0 bytes,
      sum_bytes-sum release 0 bytes,
      sum_bytes_overflow 0 bytes,
    )
