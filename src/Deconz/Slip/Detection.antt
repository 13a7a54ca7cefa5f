-- ===== src/Deconz/Slip/Detection.antt =====
-- Which frames the checksum lets pass, in a release build.
use tophamm.Base.{
  ℕ, ◌+◌, ◌-◌, ◌*◌, ◌%◌, ◌^◌, ◌≡◌, ◌≢◌, ◌∙◌, ltb, ◌==◌, if◌then◌else◌, false, [], ◌∷◌, ◌++◌, Bytes,
  length, length-append, take-append, drop-append, IsU8, arith,
}
use tophamm.Base.Little.{from_le_bytes}
use tophamm.Outcome.{release, ok, err}
use tophamm.Deconz.Types.{mismatched_crc}
use tophamm.Deconz.Errors.{Result, from_slip}
use tophamm.Deconz.Slip.Checksum.{sum, crc16_release}
use tophamm.Deconz.Slip.Reader.{check_and_remove_crc}

sum-append : (xs ys : Bytes) → sum (xs ++ ys) ≡ sum xs + sum ys
unfolding sum
sum-append [] ys = omega arith
sum-append (x ∷ xs) ys = omega (arith, sum-append xs ys)

-- In a release build, a frame of bytes is accepted exactly if the sum of its data and the number
-- in its last two bytes come to a multiple of 65536; then its data comes back, and otherwise the
-- mismatch is reported.
pub check_accepts :
    (message : Bytes) (l h : ℕ)
    → IsU8 l
    → IsU8 h
    → check_and_remove_crc release (message ++ l ∷ h ∷ []) ≡ (
        if (sum message + (l + 256 * h)) % 2 ^ 16 == 0
        then ok message
        else err (from_slip mismatched_crc))
unfolding check_and_remove_crc from_le_bytes
check_accepts message l h hl hh =
    let (crc, e, fits, completes) = crc16_release message in
    rw (long, back, take-append message (l ∷ h ∷ []), drop-append message (l ∷ h ∷ []), e)
      (ground arith)
  where
    whole : length (message ++ l ∷ h ∷ []) ≡ length message + 2
    whole = omega (arith, length-append message (l ∷ h ∷ []))

    long : ltb (length (message ++ l ∷ h ∷ [])) 2 ≡ false
    long = ground (arith, whole)

    back : length (message ++ l ∷ h ∷ []) - 2 ≡ length message
    back = omega (arith, whole)

completes_of_ok :
    (message : Bytes) (n : ℕ) (r : Result Bytes)
    → r ≡ (if n == 0 then ok message else err (from_slip mismatched_crc))
    → r ≡ ok message
    → n ≡ 0
completes_of_ok message n r e k = ground arith

-- In a release build, in a frame of bytes that is accepted, any one byte of the data that is
-- changed on the way is noticed.
pub check_single_byte :
    (xs ys : Bytes) (b c l h : ℕ)
    → IsU8 b
    → IsU8 c
    → IsU8 l
    → IsU8 h
    → b ≢ c
    → check_and_remove_crc release ((xs ++ b ∷ ys) ++ l ∷ h ∷ []) ≡ ok (xs ++ b ∷ ys)
    → check_and_remove_crc release ((xs ++ c ∷ ys) ++ l ∷ h ∷ []) ≡ err (from_slip mismatched_crc)
unfolding sum
check_single_byte xs ys b c l h hb hc hl hh ne e =
    let passed =
      completes_of_ok (xs ++ b ∷ ys) ((sum (xs ++ b ∷ ys) + (l + 256 * h)) % 2 ^ 16) _
        (check_accepts (xs ++ b ∷ ys) l h hl hh) e in
    check_accepts (xs ++ c ∷ ys) l h hl hh
    ∙ ground (arith, passed, sum-append xs (b ∷ ys), sum-append xs (c ∷ ys))
