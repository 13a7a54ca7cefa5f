-- ===== src/Deconz/Wire/External.antt =====
-- What the code uses of the crate byteorder: `read_u8` and `read_u16`, `read_u32`, `read_u64` with
-- `LittleEndian` on a cursor, and the writes on a `Vec<u8>`. The number of bytes is an argument.
-- The laws are the documentation's: a read takes that many bytes or fails with `UnexpectedEof`,
-- and a write to a vector, which cannot fail, appends them.
use tophamm.Base.{ℕ, ◌<◌, ◌≡◌, ◌++◌, Bytes, length, take, drop, arith, refl, ltb, if◌then◌else◌}
use tophamm.Base.{take-append, drop-append, length-append}
use tophamm.Base.Little.{to_le_bytes, from_le_bytes}
use tophamm.Outcome.{Outcome, ok, err}
use tophamm.Deconz.Errors.{IoError, unexpected_eof}

pub record Byteorder : Type 0 where
  pub read_uint : ℕ → Bytes → Outcome IoError (ℕ × Bytes)
  pub write_uint : ℕ → ℕ → Bytes → Outcome IoError Bytes
  pub read_whole :
      (bytes rest : Bytes)
      → read_uint (length bytes) (bytes ++ rest) ≡ ok (from_le_bytes bytes, rest)
  pub read_short :
      (width : ℕ) (bytes : Bytes)
      → length bytes < width
      → read_uint width bytes ≡ err unexpected_eof
  pub write_appends :
      (width v : ℕ) (buffer : Bytes)
      → write_uint width v buffer ≡ ok (buffer ++ to_le_bytes width v)

-- A value, for runs and examples.
unfoldable pub read_exact : ℕ → Bytes → Outcome IoError (ℕ × Bytes)
read_exact width bytes =
    if ltb (length bytes) width
    then err unexpected_eof
    else ok (from_le_bytes (take width bytes), drop width bytes)

pub read_exact_whole :
    (bytes rest : Bytes)
    → read_exact (length bytes) (bytes ++ rest) ≡ ok (from_le_bytes bytes, rest)
unfolding read_exact
read_exact_whole bytes rest =
    ground (arith, length-append bytes rest, take-append bytes rest, drop-append bytes rest)

pub read_exact_short :
    (width : ℕ) (bytes : Bytes) → length bytes < width → read_exact width bytes ≡ err unexpected_eof
unfolding read_exact
read_exact_short width bytes h = ground arith

abbrev pub byteorder : Byteorder
byteorder = record {
  read_uint = read_exact;
  write_uint = λ width v buffer. ok (buffer ++ to_le_bytes width v);
  read_whole = read_exact_whole;
  read_short = read_exact_short;
  write_appends = λ width v buffer. refl;
}
