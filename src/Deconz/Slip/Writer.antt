-- ===== src/Deconz/Slip/Writer.antt =====
-- `Writer` of deconz/src/slip.rs, over the buffered writer of tokio.
pub mod Encoded
use tophamm.Base.{ℕ, ◌==◌, ◌≡◌, if◌then◌else◌, [], ◌∷◌, ◌++◌, Option, none, some, Bytes}
use tophamm.Base.Little.{to_le_bytes}
use tophamm.Outcome.{Build, ok, err, panic}
use tophamm.Deconz.Errors.{IoError, Result, from_io}
use tophamm.Deconz.Slip.{end_byte, esc_byte, esc_end, esc_esc, crc16}

-- What the code uses of tokio's `AsyncWriteExt`. An awaited call returns an error or none, and the
-- new state. The laws are the documentation's, for calls that return no error: `write_u8` and
-- `write_u16_le` put their bytes behind those that were accepted before, and `flush` accepts none.
pub record Sink (S : Type 0) : Type 0 where
  pub write_u8 : ℕ → S → Option IoError × S
  pub write_u16_le : ℕ → S → Option IoError × S
  pub flush : S → Option IoError × S
  pub accepted : S → Bytes
  pub write_u8_accepted :
      (b : ℕ) (s : S) → (write_u8 b s).0 ≡ none → accepted (write_u8 b s).1 ≡ accepted s ++ b ∷ []
  pub write_u16_le_accepted :
      (v : ℕ) (s : S)
      → (write_u16_le v s).0 ≡ none
      → accepted (write_u16_le v s).1 ≡ accepted s ++ to_le_bytes 2 v
  pub flush_accepted : (s : S) → (flush s).0 ≡ none → accepted (flush s).1 ≡ accepted s

-- A call changes the sink's state, also when it fails.
abbrev pub Action : Type 0 → Type 0
Action S = S → Result (Unit {0}) × S

abbrev from_tokio : {S : Type 0} → Option IoError × S → Result (Unit {0}) × S
from_tokio (none, s) = (ok tt, s)
from_tokio (some e, s) = (err (from_io e), s)

abbrev continue : {S : Type 0} → Result (Unit {0}) × S → Action S → Result (Unit {0}) × S
continue (ok u, s) k = k s
continue (err e, s) k = (err e, s)
continue (panic, s) k = (panic, s)

infixl 5 ◌>>◌
abbrev ◌>>◌ : {S : Type 0} → Action S → Action S → Action S
◌>>◌ m k s = continue (m s) k

module _ {S : Type 0} (sink : Sink S) where
  write_byte : ℕ → Action S
  write_byte b s = from_tokio (sink.write_u8 b s)

  abbrev write_computed : Result ℕ → Action S
  write_computed (ok crc) s = from_tokio (sink.write_u16_le crc s)
  write_computed (err e) s = (err e, s)
  write_computed panic s = (panic, s)

  write_crc : Build → Bytes → Action S
  write_crc build bytes = write_computed (crc16 build bytes)

  -- The arms of the match on one byte of the data.
  write_escaped : ℕ → Action S
  unfolding write_byte
  write_escaped b =
      if b == esc_byte
      then (do write_byte esc_byte; write_byte esc_esc)
      else if b == end_byte
      then (do write_byte esc_byte; write_byte esc_end)
      else write_byte b

  write_bytes : Bytes → Action S
  unfolding write_escaped
  write_bytes [] s = (ok tt, s)
  write_bytes (b ∷ bs) s = (do write_escaped b; write_bytes bs) s

  flush : Action S
  flush s = from_tokio (sink.flush s)

  unfoldable pub write_frame : Build → Bytes → Action S
  unfolding write_byte write_bytes write_crc flush
  write_frame build bytes = do
    write_byte end_byte
    write_bytes bytes
    write_crc build bytes
    write_byte end_byte
    flush
