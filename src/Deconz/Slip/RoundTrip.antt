-- ===== src/Deconz/Slip/RoundTrip.antt =====
-- What the reader makes of the frames that the writer sends. The writer escapes the data and not
-- the checksum, so the frame comes back only if the checksum's bytes stand for themselves.
use tophamm.Base.{
  ℕ, ◌%◌, ◌/◌, ◌≡◌, ◌≢◌, refl, ap, ◌∙◌, false, List, [], ◌∷◌, ◌++◌, map, append_assoc, Bytes,
  replicate, arith,
}
use mathlib.Core.List.{map-append}
use tophamm.Base.Little.{to_le_bytes}
use tophamm.Outcome.{Build, ok}
use tophamm.Deconz.Errors.{Result}
use tophamm.Deconz.Slip.{end_byte, crc16}
use tophamm.Deconz.Slip.Reader.{
  Answer, byte, no_bytes, returned, waiting, read_loop, read_frame, check_and_remove_crc,
}
use tophamm.Deconz.Slip.Reader.Rounds.{
  read_frame-read_loop, IsClear, read_clear, read_escaped, read_end, read_start, check-to_le_bytes,
  length-check, read_no_bytes,
}
use tophamm.Deconz.Slip.Writer.{Sink, write_frame}
use tophamm.Deconz.Slip.Writer.Encoded.{escaped, slip_frame, IsAccepting, write_frame_succeeds}

-- The two bytes of the checksum.
abbrev pub low : ℕ → ℕ
low crc = crc % 256

abbrev pub high : ℕ → ℕ
high crc = crc / 256 % 256

-- Both bytes of the checksum stand for themselves.
abbrev pub IsClearCrc : ℕ → Type 0
IsClearCrc crc = IsClear (low crc) × IsClear (high crc)

read_end_append :
    (build : Build) (frame : Bytes) (b : ℕ) (rest : List Answer)
    → read_loop build (frame ++ b ∷ []) false (byte end_byte ∷ rest)
      ≡ returned (check_and_remove_crc build (frame ++ b ∷ [])) rest
read_end_append build [] b rest = read_end build b [] rest
read_end_append build (x ∷ xs) b rest = read_end build x (xs ++ b ∷ []) rest

-- The reader after the data, with the checksum and the END byte to come.
read_frame_body :
    (build : Build) (bytes : Bytes) (crc : ℕ) (rest : List Answer)
    → read_frame build (map byte (slip_frame bytes crc) ++ rest)
      ≡ read_loop build bytes false (byte (low crc) ∷ byte (high crc) ∷ byte end_byte ∷ rest)
unfolding slip_frame to_le_bytes
read_frame_body build bytes crc rest =
    read_frame-read_loop build _
    ∙ read_start build _
    ∙ rw (map-append byte (escaped bytes), append_assoc (map byte (escaped bytes)) _ rest)
        (read_escaped build [] bytes _)

pub read_frame-slip_frame :
    (build : Build) (bytes : Bytes) (crc : ℕ) (rest : List Answer)
    → crc16 build bytes ≡ ok crc
    → IsClearCrc crc
    → read_frame build (map byte (slip_frame bytes crc) ++ rest) ≡ returned (ok bytes) rest
read_frame-slip_frame build bytes crc rest e (l, h) =
    read_frame_body build bytes crc rest
    ∙ read_clear build bytes (low crc) _ l
    ∙ read_clear build (bytes ++ low crc ∷ []) (high crc) _ h
    ∙ read_end_append build (bytes ++ low crc ∷ []) (high crc) rest
    ∙ ap (λ (r : Result Bytes). returned r rest) (whole ∙ check-to_le_bytes build bytes crc e)
  where
    whole :
        check_and_remove_crc build ((bytes ++ low crc ∷ []) ++ high crc ∷ [])
        ≡ check_and_remove_crc build (bytes ++ to_le_bytes 2 crc)
    whole =
        unfold to_le_bytes in
        ap (check_and_remove_crc build) (append_assoc bytes (low crc ∷ []) (high crc ∷ []))

-- On a sink that never fails and has accepted nothing yet, when the checksum of the data is
-- computed and neither of its bytes is END or ESC, the writer succeeds, and the reader gets the
-- data back from the bytes that the sink accepted, whatever bytes the data holds, and leaves the
-- answers that follow.
pub read_frame-write_frame :
    {S : Type 0} (sink : Sink S) (build : Build) (bytes : Bytes) (crc : ℕ) (s : S)
    (rest : List Answer)
    → IsAccepting sink
    → crc16 build bytes ≡ ok crc
    → IsClearCrc crc
    → sink.accepted s ≡ []
    → ((write_frame sink build bytes s).0 ≡ ok tt)
      × (read_frame build (map byte (sink.accepted (write_frame sink build bytes s).1) ++ rest)
          ≡ returned (ok bytes) rest)
read_frame-write_frame sink build bytes crc s rest a e c start =
    let (done, sent) = write_frame_succeeds sink a build bytes crc s e in
    (done, rw (sent, start) (read_frame-slip_frame build bytes crc rest e c))

-- If the low byte of the number that stands in a frame for the checksum is END, the reader stops
-- there: data that is not empty does not come back, and the high byte and the END byte of its
-- frame are left for the next call.
pub read_frame_collision :
    (build : Build) (bytes : Bytes) (crc : ℕ) (rest : List Answer)
    → bytes ≢ []
    → low crc ≡ end_byte
    → (result : Result Bytes) × (read_frame build (map byte (slip_frame bytes crc) ++ rest)
        ≡ returned result (byte (high crc) ∷ byte end_byte ∷ rest))
      × (result ≢ ok bytes)
read_frame_collision build [] crc rest ne l = absurd (ne refl)
read_frame_collision build (b ∷ bs) crc rest ne l = (
  check_and_remove_crc build (b ∷ bs),
  read_frame_body build (b ∷ bs) crc rest ∙ rw l (read_end build b bs _),
  λ e. omega (arith, length-check build (b ∷ bs) (b ∷ bs) e),
)

-- At the end of the stream the reader never returns, neither a frame nor an error: after any
-- number of reads that answer no bytes it waits with as many zeros in its frame.
pub read_frame_no_bytes :
    (build : Build) (n : ℕ)
    → read_frame build (replicate n no_bytes) ≡ waiting (replicate n 0) false
read_frame_no_bytes build n = read_frame-read_loop build _ ∙ read_no_bytes n build []
