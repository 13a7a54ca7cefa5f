-- ===== src/Deconz/Slip/Writer/Encoded.antt =====
-- The bytes that `write_frame` hands to the sink.
use tophamm.Base.{
  Bool, true, false, ℕ, ◌==◌, ◌≡◌, refl, sym, ap, ◌∙◌, if◌then◌else◌, [], ◌∷◌, ◌++◌, append_assoc,
  append-nil, Option, none, some, Bytes,
}
use tophamm.Base.Little.{to_le_bytes}
use tophamm.Outcome.{Build, ok, err, panic}
use tophamm.Deconz.Errors.{IoError, Result}
use tophamm.Deconz.Slip.{end_byte, esc_byte, esc_end, esc_esc, crc16}
use tophamm.Deconz.Slip.Writer.{
  write_computed, Sink, Action, from_tokio, continue, ◌>>◌, write_byte, write_crc, write_escaped,
  write_bytes, flush, write_frame,
}

unfoldable pub escape : ℕ → Bytes
escape b =
    if b == esc_byte
    then esc_byte ∷ esc_esc ∷ []
    else if b == end_byte
    then esc_byte ∷ esc_end ∷ []
    else b ∷ []

unfoldable pub escaped : Bytes → Bytes
escaped [] = []
escaped (b ∷ bs) = escape b ++ escaped bs

-- A frame on the line. The checksum stands as it is.
unfoldable pub slip_frame : Bytes → ℕ → Bytes
slip_frame bytes crc = end_byte ∷ escaped bytes ++ (to_le_bytes 2 crc ++ end_byte ∷ [])

-- No call on the sink fails.
pub record IsAccepting {S : Type 0} (sink : Sink S) : Type 0 where
  pub write_u8 : (b : ℕ) (s : S) → (sink.write_u8 b s).0 ≡ none
  pub write_u16_le : (v : ℕ) (s : S) → (sink.write_u16_le v s).0 ≡ none
  pub flush : (s : S) → (sink.flush s).0 ≡ none

module _ {S : Type 0} where
  continue-ok :
      (r : Result (Unit {0}) × S) (k : Action S)
      → (continue r k).0 ≡ ok tt
      → (r.0 ≡ ok tt) × (continue r k ≡ k r.1)
  continue-ok (ok tt, s) k h = (refl, refl)
  continue-ok (err e, s) k h = cc
  continue-ok (panic, s) k h = cc

  from_tokio-ok :
      (r : Option IoError × S) → (from_tokio r).0 ≡ ok tt → (r.0 ≡ none) × ((from_tokio r).1 ≡ r.1)
  from_tokio-ok (none, s) h = (refl, refl)
  from_tokio-ok (some e, s) h = cc

  from_tokio-none : (r : Option IoError × S) → r.0 ≡ none → (from_tokio r).0 ≡ ok tt
  from_tokio-none (none, s) h = refl
  from_tokio-none (some e, s) h = cc

  continue-succeeds :
      (r : Result (Unit {0}) × S) (k : Action S)
      → r.0 ≡ ok tt
      → ((s : S) → (k s).0 ≡ ok tt)
      → (continue r k).0 ≡ ok tt
  continue-succeeds (ok tt, s) k h hk = hk s
  continue-succeeds (err e, s) k h hk = cc
  continue-succeeds (panic, s) k h hk = cc

module _ {S : Type 0} (sink : Sink S) where
  -- If the action succeeds, the sink has accepted these bytes, and nothing else, on top.
  abbrev Sends : Action S → Bytes → Type 0
  Sends m bytes = (s : S) → (m s).0 ≡ ok tt → sink.accepted (m s).1 ≡ sink.accepted s ++ bytes

  >>-Sends : (m k : Action S) (xs ys : Bytes) → Sends m xs → Sends k ys → Sends (m >> k) (xs ++ ys)
  >>-Sends m k xs ys hm hk s h =
      let (first, e) = continue-ok (m s) k h in
      let second : (k (m s).1).0 ≡ ok tt = rw e at h in
      rw e (hk (m s).1 second ∙ ap (λ (w : Bytes). w ++ ys) (hm s first) ∙ append_assoc _ xs ys)

  write_byte-Sends : (b : ℕ) → Sends (write_byte sink b) (b ∷ [])
  unfolding write_byte
  write_byte-Sends b s h =
      let (fine, e) = from_tokio-ok (sink.write_u8 b s) h in rw e (sink.write_u8_accepted b s fine)

  write_computed-Sends : (crc : ℕ) → Sends (write_computed sink (ok crc)) (to_le_bytes 2 crc)
  write_computed-Sends crc s h =
      let (fine, e) = from_tokio-ok (sink.write_u16_le crc s) h in
      rw e (sink.write_u16_le_accepted crc s fine)

  flush-Sends : Sends (flush sink) []
  unfolding flush
  flush-Sends s h =
      let (fine, e) = from_tokio-ok (sink.flush s) h in
      rw (e, append-nil) (sink.flush_accepted s fine)

  if-Sends :
      (t : Bool) (m k : Action S) (xs ys : Bytes)
      → Sends m xs
      → Sends k ys
      → Sends (if t then m else k) (if t then xs else ys)
  if-Sends true m k xs ys hm hk = hm
  if-Sends false m k xs ys hm hk = hk

  after_esc : (b : ℕ) → Sends (do write_byte sink esc_byte; write_byte sink b) (esc_byte ∷ b ∷ [])
  after_esc b =
      >>-Sends _ _ (esc_byte ∷ []) (b ∷ []) (write_byte-Sends esc_byte) (write_byte-Sends b)

  write_escaped-Sends : (b : ℕ) → Sends (write_escaped sink b) (escape b)
  unfolding write_escaped escape
  write_escaped-Sends b =
      if-Sends (b == esc_byte) _ _ _ _ (after_esc esc_esc)
        (if-Sends (b == end_byte) _ _ _ _ (after_esc esc_end) (write_byte-Sends b))

  write_bytes-Sends : (bytes : Bytes) → Sends (write_bytes sink bytes) (escaped bytes)
  unfolding write_bytes escaped
  write_bytes-Sends [] s h = sym (append-nil _)
  write_bytes-Sends (b ∷ bs) s h =
      >>-Sends (write_escaped sink b) (write_bytes sink bs) _ _ (write_escaped-Sends b)
        (write_bytes-Sends bs) s h

  write_crc-Sends :
      (build : Build) (bytes : Bytes) (crc : ℕ)
      → crc16 build bytes ≡ ok crc
      → Sends (write_crc sink build bytes) (to_le_bytes 2 crc)
  unfolding write_crc
  write_crc-Sends build bytes crc e = rw e (write_computed-Sends crc)

  -- Whenever `write_frame` succeeds on data whose checksum is computed, the sink has accepted the
  -- whole frame, and nothing else, behind what it had accepted before.
  write_frame-Sends :
      (build : Build) (bytes : Bytes) (crc : ℕ) (s : S)
      → crc16 build bytes ≡ ok crc
      → (write_frame sink build bytes s).0 ≡ ok tt
      → sink.accepted (write_frame sink build bytes s).1 ≡ sink.accepted s ++ slip_frame bytes crc
  unfolding write_frame slip_frame
  write_frame-Sends build bytes crc s e h =
      >>-Sends _ _ (end_byte ∷ []) _ (write_byte-Sends end_byte)
        (>>-Sends _ _ (escaped bytes) _ (write_bytes-Sends bytes) (
          >>-Sends _ _ (to_le_bytes 2 crc) _ (write_crc-Sends build bytes crc e)
            (>>-Sends _ _ (end_byte ∷ []) [] (write_byte-Sends end_byte) flush-Sends)))
        s h

  module _ (a : IsAccepting sink) where
    write_byte_succeeds : (b : ℕ) (s : S) → (write_byte sink b s).0 ≡ ok tt
    unfolding write_byte
    write_byte_succeeds b s = from_tokio-none (sink.write_u8 b s) (a.write_u8 b s)

    if_succeeds :
        (t : Bool) (m k : Action S) {s : S}
        → (m s).0 ≡ ok tt
        → (k s).0 ≡ ok tt
        → ((if t then m else k) s).0 ≡ ok tt
    if_succeeds true m k hm hk = hm
    if_succeeds false m k hm hk = hk

    after_esc_succeeds :
        (b : ℕ) (s : S) → ((do write_byte sink esc_byte; write_byte sink b) s).0 ≡ ok tt
    after_esc_succeeds b s =
        continue-succeeds _ (write_byte sink b) (write_byte_succeeds esc_byte s)
          (write_byte_succeeds b)

    write_escaped_succeeds : (b : ℕ) (s : S) → (write_escaped sink b s).0 ≡ ok tt
    unfolding write_escaped
    write_escaped_succeeds b s =
        if_succeeds (b == esc_byte) _ _ (after_esc_succeeds esc_esc s)
          (if_succeeds (b == end_byte) _ _ (after_esc_succeeds esc_end s) (write_byte_succeeds b s))

    write_bytes_succeeds : (bytes : Bytes) (s : S) → (write_bytes sink bytes s).0 ≡ ok tt
    unfolding write_bytes
    write_bytes_succeeds [] s = refl
    write_bytes_succeeds (b ∷ bs) s =
        continue-succeeds (write_escaped sink b s) (write_bytes sink bs)
          (write_escaped_succeeds b s) (write_bytes_succeeds bs)

    write_crc_succeeds :
        (build : Build) (bytes : Bytes) (crc : ℕ) (s : S)
        → crc16 build bytes ≡ ok crc
        → (write_crc sink build bytes s).0 ≡ ok tt
    unfolding write_crc
    write_crc_succeeds build bytes crc s e =
        rw e (from_tokio-none (sink.write_u16_le crc s) (a.write_u16_le crc s))

    flush_succeeds : (s : S) → (flush sink s).0 ≡ ok tt
    unfolding flush
    flush_succeeds s = from_tokio-none (sink.flush s) (a.flush s)

    whole_succeeds :
        (build : Build) (bytes : Bytes) (crc : ℕ) (s : S)
        → crc16 build bytes ≡ ok crc
        → (write_frame sink build bytes s).0 ≡ ok tt
    unfolding write_frame
    whole_succeeds build bytes crc s e =
        continue-succeeds (write_byte sink end_byte s) _ (write_byte_succeeds end_byte s) λ s1.
          continue-succeeds (write_bytes sink bytes s1) _ (write_bytes_succeeds bytes s1) λ s2.
            continue-succeeds (write_crc sink build bytes s2) _
              (write_crc_succeeds build bytes crc s2 e)
              λ s3.
                continue-succeeds (write_byte sink end_byte s3) _ (write_byte_succeeds end_byte s3)
                  flush_succeeds

    -- On a sink that accepts everything, `write_frame` succeeds on data whose checksum is
    -- computed, and the sink has then accepted the whole frame behind what it had accepted before.
    pub write_frame_succeeds :
        (build : Build) (bytes : Bytes) (crc : ℕ) (s : S)
        → crc16 build bytes ≡ ok crc
        → ((write_frame sink build bytes s).0 ≡ ok tt)
          × (sink.accepted (write_frame sink build bytes s).1
              ≡ sink.accepted s ++ slip_frame bytes crc)
    write_frame_succeeds build bytes crc s e =
        let done = whole_succeeds build bytes crc s e in
        (done, write_frame-Sends build bytes crc s e done)
