-- ===== src/Deconz/Slip/Reader/Unescaped.antt =====
-- The reader against a plain definition of what the bytes between two END bytes stand for.
use tophamm.Base.{
  ℕ, ◌≡◌, ◌≢◌, ◌⊎◌, sym, refl, ◌∙◌, ◌==◌, ==_iff, Bool-cases, inl, inr, true, false, List, [], ◌∷◌,
  ◌++◌, append_assoc, append-nil, map, Option, none, some, Bytes, All, arith,
}
use tophamm.Outcome.{Build, err}
use tophamm.Deconz.Types.{invalid_escape}
use tophamm.Deconz.Errors.{from_slip, Result}
use tophamm.Deconz.Slip.{end_byte, esc_byte, esc_end, esc_esc}
use tophamm.Deconz.Slip.Reader.{
  Answer, byte, returned, round, read_loop, read_frame, check_and_remove_crc,
}
use tophamm.Deconz.Slip.Reader.Rounds.{read_frame-read_loop, read_clear, read_start, read_end}

abbrev in_front : ℕ → Option Bytes → Option Bytes
in_front b none = none
in_front b (some bytes) = some (b ∷ bytes)

-- What ESC and the next byte stand for.
unfoldable pub pair : ℕ → Option ℕ
pair c = elim (c == esc_esc) [
  | true ↦ some esc_byte
  | false ↦ elim (c == esc_end) [ true ↦ some end_byte | false ↦ none ]
]

abbrev after_pair : Option ℕ → Option Bytes → Option Bytes
after_pair none rest = none
after_pair (some b) rest = in_front b rest

-- The data of bytes with no END among them, if every ESC is followed by a code.
unfoldable pub unescape : Bytes → Option Bytes
unfolding pair
unescape [] = some []
unescape (b ∷ []) = elim (b == esc_byte) [ true ↦ none | false ↦ some (b ∷ []) ]
unescape (b ∷ c ∷ rest) = elim (b == esc_byte) [
  | true ↦ after_pair (pair c) (unescape rest)
  | false ↦ in_front b (unescape (c ∷ rest))
]

unescape_plain :
    (b : ℕ) (rest : Bytes)
    → (b == esc_byte) ≡ false
    → unescape (b ∷ rest) ≡ in_front b (unescape rest)
unfolding unescape
unescape_plain b [] e = rw (e, unescape)
unescape_plain b (c ∷ rest) e = rw (e, unescape)

in_front-nonempty : (b : ℕ) (o : Option Bytes) → in_front b o ≢ some []
in_front-nonempty b none h = ground arith
in_front-nonempty b (some bytes) h = ground arith

after_pair-nonempty : (p : Option ℕ) (o : Option Bytes) → after_pair p o ≢ some []
after_pair-nonempty none o h = ground arith
after_pair-nonempty (some b) o h = in_front-nonempty b o h

unescape-nonempty : (b : ℕ) (rest : Bytes) → unescape (b ∷ rest) ≢ some []
unfolding unescape
unescape-nonempty b [] h = ground arith
unescape-nonempty b (c ∷ rest) h = elim (Bool-cases (b == esc_byte)) [
  | inl e ↦ after_pair-nonempty (pair c) (unescape rest) (sym (rw (e, unescape) refl) ∙ h)
  | inr e ↦ in_front-nonempty b (unescape (c ∷ rest)) (sym (unescape_plain b (c ∷ rest) e) ∙ h)
]

pair_end : pair end_byte ≡ none
unfolding pair
pair_end = refl

plain : (b : ℕ) → (b == esc_byte) ≡ false → b ≢ esc_byte
plain b e = ground arith

module _ (build : Build) where
  read_esc :
      (frame : Bytes) (rest : List Answer)
      → read_loop build frame false (byte esc_byte ∷ rest) ≡ read_loop build frame true rest
  unfolding read_loop round
  read_esc frame rest = refl

  read_pair :
      (frame : Bytes) (c b : ℕ) (rest : List Answer)
      → pair c ≡ some b
      → read_loop build frame true (byte c ∷ rest) ≡ read_loop build (frame ++ b ∷ []) false rest
  unfolding read_loop round pair
  read_pair frame c b rest h = ground arith

  read_no_pair :
      (frame : Bytes) (c : ℕ) (rest : List Answer)
      → pair c ≡ none
      → read_loop build frame true (byte c ∷ rest) ≡ returned (err (from_slip invalid_escape)) rest
  unfolding read_loop round pair
  read_no_pair frame c rest h = ground arith

  -- The loop over the bytes and END behaves as the plain definition says.
  abbrev Agrees : Bytes → Bytes → List Answer → Option Bytes → Type 0
  Agrees frame body rest none =
      (left : List Answer) × (read_loop build frame false (map byte body ++ byte end_byte ∷ rest)
        ≡ returned (err (from_slip invalid_escape)) left)
  Agrees frame body rest (some bytes) =
      read_loop build frame false (map byte body ++ byte end_byte ∷ rest)
      ≡ read_loop build (frame ++ bytes) false (byte end_byte ∷ rest)

  Agrees-in_front :
      (frame body tail : Bytes) (b : ℕ) (rest : List Answer) (o : Option Bytes)
      → read_loop build frame false (map byte body ++ byte end_byte ∷ rest)
        ≡ read_loop build (frame ++ b ∷ []) false (map byte tail ++ byte end_byte ∷ rest)
      → Agrees (frame ++ b ∷ []) tail rest o
      → Agrees frame body rest (in_front b o)
  Agrees-in_front frame body tail b rest none step (left, h) = (left, step ∙ h)
  Agrees-in_front frame body tail b rest (some bytes) step h = step ∙ h ∙ rw append_assoc

  Agrees-pair :
      (frame tail : Bytes) (c : ℕ) (rest : List Answer) (p : Option ℕ)
      → pair c ≡ p
      → ((f : Bytes) → Agrees f tail rest (unescape tail))
      → Agrees frame (esc_byte ∷ c ∷ tail) rest (after_pair p (unescape tail))
  Agrees-pair frame tail c rest none e h =
      (map byte tail ++ byte end_byte ∷ rest, read_esc frame _ ∙ read_no_pair frame c _ e)
  Agrees-pair frame tail c rest (some b) e h =
      Agrees-in_front frame (esc_byte ∷ c ∷ tail) tail b rest (unescape tail)
        (read_esc frame _ ∙ read_pair frame c b _ e) (h (frame ++ b ∷ []))

  Agrees-unescape :
      (frame body : Bytes) (rest : List Answer)
      → All (λ (b : ℕ). b ≢ end_byte) body
      → Agrees frame body rest (unescape body)
  unfolding unescape
  Agrees-unescape frame [] rest h = rw append-nil
  Agrees-unescape frame (b ∷ []) rest (h, u) = elim (Bool-cases (b == esc_byte)) [
    | inl e ↦
        rw ((==_iff b esc_byte).0 e)
          (rest, read_esc frame _ ∙ read_no_pair frame end_byte rest pair_end)
    | inr e ↦ rw (unescape_plain b [] e) (read_clear build frame b _ (h, plain b e))
  ]
  Agrees-unescape frame (b ∷ c ∷ tail) rest (h, (hc, hs)) = elim (Bool-cases (b == esc_byte)) [
    | inl e ↦
        rw ((==_iff b esc_byte).0 e)
          (Agrees-pair frame tail c rest (pair c) refl (λ f. Agrees-unescape f tail rest hs))
    | inr e ↦ rw (unescape_plain b (c ∷ tail) e) (
        Agrees-in_front frame (b ∷ c ∷ tail) (c ∷ tail) b rest (unescape (c ∷ tail))
          (read_clear build frame b _ (h, plain b e))
          (Agrees-unescape (frame ++ b ∷ []) (c ∷ tail) rest (hc, hs)))
  ]

  -- What is concluded from the plain definition's answer.
  unfoldable pub concluded : Option Bytes → Result Bytes
  concluded none = err (from_slip invalid_escape)
  concluded (some bytes) = check_and_remove_crc build bytes

  read_frame-concluded :
      (b : ℕ) (body : Bytes) (rest : List Answer) (o : Option Bytes)
      → unescape (b ∷ body) ≡ o
      → Agrees [] (b ∷ body) rest o
      → (left : List Answer) × (read_frame build
            (byte end_byte ∷ map byte (b ∷ body) ++ byte end_byte ∷ rest)
          ≡ returned (concluded o) left)
        × ((left ≡ rest) ⊎ (o ≡ none))
  unfolding concluded
  read_frame-concluded b body rest none e (left, h) =
      (left, read_frame-read_loop build _ ∙ read_start build _ ∙ h, inr refl)
  read_frame-concluded b body rest (some []) e h = absurd (unescape-nonempty b body e)
  read_frame-concluded b body rest (some (x ∷ xs)) e h = (
    rest,
    read_frame-read_loop build _ ∙ read_start build _ ∙ h ∙ read_end build x xs rest,
    inl refl,
  )

  -- For one or more bytes with no END among them, between two END bytes, `read_frame` returns what
  -- a plain recursive decoder says: if some ESC is not followed by one of the two codes, the error
  -- of an invalid escape; otherwise what the CRC check makes of the decoded bytes, with exactly the
  -- bytes behind the second END left on the line.
  pub read_frame-unescape :
      (b : ℕ) (body : Bytes) (rest : List Answer)
      → All (λ (c : ℕ). c ≢ end_byte) (b ∷ body)
      → (left : List Answer) × (read_frame build
            (byte end_byte ∷ map byte (b ∷ body) ++ byte end_byte ∷ rest)
          ≡ returned (concluded (unescape (b ∷ body))) left)
        × ((left ≡ rest) ⊎ (unescape (b ∷ body) ≡ none))
  read_frame-unescape b body rest h =
      read_frame-concluded b body rest (unescape (b ∷ body)) refl
        (Agrees-unescape [] (b ∷ body) rest h)
