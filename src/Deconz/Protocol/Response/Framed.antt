-- ===== src/Deconz/Protocol/Response/Framed.antt =====
-- The decoding of a frame of the right length, from that of its body.
use tophamm.Base.{
  ℕ, ◌+◌, ◌^◌, ◌<◌, ◌≡◌, ◌∙◌, ap, [], ◌∷◌, ◌++◌, Bytes, length, length-append, arith,
}
use tophamm.Base.Little.{to_le_bytes, length-to_le_bytes}
use tophamm.Outcome
use tophamm.Outcome.{Outcome, Build, ok, panic}
use tophamm.Deconz.Types.{CommandId}
use tophamm.Deconz.Errors.{Error, Result}
use tophamm.Deconz.Wire.Reading.{>>=-after}
use tophamm.Deconz.Wire.External.{Byteorder}
use tophamm.Deconz.Wire.Laws.{read_u8-Reads, read_u16-Reads}
use tophamm.Deconz.Protocol.Command.{command_byte}
use tophamm.Deconz.Protocol.Command.Bytes.{read_command_id-Reads}
use tophamm.Deconz.Protocol.Response.{Response, read_response, read_frame, from_frame}
use tophamm.Deconz.Protocol.Response.Decoding.{check_len-frame}

-- A frame around any body, with the length that it has.
unfoldable pub frame_of : CommandId → ℕ → ℕ → Bytes → Bytes
frame_of command sequence_id status body =
    command_byte command ∷ sequence_id ∷ status ∷ to_le_bytes 2 (length body + 5) ++ body

length-frame_of :
    (c : CommandId) (seq status : ℕ) (body : Bytes)
    → length (frame_of c seq status body) ≡ length body + 5
unfolding frame_of
length-frame_of c seq status body = omega (
  arith,
  length-append (to_le_bytes 2 (length body + 5)) body,
  length-to_le_bytes 2 (length body + 5),
)

module _ ⦃bo : Byteorder⦄ where
  read_frame-frame_of :
      (build : Build) (c : CommandId) (seq status : ℕ) (body : Bytes)
      {o : Outcome Error (Response × Bytes)}
      → length body + 5 < 2 ^ 16
      → read_response c body ≡ o
      → read_frame build (length body + 5) (frame_of c seq status body) ≡ o
  unfolding read_frame frame_of
  read_frame-frame_of build c seq status body h e =
      >>=-after _ (_ ∷ []) _ (read_command_id-Reads c) (
        >>=-after _ (seq ∷ []) _ (read_u8-Reads seq) (
          >>=-after _ (status ∷ []) _ (read_u8-Reads status) (
            >>=-after _ _ body (read_u16-Reads _ h)
              (>>=-after _ [] body (check_len-frame build (length body)) e))))

  -- The decoding of a frame is that of its body.
  pub from_frame-frame_of :
      (build : Build) (c : CommandId) (seq status : ℕ) (body : Bytes)
      {o : Outcome Error (Response × Bytes)}
      → length body + 5 < 2 ^ 16
      → read_response c body ≡ o
      → from_frame build (frame_of c seq status body)
        ≡ Outcome.◌>>=◌ o (λ (p : Response × Bytes). ok p.0)
  unfolding from_frame
  from_frame-frame_of build c seq status body h e =
      ap (λ (x : Result (Response × Bytes)). Outcome.◌>>=◌ x (λ (p : Response × Bytes). ok p.0))
        (ap (λ n. read_frame build n (frame_of c seq status body))
            (length-frame_of c seq status body)
          ∙ read_frame-frame_of build c seq status body h e)
