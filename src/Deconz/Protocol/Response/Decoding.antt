-- ===== src/Deconz/Protocol/Response/Decoding.antt =====
-- `from_frame` takes back every response that the adapter sends.
use tophamm.Base.{
  ℕ, ◌+◌, ◌^◌, ◌<◌, ◌≡◌, ◌≢◌, inl, inr, refl, [], ◌∷◌, append-nil, Bytes, length, length-append,
  IsU16, arith, ap,
}
use tophamm.Base.Little.{to_le_bytes, length-to_le_bytes}
use tophamm.Outcome
use tophamm.Outcome.{Build, debug, release, ok, err}
use tophamm.Deconz.Types.{CommandId, ApsDataConfirm}
use tophamm.Deconz.Errors.{Error, Result, error, unsupported_command}
use tophamm.Deconz.Wire.Reading.{Read, Reads, >>=-Reads, pure-Reads, ◌>>=◌}
use tophamm.Deconz.Wire.External.{Byteorder}
use tophamm.Deconz.Wire.{read_u16}
use tophamm.Deconz.Wire.Laws.{read_u8-Reads, read_u16-Reads}
use tophamm.Deconz.Wire.Wrapped.{read_endpoint-Reads}
use tophamm.Deconz.Parameters.{id}
use tophamm.Deconz.Parameters.RoundTrip.{read_parameter-Reads}
use tophamm.Deconz.Parameters.Identifier.{read_parameter_id-Reads}
use tophamm.Deconz.Protocol.Command.Bytes.{read_command_id-Reads, read_command_id_lem}
use tophamm.Deconz.Protocol.Command.{command_byte}
use tophamm.Deconz.Protocol.Fields.Firmware.{read_platform-Reads, read_version-Reads}
use tophamm.Deconz.Protocol.Fields.State.{read_device_state-Reads}
use tophamm.Deconz.Protocol.Fields.Address.{read_destination-Reads, IsDestination}
use tophamm.Deconz.Protocol.Response.{
  Response, command_id, check_len, read_aps_data_confirm, read_response, read_frame, from_frame,
}
use tophamm.Deconz.Protocol.Response.Encoding.{
  confirm_bytes, counted, response_body, response_frame, IsFields, IsResponse,
}
use tophamm.Deconz.Protocol.Response.Indication.{read_aps_data_indication-Reads}

pub check_len-frame : (build : Build) (n : ℕ) → Reads (check_len build (n + 5) (n + 5)) [] tt
unfolding check_len
check_len-frame release n = record { run = λ rest. refl }
check_len-frame debug n = record { run = λ rest. ground arith }

counted_fits : (bytes : Bytes) → length (counted bytes) + 5 < 2 ^ 16 → IsU16 (length bytes)
counted_fits bytes n = omega (arith, length-append (to_le_bytes 2 (length bytes)) bytes)

module _ ⦃bo : Byteorder⦄ where
  read_aps_data_confirm-Reads :
      (c : ApsDataConfirm)
      → IsDestination c.destination
      → Reads read_aps_data_confirm (confirm_bytes c) c
  unfolding read_aps_data_confirm confirm_bytes
  read_aps_data_confirm-Reads c h = >>=-Reads _ _ (read_destination-Reads c.destination h) (
      >>=-Reads _ (_ ∷ []) (read_endpoint-Reads c.source_endpoint)
        (pure-Reads (λ status. record c { status = status }) (read_u8-Reads c.status)))

  counted-Reads :
      {A : Type 0} (m : Read Error A) (bytes : Bytes) {a : A}
      → length (counted bytes) + 5 < 2 ^ 16
      → Reads m bytes a
      → Reads (do _ ← read_u16; m) (counted bytes) a
  counted-Reads m bytes n r = >>=-Reads _ _ (read_u16-Reads _ (counted_fits bytes n)) r

  read_response-Reads :
      (r : Response)
      → IsFields r
      → length (response_body r) + 5 < 2 ^ 16
      → Reads (read_response (command_id r)) (response_body r) r
  unfolding read_response command_id response_body
  read_response-Reads (Response.version v p) h n =
      >>=-Reads _ (_ ∷ []) (read_platform-Reads p h) (pure-Reads _ (read_version-Reads v))
  read_response-Reads (Response.parameter p) h n = counted-Reads _ _ n (
      >>=-Reads _ (_ ∷ []) (read_parameter_id-Reads (id p))
        (pure-Reads _ (read_parameter-Reads p h)))
  read_response-Reads (Response.write_parameter p) h n =
      counted-Reads _ _ n (pure-Reads _ (read_parameter_id-Reads p))
  read_response-Reads (Response.device_state s) h n = pure-Reads _ (read_device_state-Reads s)
  read_response-Reads (Response.device_state_changed s) h n =
      pure-Reads _ (read_device_state-Reads s)
  read_response-Reads (Response.aps_data_indication s i) h n = counted-Reads _ _ n (
      >>=-Reads _ (_ ∷ []) (read_device_state-Reads s)
        (pure-Reads _ (read_aps_data_indication-Reads i h)))
  read_response-Reads (Response.aps_data_request s i) h n =
      counted-Reads _ _ n
        (>>=-Reads _ (_ ∷ []) (read_device_state-Reads s) (pure-Reads _ (read_u8-Reads i)))
  read_response-Reads (Response.aps_data_confirm s i c) h n = counted-Reads _ _ n (
      >>=-Reads _ (_ ∷ []) (read_device_state-Reads s)
        (>>=-Reads _ (_ ∷ []) (read_u8-Reads i) (pure-Reads _ (read_aps_data_confirm-Reads c h))))
  read_response-Reads (Response.mac_poll a) h n =
      counted-Reads _ _ n
        (>>=-Reads _ (0x2 ∷ []) (read_u8-Reads 0x2) (pure-Reads _ (read_u16-Reads a h)))

  read_frame-Reads :
      (build : Build) (r : Response) (seq status : ℕ)
      → IsResponse r
      → Reads (read_frame build (length (response_body r) + 5)) (response_frame r seq status) r
  unfolding read_frame response_frame
  read_frame-Reads build r seq status h =
      >>=-Reads _ (_ ∷ []) (read_command_id-Reads (command_id r)) (
        >>=-Reads _ (seq ∷ []) (read_u8-Reads seq) (
          >>=-Reads _ (status ∷ []) (read_u8-Reads status) (
            >>=-Reads _ _ (read_u16-Reads _ h.fits) (
              >>=-Reads _ [] (check_len-frame build (length (response_body r)))
                (read_response-Reads r h.fields h.fits)))))

  length-response_frame :
      (r : Response) (seq status : ℕ)
      → length (response_frame r seq status) ≡ length (response_body r) + 5
  unfolding response_frame
  length-response_frame r seq status = omega (
    arith,
    length-append (to_le_bytes 2 (length (response_body r) + 5)) (response_body r),
    length-to_le_bytes 2 (length (response_body r) + 5),
  )

  whole_frame :
      (build : Build) (r : Response) (seq status : ℕ)
      → IsResponse r
      → read_frame build (length (response_frame r seq status)) (response_frame r seq status)
        ≡ ok (r, [])
  whole_frame build r seq status h =
      rw (length-response_frame r seq status)
        (rw append-nil at ((read_frame-Reads build r seq status h).run []))

  -- In both build profiles, the frame in which the adapter sends a response, with any sequence
  -- number and status, is read back as that response, when its numbers fit their types and the
  -- frame is shorter than 65536 bytes.
  pub from_frame-response_frame :
      (build : Build) (r : Response) (seq status : ℕ)
      → IsResponse r
      → from_frame build (response_frame r seq status) ≡ ok r
  unfolding from_frame
  from_frame-response_frame build r seq status h =
      ap (λ (x : Result (Response × Bytes)). Outcome.◌>>=◌ x (λ (p : Response × Bytes). ok p.0))
        (whole_frame build r seq status h)

  -- A frame whose first byte stands for no command is an unsupported command, whatever follows.
  pub from_frame_unsupported :
      (build : Build) (b : ℕ) (rest : Bytes)
      → ((c : CommandId) → command_byte c ≢ b)
      → from_frame build (b ∷ rest) ≡ err (error (unsupported_command b))
  unfolding from_frame read_frame
  from_frame_unsupported build b rest h = elim (read_command_id_lem b rest) [
    | inl (c, e, r) ↦ absurd (h c e)
    | inr (n, e) ↦ rw e
  ]
