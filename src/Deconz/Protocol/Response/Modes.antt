-- ===== src/Deconz/Protocol/Response/Modes.antt =====
-- Modes of addresses that the code does not know.
use tophamm.Base.{◌≢◌, IsU16, ℕ, ◌+◌, ◌^◌, ◌<◌, ◌≡◌, refl, [], ◌∷◌, ◌++◌, Bytes, length, arith}
use tophamm.Base.Little.{to_le_bytes}
use tophamm.Outcome.{Build, panic}
use tophamm.Deconz.Types.{DeviceState, DestinationAddress, CommandId}
use tophamm.Deconz.Wire.Reading.{>>=-after, ◌>>=◌}
use tophamm.Deconz.Wire.External.{Byteorder}
use tophamm.Deconz.Wire.Laws.{read_u8-Reads, read_u16-Reads}
use tophamm.Deconz.Wire.Wrapped.{read_endpoint-Reads}
use tophamm.Deconz.Protocol.Response.Indication.{destination_address-Reads}
use tophamm.Deconz.Protocol.Response.Encoding.{IsDestinationAddress, mode_byte, address_bytes}
use tophamm.Deconz.Protocol.Fields.State.{state_byte, read_device_state-Reads}
use tophamm.Deconz.Protocol.Fields.Address.{read_destination_unknown}
use tophamm.Deconz.Protocol.Response.{
  read_aps_data_confirm, destination_address_of_mode, source_address_of_mode,
  read_aps_data_indication, read_response, from_frame,
}
use tophamm.Deconz.Protocol.Response.Framed.{frame_of, from_frame-frame_of}

-- A payload with a mode that stands for no address: in a confirm, or in an indication for its
-- destination or for its source.
pub data Unknown : Type 0 where
  in_confirm : DeviceState → ℕ → ℕ → Bytes → Unknown
  in_destination : DeviceState → ℕ → Bytes → Unknown
  in_source : DeviceState → DestinationAddress → ℕ → ℕ → Bytes → Unknown

unfoldable pub unknown_command : Unknown → CommandId
unknown_command (in_confirm s request_id mode rest) = CommandId.aps_data_confirm
unknown_command (in_destination s mode rest) = CommandId.aps_data_indication
unknown_command (in_source s d endpoint mode rest) = CommandId.aps_data_indication

unfoldable pub unknown_bytes : Unknown → Bytes
unknown_bytes (in_confirm s request_id mode rest) = state_byte s ∷ request_id ∷ mode ∷ rest
unknown_bytes (in_destination s mode rest) = state_byte s ∷ mode ∷ rest
unknown_bytes (in_source s d endpoint mode rest) =
    state_byte s ∷ mode_byte d ∷ address_bytes d ++ endpoint ∷ mode ∷ rest

abbrev pub IsUnknown : Unknown → Type 0
IsUnknown (in_confirm s request_id mode rest) = (mode ≢ 0x1) × (mode ≢ 0x2) × (mode ≢ 0x3)
IsUnknown (in_destination s mode rest) = (mode ≢ 0x1) × (mode ≢ 0x2) × (mode ≢ 0x3)
IsUnknown (in_source s d endpoint mode rest) = IsDestinationAddress d × (mode ≢ 0x4)

module _ ⦃bo : Byteorder⦄ where
  read_confirm_unknown :
      (mode : ℕ) (rest : Bytes)
      → (mode ≢ 0x1) × (mode ≢ 0x2) × (mode ≢ 0x3)
      → read_aps_data_confirm (mode ∷ rest) ≡ panic
  unfolding read_aps_data_confirm
  read_confirm_unknown mode rest h = rw (read_destination_unknown mode rest h, ◌>>=◌) refl

  read_destination_address_unknown :
      (mode : ℕ) (rest : Bytes)
      → (mode ≢ 0x1) × (mode ≢ 0x2) × (mode ≢ 0x3)
      → read_aps_data_indication (mode ∷ rest) ≡ panic
  unfolding read_aps_data_indication destination_address_of_mode
  read_destination_address_unknown mode rest (h, k, l) =
      >>=-after _ (mode ∷ []) rest (read_u8-Reads mode) (ground arith)

  read_source_unknown :
      (d : DestinationAddress) (endpoint mode : ℕ) (rest : Bytes)
      → IsDestinationAddress d
      → mode ≢ 0x4
      → read_aps_data_indication (mode_byte d ∷ address_bytes d ++ endpoint ∷ mode ∷ rest) ≡ panic
  unfolding read_aps_data_indication source_address_of_mode
  read_source_unknown d endpoint mode rest h k = >>=-after _ (_ ∷ []) _ (read_u8-Reads _) (
      >>=-after _ _ _ (destination_address-Reads d h) (
        >>=-after _ (endpoint ∷ []) _ (read_endpoint-Reads (record { value = endpoint }))
          (>>=-after _ (mode ∷ []) rest (read_u8-Reads mode) (ground arith))))

  read_response-unknown :
      (u : Unknown) (payload_len : ℕ)
      → IsUnknown u
      → IsU16 payload_len
      → read_response (unknown_command u) (to_le_bytes 2 payload_len ++ unknown_bytes u) ≡ panic
  unfolding read_response unknown_command unknown_bytes
  read_response-unknown (in_confirm s request_id mode rest) n h k =
      >>=-after _ _ _ (read_u16-Reads n k) (
        >>=-after _ (_ ∷ []) _ (read_device_state-Reads s) (
          >>=-after _ (request_id ∷ []) _ (read_u8-Reads request_id)
            (rw (read_confirm_unknown mode rest h, ◌>>=◌) refl)))
  read_response-unknown (in_destination s mode rest) n h k = >>=-after _ _ _ (read_u16-Reads n k) (
      >>=-after _ (_ ∷ []) _ (read_device_state-Reads s)
        (rw (read_destination_address_unknown mode rest h, ◌>>=◌) refl))
  read_response-unknown (in_source s d endpoint mode rest) n (h, l) k =
      >>=-after _ _ _ (read_u16-Reads n k) (
        >>=-after _ (_ ∷ []) _ (read_device_state-Reads s)
          (rw (read_source_unknown d endpoint mode rest h l, ◌>>=◌) refl))

  -- In both build profiles, a frame with its right length panics the decoder when the mode of an
  -- address in it is none that the code knows: in a confirm, or in an indication for its
  -- destination or for its source, whatever stands behind the mode.
  pub from_frame-unknown :
      (build : Build) (seq status payload_len : ℕ) (u : Unknown)
      → IsUnknown u
      → IsU16 payload_len
      → length (to_le_bytes 2 payload_len ++ unknown_bytes u) + 5 < 2 ^ 16
      → from_frame build
          (frame_of (unknown_command u) seq status (to_le_bytes 2 payload_len ++ unknown_bytes u))
        ≡ panic
  from_frame-unknown build seq status payload_len u h k fits =
      from_frame-frame_of build (unknown_command u) seq status _ fits
        (read_response-unknown u payload_len h k)
