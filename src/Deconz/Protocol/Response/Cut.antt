-- ===== src/Deconz/Protocol/Response/Cut.antt =====
-- An indication that is cut short.
use tophamm.Base.{
  IsU16, take_long, drop_long, ℕ, ◌+◌, ◌-◌, ◌^◌, ◌<◌, ◌≡◌, refl, [], ◌∷◌, ◌++◌, Bytes, length,
  length-append, take, drop, replicate, arith,
}
use tophamm.Base.Little.{to_le_bytes}
use tophamm.Outcome.{Build, ok}
use tophamm.Deconz.Types.{DeviceState, CommandId, ApsDataIndication}
use tophamm.Deconz.Wire.Reading.{>>=-after, ◌>>=◌}
use tophamm.Deconz.Wire.External.{Byteorder}
use tophamm.Deconz.Wire.Laws.{read_u8-Reads, read_u16-Reads}
use tophamm.Deconz.Wire.Wrapped.{read_endpoint-Reads, read_profile_id-Reads, read_cluster_id-Reads}
use tophamm.Deconz.Protocol.Response.Indication.{destination_address-Reads, source_address-Reads}
use tophamm.Deconz.Protocol.Response.Encoding.{mode_byte, address_bytes, source_bytes, IsIndication}
use tophamm.Deconz.Protocol.Fields.State.{state_byte, read_device_state-Reads}
use tophamm.Deconz.Protocol.Response.{
  Response, read_buffer, read_aps_data_indication, read_response, from_frame,
}
use tophamm.Deconz.Protocol.Response.Framed.{frame_of, from_frame-frame_of}

-- What `read_buffer` makes of an input that is too short.
filled :
    (cut lost : Bytes)
    → take (length (cut ++ lost)) cut ++ replicate (length (cut ++ lost) - length cut) 0
      ≡ cut ++ replicate (length lost) 0
filled cut lost =
    rw (take_long (length (cut ++ lost)) cut (omega (arith, length-append cut lost)), left) refl
  where
    left : length (cut ++ lost) - length cut ≡ length lost
    left = omega (arith, length-append cut lost)

emptied : (cut lost : Bytes) → drop (length (cut ++ lost)) cut ≡ []
emptied cut lost = drop_long (length (cut ++ lost)) cut (omega (arith, length-append cut lost))

-- The bytes of an indication, of whose data only the front is there.
unfoldable pub cut_bytes : ApsDataIndication → Bytes → Bytes
cut_bytes i cut =
    mode_byte i.destination_address ∷ address_bytes i.destination_address
    ++ (i.destination_endpoint.value ∷ 0x4 ∷ source_bytes i.source_address
        ++ (i.source_endpoint.value ∷ to_le_bytes 2 i.profile_id.value
            ++ (to_le_bytes 2 i.cluster_id.value ++ (to_le_bytes 2 (length i.asdu) ++ cut))))

unfoldable pub cut_body : ℕ → DeviceState → ApsDataIndication → Bytes → Bytes
cut_body payload_len s i cut = to_le_bytes 2 payload_len ++ state_byte s ∷ cut_bytes i cut

module _ ⦃bo : Byteorder⦄ where
  read_aps_data_indication-cut :
      (i : ApsDataIndication) (cut lost : Bytes)
      → IsIndication i
      → i.asdu ≡ cut ++ lost
      → read_aps_data_indication (cut_bytes i cut)
        ≡ ok (record i { asdu = cut ++ replicate (length lost) 0 }, [])
  unfolding read_aps_data_indication read_buffer cut_bytes
  read_aps_data_indication-cut i cut lost h e = >>=-after _ (_ ∷ []) _ (read_u8-Reads _) (
      >>=-after _ _ _ (destination_address-Reads i.destination_address h.destination_address) (
        >>=-after _ (_ ∷ []) _ (read_endpoint-Reads i.destination_endpoint) (
          >>=-after _ (_ ∷ []) _ (read_u8-Reads 0x4) (
            >>=-after _ _ _ (source_address-Reads i.source_address h.short h.extended) (
              >>=-after _ (_ ∷ []) _ (read_endpoint-Reads i.source_endpoint) (
                >>=-after _ _ _ (read_profile_id-Reads i.profile_id h.profile_id) (
                  >>=-after _ _ _ (read_cluster_id-Reads i.cluster_id h.cluster_id) (
                    >>=-after _ _ cut (read_u16-Reads _ h.asdu)
                      (rw (e, ◌>>=◌) (rw (filled cut lost, emptied cut lost) refl))))))))))

  read_response-cut_body :
      (payload_len : ℕ) (s : DeviceState) (i : ApsDataIndication) (cut lost : Bytes)
      → IsU16 payload_len
      → IsIndication i
      → i.asdu ≡ cut ++ lost
      → read_response CommandId.aps_data_indication (cut_body payload_len s i cut)
        ≡ ok (
          Response.aps_data_indication s (record i { asdu = cut ++ replicate (length lost) 0 }),
          [],
        )
  unfolding read_response cut_body
  read_response-cut_body payload_len s i cut lost hp h e =
      >>=-after _ _ _ (read_u16-Reads payload_len hp) (
        >>=-after _ (_ ∷ []) _ (read_device_state-Reads s)
          (rw (read_aps_data_indication-cut i cut lost h e, ◌>>=◌) refl))

  -- In both build profiles, a frame with its right length that carries an indication of which only
  -- a front of the data is there, while the length in front of the data is that of the whole, is
  -- accepted, whatever payload length it states: the missing bytes are read as zeros.
  pub from_frame-cut_body :
      (build : Build) (seq status payload_len : ℕ) (s : DeviceState) (i : ApsDataIndication)
      (cut lost : Bytes)
      → IsU16 payload_len
      → IsIndication i
      → i.asdu ≡ cut ++ lost
      → length (cut_body payload_len s i cut) + 5 < 2 ^ 16
      → from_frame build
          (frame_of CommandId.aps_data_indication seq status (cut_body payload_len s i cut))
        ≡ ok (Response.aps_data_indication s (record i { asdu = cut ++ replicate (length lost) 0 }))
  from_frame-cut_body build seq status payload_len s i cut lost hp h e fits =
      from_frame-frame_of build CommandId.aps_data_indication seq status
        (cut_body payload_len s i cut) fits (read_response-cut_body payload_len s i cut lost hp h e)
