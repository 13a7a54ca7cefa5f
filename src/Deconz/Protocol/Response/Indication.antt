-- ===== src/Deconz/Protocol/Response/Indication.antt =====
-- Reading the bytes of an indication.
use tophamm.Base.{
  ℕ, zero, ◌+◌, ◌-◌, ◌≡◌, refl, [], ◌∷◌, ◌++◌, append-nil, Bytes, length, length-append,
  take-append, drop-append, replicate, arith, IsU16, IsU64,
}
use tophamm.Deconz.Types.{DestinationAddress, ApsDataIndication, SourceAddress}
use tophamm.Deconz.Wire.Reading.{Reads, >>=-Reads, pure-Reads}
use tophamm.Deconz.Wire.External.{Byteorder}
use tophamm.Deconz.Wire.Laws.{read_u8-Reads, read_u16-Reads}
use tophamm.Deconz.Wire.Wrapped.{
  read_endpoint-Reads, read_profile_id-Reads, read_cluster_id-Reads, read_short_address-Reads,
  read_extended_address-Reads,
}
use tophamm.Deconz.Protocol.Response.{
  destination_address_of_mode, source_address_of_mode, read_buffer, read_aps_data_indication,
}
use tophamm.Deconz.Protocol.Response.Encoding.{
  mode_byte, address_bytes, source_bytes, indication_bytes, IsDestinationAddress, IsIndication,
}

no_padding : (n m k : ℕ) → n ≡ m + k → replicate (m - n) zero ≡ []
no_padding n m k e = rw nothing refl
  where
    nothing : m - n ≡ 0
    nothing = omega arith

read_buffer-Reads : (bytes : Bytes) → Reads (read_buffer (length bytes)) bytes bytes
unfolding read_buffer
read_buffer-Reads bytes = record {
  run = λ rest. rw (
    take-append bytes rest,
    drop-append bytes rest,
    no_padding (length (bytes ++ rest)) (length bytes) (length rest) (length-append bytes rest),
    append-nil,
  );
}

module _ ⦃bo : Byteorder⦄ where
  pub destination_address-Reads :
      (d : DestinationAddress)
      → IsDestinationAddress d
      → Reads (destination_address_of_mode (mode_byte d)) (address_bytes d) d
  unfolding destination_address_of_mode mode_byte address_bytes
  destination_address-Reads (DestinationAddress.group a) h =
      pure-Reads _ (read_short_address-Reads a h)
  destination_address-Reads (DestinationAddress.nwk a) h =
      pure-Reads _ (read_short_address-Reads a h)
  destination_address-Reads (DestinationAddress.ieee a) h =
      pure-Reads _ (read_extended_address-Reads a h)

  pub source_address-Reads :
      (a : SourceAddress)
      → IsU16 a.short.value
      → IsU64 a.extended.value
      → Reads (source_address_of_mode 0x4) (source_bytes a) a
  unfolding source_address_of_mode source_bytes
  source_address-Reads a hs he =
      >>=-Reads _ _ (read_short_address-Reads a.short hs)
        (pure-Reads _ (read_extended_address-Reads a.extended he))

  pub read_aps_data_indication-Reads :
      (i : ApsDataIndication)
      → IsIndication i
      → Reads read_aps_data_indication (indication_bytes i) i
  unfolding read_aps_data_indication indication_bytes
  read_aps_data_indication-Reads i h = >>=-Reads _ (_ ∷ []) (read_u8-Reads _) (
      >>=-Reads _ _ (destination_address-Reads i.destination_address h.destination_address) (
        >>=-Reads _ (_ ∷ []) (read_endpoint-Reads i.destination_endpoint) (
          >>=-Reads _ (_ ∷ []) (read_u8-Reads 0x4) (
            >>=-Reads _ _ (source_address-Reads i.source_address h.short h.extended) (
              >>=-Reads _ (_ ∷ []) (read_endpoint-Reads i.source_endpoint) (
                >>=-Reads _ _ (read_profile_id-Reads i.profile_id h.profile_id) (
                  >>=-Reads _ _ (read_cluster_id-Reads i.cluster_id h.cluster_id) (
                    >>=-Reads _ _ (read_u16-Reads _ h.asdu) (
                      pure-Reads (λ asdu. record i { asdu = asdu })
                        (read_buffer-Reads i.asdu))))))))))
