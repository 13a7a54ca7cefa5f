-- ===== src/Zdo/Protocol/Reserved.antt =====
-- Table responses with a neighbour whose relationship is none that the code knows.
use tophamm.Base.{
  IsU8, ltb, true, ◌&&◌, if◌then◌else◌, ◌==◌, append_assoc, ℕ, ◌≡◌, refl, ◌/◌, ◌<◌, zero, suc,
  bit_and, List, [], ◌∷◌, ◌++◌, Bytes, length, All, arith,
}
use tophamm.Base.Table.{holds_below, holds_below_sound}
use tophamm.Base.Little.{to_le_bytes}
use tophamm.Outcome.{ok, panic}
use tophamm.Deconz.Wire.Reading.{Read, Reads, >>=-after, ◌>>=◌}
use tophamm.Deconz.Wire.External.{Byteorder}
use tophamm.Deconz.Wire.Laws.{read_u8-Reads, read_u64-Reads}
use tophamm.Deconz.Wire.Wrapped.{read_short_address-Reads, read_extended_address-Reads}
use tophamm.Zdo.Errors.{Error}
use tophamm.Zdo.Protocol.{
  DeviceType, RxOnWhileIdle, Neighbor, MgmtLqiResponse, device_type_of_bits,
  rx_on_while_idle_of_bits, relationship_of_bits, read_list, read_neighbor, read_mgmt_lqi_response,
}
use tophamm.Zdo.Protocol.Encoding.{concat, neighbor_bytes, IsNeighbor}
use tophamm.Zdo.Protocol.RoundTrip.{field-Reads, lift-Reads, read_neighbor-Reads}

abbrev type_of : ℕ → DeviceType
type_of bits =
    if bits == 0
    then DeviceType.coordinator
    else if bits == 1
    then DeviceType.router
    else if bits == 2
    then DeviceType.end_device
    else DeviceType.unknown

-- The fields of two bits are below four.
fields_table : holds_below 256 (λ b. ltb (bit_and b 0b11) 4 && ltb (bit_and (b / 4) 0b11) 4) ≡ true
unfolding holds_below
fields_table = refl

fields_fit : (byte : ℕ) → IsU8 byte → (bit_and byte 0b11 < 4) × (bit_and (byte / 4) 0b11 < 4)
fields_fit byte h =
    let e = holds_below_sound 256 _ byte fields_table h in (ground (arith, e), ground (arith, e))

device_type_known :
    (byte : ℕ)
    → bit_and byte 0b11 < 4
    → device_type_of_bits (bit_and byte 0b11) ≡ ok (type_of (bit_and byte 0b11))
unfolding device_type_of_bits
device_type_known byte h = ground arith

abbrev idle_of : ℕ → RxOnWhileIdle
idle_of bits =
    if bits == 0
    then RxOnWhileIdle.off
    else if bits == 1
    then RxOnWhileIdle.on
    else RxOnWhileIdle.unknown

rx_on_while_idle_known :
    (bits : ℕ)
    → bit_and bits 0b11 < 4
    → rx_on_while_idle_of_bits (bit_and bits 0b11) ≡ ok (idle_of (bit_and bits 0b11))
unfolding rx_on_while_idle_of_bits
rx_on_while_idle_known bits h = ground arith

relationship_unknown :
    (byte : ℕ)
    → 4 < bit_and (byte / 16) 0b111
    → relationship_of_bits (bit_and (byte / 16) 0b111) ≡ panic
unfolding relationship_of_bits
relationship_unknown byte h = ground arith

read_list_panics :
    {A : Type 0} (m : Read Error A) (f : A → Bytes) (P : A → Type 0) (count : ℕ) (xs : List A)
    (rest : Bytes)
    → ((x : A) → P x → Reads m (f x) x)
    → All P xs
    → length xs < count
    → m rest ≡ panic
    → read_list count m (concat f xs ++ rest) ≡ panic
unfolding read_list concat
read_list_panics m f P zero xs rest h hs l e = ground arith
read_list_panics m f P (suc count) [] rest h hs l e = rw (e, ◌>>=◌) refl
read_list_panics m f P (suc count) (x ∷ xs) rest h (hx, hs) l e = rw append_assoc (
    >>=-after _ (f x) _ (h x hx)
      (rw (read_list_panics m f P count xs rest h hs (omega arith) e, ◌>>=◌) refl))

-- A neighbour up to the byte of its bit fields, and what follows in place of the rest.
unfoldable pub reserved_bytes : Neighbor → ℕ → Bytes → Bytes
reserved_bytes n byte rest =
    to_le_bytes 8 n.extended_pan_id
    ++ (to_le_bytes 8 n.extended_address.value
        ++ (to_le_bytes 2 n.network_address.value ++ byte ∷ rest))

module _ ⦃bo : Byteorder⦄ where
  read_neighbor_reserved :
      (n : Neighbor) (byte : ℕ) (rest : Bytes)
      → IsNeighbor n
      → IsU8 byte
      → 4 < bit_and (byte / 16) 0b111
      → read_neighbor (reserved_bytes n byte rest) ≡ panic
  unfolding read_neighbor reserved_bytes
  read_neighbor_reserved n byte rest h b l =
      >>=-after _ _ _ (field-Reads (read_u64-Reads n.extended_pan_id h.extended_pan_id)) (
        >>=-after _ _ _
          (field-Reads (read_extended_address-Reads n.extended_address h.extended_address))
          (>>=-after _ _ _
            (field-Reads (read_short_address-Reads n.network_address h.network_address))
            (>>=-after _ (_ ∷ []) _ (field-Reads (read_u8-Reads byte)) (
              >>=-after _ [] _ (lift-Reads (device_type_known byte (fields_fit byte b).0)) (
                >>=-after _ [] _
                  (lift-Reads (rx_on_while_idle_known (byte / 4) (fields_fit byte b).1))
                  (rw (relationship_unknown byte l, ◌>>=◌) refl))))))

  -- A table response panics the reader when, among the neighbours that it counts, one has a
  -- relationship of 5, 6 or 7 behind neighbours that are read, whatever stands behind it.
  pub read_mgmt_lqi_response_reserved :
      (r : MgmtLqiResponse) (count : ℕ) (n : Neighbor) (byte : ℕ) (rest : Bytes)
      → All IsNeighbor r.neighbor_table_list
      → length r.neighbor_table_list < count
      → IsNeighbor n
      → IsU8 byte
      → 4 < bit_and (byte / 16) 0b111
      → read_mgmt_lqi_response (
          r.status
            ∷ r.neighbor_table_entries
            ∷ r.start_index
            ∷ count
            ∷ concat neighbor_bytes r.neighbor_table_list
          ++ reserved_bytes n byte rest)
        ≡ panic
  unfolding read_mgmt_lqi_response
  read_mgmt_lqi_response_reserved r count n byte rest hs l h b k =
      >>=-after _ (_ ∷ []) _ (field-Reads (read_u8-Reads r.status)) (
        >>=-after _ (_ ∷ []) _ (field-Reads (read_u8-Reads r.neighbor_table_entries)) (
          >>=-after _ (_ ∷ []) _ (field-Reads (read_u8-Reads r.start_index)) (
            >>=-after _ (_ ∷ []) _ (field-Reads (read_u8-Reads count)) (
              rw
                (
                  read_list_panics read_neighbor neighbor_bytes IsNeighbor count
                      r.neighbor_table_list (reserved_bytes n byte rest) read_neighbor-Reads hs l
                      (read_neighbor_reserved n byte rest h b k),
                  ◌>>=◌,
                )
                refl))))
