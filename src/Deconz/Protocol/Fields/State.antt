-- ===== src/Deconz/Protocol/Fields/State.antt =====
-- The device state in its byte: two bits of the network state and four flags.
use tophamm.Base.{
  [], ℕ, ◌+◌, ◌*◌, ◌%◌, ◌≡◌, refl, Bool, true, false, ◌∷◌, ◌==◌, ==_iff, IsU8, Bytes, arith,
}
use tophamm.Base.Table.{holds_below, holds_below_sound}
use tophamm.Outcome.{ok, err, panic}
use tophamm.Deconz.Types.{DeviceState, NetworkState, offline, joining, connected, leaving}
use tophamm.Deconz.Errors.{Result}
use tophamm.Deconz.Wire.Reading.{Reads}
use tophamm.Deconz.Wire.External.{Byteorder}
use tophamm.Deconz.Wire.Laws.{read_u8-Reads}
use tophamm.Deconz.Protocol.Fields.{device_state_of_byte, read_device_state}

abbrev bit : Bool → ℕ
bit false = 0
bit true = 1

abbrev network_bits : NetworkState → ℕ
network_bits offline = 0
network_bits joining = 1
network_bits connected = 2
network_bits leaving = 3

abbrev pack : NetworkState → Bool → Bool → Bool → Bool → ℕ
pack n confirm indication free changed =
    network_bits n + 4 * bit confirm + 8 * bit indication + 16 * bit changed + 32 * bit free

-- The byte in which the adapter sends a device state: the network state in bits 0 and 1, then the
-- confirm flag in bit 2, the indication flag in bit 3, the change flag in bit 4 and the free slots
-- flag in bit 5.
unfoldable pub state_byte : DeviceState → ℕ
state_byte s =
    pack s.network_state s.data_confirm s.data_indication s.data_request_free_slots
      s.configuration_changed

device_state_of_byte-pack :
    (n : NetworkState) (confirm indication free changed : Bool)
    → device_state_of_byte (pack n confirm indication free changed)
      ≡ ok (record {
        network_state = n;
        data_confirm = confirm;
        data_indication = indication;
        data_request_free_slots = free;
        configuration_changed = changed;
      })
unfolding device_state_of_byte
device_state_of_byte-pack offline c i f g = ground arith
device_state_of_byte-pack joining c i f g = ground arith
device_state_of_byte-pack connected c i f g = ground arith
device_state_of_byte-pack leaving c i f g = ground arith

pub device_state_of_byte-state_byte : (s : DeviceState) → device_state_of_byte (state_byte s) ≡ ok s
unfolding state_byte
device_state_of_byte-state_byte s = device_state_of_byte-pack _ _ _ _ _

pack-lt : (n : NetworkState) (c i f g : Bool) → IsU8 (pack n c i f g)
pack-lt n c i f g = ground arith

pub state_byte-lt : (s : DeviceState) → IsU8 (state_byte s)
unfolding state_byte
state_byte-lt s = pack-lt _ _ _ _ _

-- The decoded state packs into the byte's six low bits.
abbrev repacks : Result DeviceState → ℕ → Bool
repacks (ok s) b = state_byte s == b % 64
repacks (err e) b = false
repacks panic b = false

repacks_table : holds_below 256 (λ b. repacks (device_state_of_byte b) b) ≡ true
unfolding holds_below device_state_of_byte state_byte
repacks_table = refl

repacks_ok :
    (r : Result DeviceState) (b : ℕ)
    → repacks r b ≡ true
    → (s : DeviceState) × (r ≡ ok s) × (state_byte s ≡ b % 64)
repacks_ok (ok s) b h = (s, refl, (==_iff _ _).0 h)
repacks_ok (err e) b h = cc
repacks_ok panic b h = cc

module _ ⦃bo : Byteorder⦄ where
  pub read_device_state-Reads : (s : DeviceState) → Reads read_device_state (state_byte s ∷ []) s
  unfolding read_device_state
  read_device_state-Reads s = record {
    run = λ rest. rw ((read_u8-Reads (state_byte s)).run rest, device_state_of_byte-state_byte s);
  }

  -- Reading a device state from any byte succeeds, so its `unreachable!` arm is never reached: the
  -- state that comes back is the one that the adapter packs into the byte's six low bits, the two
  -- high bits are ignored, and the rest of the input is left.
  read_device_state_lem :
      (b : ℕ) (rest : Bytes)
      → IsU8 b
      → (s : DeviceState) × (read_device_state (b ∷ rest) ≡ ok (s, rest)) × (state_byte s ≡ b % 64)
  unfolding read_device_state
  read_device_state_lem b rest h =
      let (s, e, m) = repacks_ok _ b (holds_below_sound 256 _ b repacks_table h) in
      (s, rw ((read_u8-Reads b).run rest, e), m)
