-- ===== src/Deconz/System/Broadcasts.antt =====
-- What the code uses of the watch channel of tokio: `broadcast` on the sender's end, `recv` on a
-- receiver's. A receiver's `W` is what it has of the channel. The laws are the documentation's: a
-- receiver sees the value that was sent last, each at most once, and at first the initial value; a
-- call of `recv` with nothing new waits, and one with a value that is new does not.
use tophamm.Base.{◌≡◌, refl, Option, none, some, arith}
use tophamm.Deconz.Types.{DeviceState, default_device_state}

pub record Watch (W : Type 0) : Type 0 where
  pub start : W
  pub broadcast : DeviceState → W → W
  pub recv : W → Option (DeviceState × W)
  -- What the receiver has not seen.
  pub unseen : W → Option DeviceState
  pub unseen-start : unseen start ≡ some default_device_state
  pub unseen-broadcast : (d : DeviceState) (w : W) → unseen (broadcast d w) ≡ some d
  pub recv_seen :
      (d : DeviceState) (w w' : W)
      → recv w ≡ some (d, w')
      → (unseen w ≡ some d) × (unseen w' ≡ none)
  pub recv-unseen :
      (d : DeviceState) (w : W) → unseen w ≡ some d → (w' : W) × (recv w ≡ some (d, w'))

-- A value, for runs and examples.
unfoldable pub take_unseen : Option DeviceState → Option (DeviceState × Option DeviceState)
take_unseen none = none
take_unseen (some d) = some (d, none)

pub take_unseen_seen :
    (d : DeviceState) (w w' : Option DeviceState)
    → take_unseen w ≡ some (d, w')
    → (w ≡ some d) × (w' ≡ none)
unfolding take_unseen
take_unseen_seen d none w' e = ground arith
take_unseen_seen d (some c) w' e = ground arith

pub take_unseen-some :
    (d : DeviceState) (w : Option DeviceState)
    → w ≡ some d
    → (w' : Option DeviceState) × (take_unseen w ≡ some (d, w'))
unfolding take_unseen
take_unseen-some d none e = ground arith
take_unseen-some d (some c) e = (none, ground arith)

abbrev pub latest : Watch (Option DeviceState)
latest = record {
  start = some default_device_state;
  broadcast = λ d w. some d;
  recv = take_unseen;
  unseen = λ w. w;
  unseen-start = refl;
  unseen-broadcast = λ d w. refl;
  recv_seen = take_unseen_seen;
  recv-unseen = take_unseen-some;
}
