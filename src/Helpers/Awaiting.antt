-- ===== src/Helpers/Awaiting.antt =====
-- `Awaiting` of tophamm-helpers/src/awaiting.rs. The map is an association list with one entry for
-- each key, under a lock, so that the calls stand in one order. A oneshot sender is a name `S`;
-- that a message is handed to one is written in the result of a call, and what the channel does
-- with it is not looked at.
pub mod Map
pub mod Delivery
pub mod Bounded
pub mod Abstract
use tophamm.Base.{ite, List, [], ◌∷◌, Option, none, some}
use tophamm.Outcome.{Outcome, ok, err, panic}

module _ {Key : Type 0} {S : Type 0} (same : Discrete Key) where
  -- `HashMap::get`, `remove` and `insert` of the standard library.
  unfoldable pub lookup : Key → List (Key × S) → Option S
  lookup id [] = none
  lookup id ((j, s) ∷ map) = ite (same j id) (some s) (lookup id map)

  pub remove : Key → List (Key × S) → List (Key × S)
  remove id [] = []
  remove id ((j, s) ∷ map) = let rest = remove id map in ite (same j id) rest ((j, s) ∷ rest)

  pub register : Key → S → List (Key × S) → List (Key × S)
  unfolding remove
  register id sender map = (id, sender) ∷ remove id map

  pub deregister : Key → List (Key × S) → Option S × List (Key × S)
  unfolding lookup remove
  deregister id map = (lookup id map, remove id map)

-- What a call of `send` did: the message that it returned, or the sender that was handed it.
pub data Sent (S : Type 0) (M : Type 0) : Type 0 where
  returned : M → Sent S M
  handed : S → M → Sent S M

module _ {Key : Type 0} {S : Type 0} {M : Type 0} (same : Discrete Key) where
  abbrev send_to : Option S → M → Sent S M
  send_to none message = returned message
  send_to (some sender) message = handed sender message

  unfoldable pub send : Key → M → List (Key × S) → Sent S M × List (Key × S)
  unfolding deregister
  send id message map =
      let (sender, rest) = deregister same id map in (send_to sender message, rest)

module _ {Key : Type 0} {S : Type 0} {E : Type 0} {A : Type 0} (same : Discrete Key) where
  abbrev success_of : Sent S (Outcome E A) → Option A
  success_of (returned (ok a)) = some a
  success_of (returned (err e)) = none
  success_of (returned panic) = none
  success_of (handed s m) = none

  pub send_success : Key → A → List (Key × S) → Option A × Sent S (Outcome E A) × List (Key × S)
  unfolding send
  send_success id success map =
      let (sent, rest) = send same id (ok success) map in (success_of sent, sent, rest)

  -- `register_while` up to the await of its future is `register`. This is what follows the await:
  -- an error of the future is sent to whoever is registered then.
  unfoldable pub finish_while :
      Key → Outcome E (Unit {0}) → List (Key × S) → Option (Sent S (Outcome E A)) × List (Key × S)
  unfolding send
  finish_while id (ok u) map = (none, map)
  finish_while id (err error) map =
      let (sent, rest) = send same id (err error) map in (some sent, rest)
  finish_while id panic map = (none, map)
