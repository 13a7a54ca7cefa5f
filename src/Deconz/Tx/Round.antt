-- ===== src/Deconz/Tx/Round.antt =====
-- Who waits for a response after a round of the transmitting task.
use tophamm.Base.{ℕ, ℕ_discrete, ◌≡◌, refl, ◌∙◌, if_pos, some, none, List}
use tophamm.Outcome.{Build, ok, err}
use tophamm.Deconz.Errors.{Error}
use tophamm.Deconz.Wire.External.{Byteorder}
use tophamm.Deconz.Protocol.Request.{Request}
use tophamm.Deconz.Slip.Writer.{Sink}
use tophamm.Helpers.Awaiting.{lookup, register, send, handed, finish_while}
use tophamm.Helpers.Awaiting.Map.{lookup-register, lookup-remove}
use tophamm.Deconz.Tx.{send_request, transmit}

module _ ⦃bo : Byteorder⦄ {S N : Type 0} (sink : Sink S) (build : Build) where
  registered_found :
      (id : ℕ) (sender : N) (awaiting : List (ℕ × N))
      → lookup ℕ_discrete id (register ℕ_discrete id sender awaiting) ≡ some sender
  registered_found id sender awaiting =
      lookup-register ℕ_discrete id id sender awaiting ∙ if_pos (ℕ_discrete id id) refl _ _

  -- After a request that was sent, its sender was handed nothing and waits under its sequence
  -- number.
  transmit_sent :
      (id : ℕ) (request : Request) (sender : N) (awaiting : List (ℕ × N)) (s : S)
      → (send_request sink build id request s).0 ≡ ok tt
      → ((transmit sink build id request sender awaiting s).0 ≡ none)
        × (lookup ℕ_discrete id (transmit sink build id request sender awaiting s).1 ≡ some sender)
  unfolding transmit finish_while send
  transmit_sent id request sender awaiting s h = (rw h, rw h (registered_found id sender awaiting))

  -- After a request that failed, its sender was handed the error, and its sequence number is free.
  pub transmit_failed :
      (id : ℕ) (request : Request) (sender : N) (awaiting : List (ℕ × N)) (s : S) (e : Error)
      → (send_request sink build id request s).0 ≡ err e
      → ((transmit sink build id request sender awaiting s).0 ≡ some (handed sender (err e)))
        × (lookup ℕ_discrete id (transmit sink build id request sender awaiting s).1 ≡ none)
  unfolding transmit finish_while send
  transmit_failed id request sender awaiting s e h = (
    rw (h, registered_found id sender awaiting),
    rw h (
        lookup-remove ℕ_discrete id id (register ℕ_discrete id sender awaiting)
        ∙ if_pos (ℕ_discrete id id) refl _ _),
  )
