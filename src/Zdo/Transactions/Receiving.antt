-- ===== src/Zdo/Transactions/Receiving.antt =====
-- `Rx::task` of tophamm/src/zdo/mod.rs: the loop that hands indications to the senders of their
-- transactions. The list is what the channel gives.
use tophamm.Base.{
  ℕ, ℕ_discrete, ◌≡◌, ◌≢◌, refl, ◌∙◌, if_pos, if_neg, Bool, true, false, List, [], ◌∷◌, ◌++◌,
  append_assoc, none, some, Bytes, All,
}
use tophamm.Outcome.{ok, err, panic}
use tophamm.Deconz.Types.{ApsDataIndication}
use tophamm.Helpers.Awaiting.{Sent, returned, handed, lookup, remove, send}
use tophamm.Helpers.Awaiting.Map.{lookup-remove}
use tophamm.Zdo.Errors.{Result}
use tophamm.Zdo.Transactions.{on_indication}

-- Whether the task still runs, the senders that are left, and what was handed to senders, in order.
pub record Received (S : Type 0) : Type 0 where
  pub running : Bool
  pub awaiting : List (ℕ × S)
  pub sent : List (S × Result ApsDataIndication)

-- The indication carries another transaction id.
abbrev pub IsOther : ℕ → ApsDataIndication → Type 0
IsOther id indication = (j : ℕ) × (rest : Bytes) × (indication.asdu ≡ j ∷ rest) × (j ≢ id)

module _ {S : Type 0} where
  abbrev messages : Sent S (Result ApsDataIndication) → List (S × Result ApsDataIndication)
  messages (returned message) = []
  messages (handed sender message) = (sender, message) ∷ []

  abbrev ended : List (ℕ × S) → Received S
  ended awaiting = record { running = false; awaiting = awaiting; sent = [] }

  abbrev behind : List (S × Result ApsDataIndication) → Received S → Received S
  behind sent rest = record rest { sent = sent ++ rest.sent }

  -- A result that nobody waits for is logged, and a panic ends the task.
  pub receive : List ApsDataIndication → List (ℕ × S) → Received S
  receive [] awaiting = record { running = true; awaiting = awaiting; sent = [] }
  receive (indication ∷ rest) awaiting = elim (on_indication indication awaiting) [
    | ok (sent, awaiting') ↦ behind (messages sent) (receive rest awaiting')
    | err e ↦ ended awaiting
    | panic ↦ ended awaiting
  ]

  receive_other :
      (j : ℕ) (indication : ApsDataIndication) (tail : Bytes) (rest : List ApsDataIndication)
      (awaiting : List (ℕ × S))
      → indication.asdu ≡ j ∷ tail
      → receive (indication ∷ rest) awaiting
        ≡ behind
            (messages (send ℕ_discrete j (ok indication) awaiting).0)
            (receive rest (remove ℕ_discrete j awaiting))
  unfolding receive on_indication send
  receive_other j indication tail rest awaiting e = rw e refl

  -- An indication behind others of other transactions is handed to the sender that waits for it.
  pub receive_last :
      (id : ℕ) (sender : S) (before : List ApsDataIndication) (indication : ApsDataIndication)
      (rest : Bytes) (awaiting : List (ℕ × S))
      → All (IsOther id) before
      → indication.asdu ≡ id ∷ rest
      → lookup ℕ_discrete id awaiting ≡ some sender
      → (left : List (ℕ × S)) × (sent : List (S × Result ApsDataIndication)) × (receive
            (before ++ indication ∷ [])
            awaiting
          ≡ record { running = true; awaiting = left; sent = sent ++ (sender, ok indication) ∷ [] })
        × (lookup ℕ_discrete id left ≡ none)
  unfolding receive on_indication send
  receive_last id sender [] indication rest awaiting h e found = (
    remove ℕ_discrete id awaiting,
    [],
    rw (e, found) refl,
    lookup-remove ℕ_discrete id id awaiting ∙ if_pos (ℕ_discrete id id) refl _ _,
  )
  receive_last id sender (i ∷ before) indication rest awaiting ((j, tail, a, ne), h) e found =
      let (left, sent, t, free) =
        receive_last id sender before indication rest (remove ℕ_discrete j awaiting) h e
          (lookup-remove ℕ_discrete j id awaiting ∙ if_neg (ℕ_discrete j id) ne _ _ ∙ found) in
      (
        left,
        messages (send ℕ_discrete j (ok i) awaiting).0 ++ sent,
        receive_other j i tail (before ++ indication ∷ []) awaiting a ∙ rw t (rw append_assoc refl),
        free,
      )
