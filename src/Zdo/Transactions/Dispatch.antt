-- ===== src/Zdo/Transactions/Dispatch.antt =====
-- Who is handed an indication by the receiving task of the zdo layer.
use tophamm.Base.{ℕ, ℕ_discrete, ◌≡◌, ◌≢◌, refl, ◌∙◌, if_pos, if_neg, some, none, List, ◌∷◌, Bytes}
use tophamm.Outcome.{ok}
use tophamm.Deconz.Types.{ApsDataIndication}
use tophamm.Helpers.Awaiting.{lookup, remove, register, send, handed}
use tophamm.Helpers.Awaiting.Map.{lookup-register, lookup-remove}
use tophamm.Zdo.Transactions.{on_indication}

-- An indication whose first byte is the id of a registered transaction is handed to the sender of
-- that transaction: the id is free afterwards, and every other transaction stays registered.
on_indication-register :
    {S : Type 0} (indication : ApsDataIndication) (id j : ℕ) (rest : Bytes) (sender : S)
    (awaiting : List (ℕ × S))
    → indication.asdu ≡ id ∷ rest
    → id ≢ j
    → (left : List (ℕ × S)) × (on_indication indication (register ℕ_discrete id sender awaiting)
        ≡ ok (handed sender (ok indication), left))
      × (lookup ℕ_discrete id left ≡ none)
      × (lookup ℕ_discrete j left ≡ lookup ℕ_discrete j awaiting)
unfolding on_indication send
on_indication-register indication id j rest sender awaiting e ne = (
  remove ℕ_discrete id (register ℕ_discrete id sender awaiting),
  rw (e, lookup-register ℕ_discrete id id sender awaiting)
      (rw (if_pos (ℕ_discrete id id) refl (some sender) (lookup ℕ_discrete id awaiting))),
  lookup-remove ℕ_discrete id id _ ∙ if_pos (ℕ_discrete id id) refl _ _,
  lookup-remove ℕ_discrete id j _
      ∙ if_neg (ℕ_discrete id j) ne _ _
      ∙ lookup-register ℕ_discrete id j sender awaiting
      ∙ if_neg (ℕ_discrete id j) ne _ _,
)
