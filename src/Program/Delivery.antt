-- ===== src/Program/Delivery.antt =====
-- A reply of the zdo layer, from the adapter's report to the caller that waits for it.
use tophamm.Base.{
  ℕ, ℕ_discrete, ◌≡◌, refl, ◌∙◌, ◌⊎◌, Bool-cases, ap, inl, inr, true, false, List, [], ◌∷◌, ◌++◌,
  some, none, Bytes, All,
}
use tophamm.Outcome.{ok}
use tophamm.Deconz.Types.{ApsDataIndication}
use tophamm.Deconz.Aps.Indications.{Wake, go_on, Passes, task-Passes, round}
use tophamm.Helpers.Awaiting.{lookup}
use tophamm.Zdo.Errors.{Result}
use tophamm.Zdo.Transactions.Receiving.{IsOther, receive_last}
use tophamm.Program.{is_zdo, arriving, relay, receive_all}

-- The indication is for another endpoint, or for another transaction.
abbrev pub IsElse : ℕ → ApsDataIndication → Type 0
IsElse id indication = (is_zdo indication ≡ false) ⊎ IsOther id indication

relay_zdo :
    (x : ApsDataIndication) (xs : List ApsDataIndication)
    → is_zdo x ≡ true
    → (relay (arriving (x ∷ xs))).0 ≡ x ∷ (relay (arriving xs)).0
unfolding relay
relay_zdo x xs z = rw z refl

relay_else :
    (x : ApsDataIndication) (xs : List ApsDataIndication)
    → is_zdo x ≡ false
    → (relay (arriving (x ∷ xs))).0 ≡ (relay (arriving xs)).0
unfolding relay
relay_else x xs z = rw z refl

relay_nil : (relay (arriving [])).0 ≡ []
unfolding relay
relay_nil = refl

relay-IsElse :
    (id : ℕ) (xs : List ApsDataIndication) (indication : ApsDataIndication)
    → All (IsElse id) xs
    → is_zdo indication ≡ true
    → (ys : List ApsDataIndication) × ((relay (arriving (xs ++ indication ∷ []))).0
        ≡ ys ++ indication ∷ [])
      × All (IsOther id) ys
relay-IsElse id [] indication h z =
    ([], relay_zdo indication [] z ∙ ap (◌∷◌ indication) relay_nil, tt)
relay-IsElse id (x ∷ xs) indication (inl e, hs) z =
    let (ys, r, others) = relay-IsElse id xs indication hs z in
    (ys, relay_else x (xs ++ indication ∷ []) e ∙ r, others)
relay-IsElse id (x ∷ xs) indication (inr other, hs) z = elim (Bool-cases (is_zdo x)) [
  | inl e ↦
      (let (ys, r, others) = relay-IsElse id xs indication hs z in
        (x ∷ ys, relay_zdo x (xs ++ indication ∷ []) e ∙ ap (◌∷◌ x) r, (other, others)))
  | inr e ↦
      (let (ys, r, others) = relay-IsElse id xs indication hs z in
        (ys, relay_else x (xs ++ indication ∷ []) e ∙ r, others))
]

-- The channels between the tasks are open, and the rounds of the task that fetches indications go
-- on; what they pass on is for other endpoints or other transactions; then the adapter's answer in
-- a last round is an indication for endpoint 0 whose data begins with the id of a transaction that
-- a sender waits for. Then the last thing that the receiving task of the zdo layer does is to hand
-- that indication to that sender; the id is free afterwards and the task still runs.
pub receive_all-round :
    {S : Type 0} (id : ℕ) (sender : S) (before : List Wake) (last : Wake)
    (indication : ApsDataIndication) (rest : Bytes) (awaiting : List (ℕ × S))
    → All (Passes (IsElse id)) before
    → round last ≡ go_on (some indication)
    → is_zdo indication ≡ true
    → indication.asdu ≡ id ∷ rest
    → lookup ℕ_discrete id awaiting ≡ some sender
    → (left : List (ℕ × S)) × (sent : List (S × Result ApsDataIndication)) × (receive_all
          (before ++ last ∷ [])
          awaiting
        ≡ record { running = true; awaiting = left; sent = sent ++ (sender, ok indication) ∷ [] })
      × (lookup ℕ_discrete id left ≡ none)
unfolding receive_all
receive_all-round id sender before last indication rest awaiting h e z a found =
    let (xs, t, elses) = task-Passes (IsElse id) before last indication h e in
    let (ys, r, others) = relay-IsElse id xs indication elses z in
    let (left, sent, d, free) = receive_last id sender ys indication rest awaiting others a found in
    (left, sent, rw (t, r) d, free)
