-- ===== src/Zdo/Transactions/Exchange/Resolved.antt =====
-- How the sender of a transaction gets its result.
use tophamm.Base.{
  ℕ, ℕ_discrete, ◌≡◌, ◌≢◌, refl, ◌∙◌, if_pos, if_neg, true, List, [], ◌∷◌, none, some, All, Bytes,
}
use tophamm.Outcome.{ok, err, panic}
use tophamm.Deconz.Types.{ApsDataIndication}
use tophamm.Deconz.Errors
use tophamm.Helpers.Awaiting.{lookup, send, finish_while}
use tophamm.Helpers.Awaiting.Map.{lookup-register, lookup-remove}
use tophamm.Zdo.Errors.{Result, from_deconz}
use tophamm.Zdo.Transactions.{on_indication}
use tophamm.Zdo.Transactions.Receiving.{IsOther}
use tophamm.Zdo.Transactions.Exchange.{Event, began, ended, received, Senders, step, run}

module _ {S : Type 0} where
  -- The event is about another transaction, or a data request that succeeds.
  abbrev pub IsQuiet : ℕ → Event S → Type 0
  IsQuiet id (began j sender) = j ≢ id
  IsQuiet id (ended j (ok confirm)) = Unit {0}
  IsQuiet id (ended j (err e)) = j ≢ id
  IsQuiet id (ended j panic) = Unit {0}
  IsQuiet id (received indication) = IsOther id indication

  -- The event ends the transaction with this result: its reply, or the failure of its request.
  pub data Resolves (id : ℕ) : Event S → Result ApsDataIndication → Type 0 where
    reply :
        (indication : ApsDataIndication) (rest : Bytes)
        → indication.asdu ≡ id ∷ rest
        → Resolves id (received indication) (ok indication)
    failed : (e : Errors.Error) → Resolves id (ended id (err e)) (err (from_deconz e))

  -- The sender waits and the receiving task runs.
  abbrev IsWaiting : ℕ → S → Senders S → Type 0
  IsWaiting id sender p = (p.running ≡ true) × (lookup ℕ_discrete id p.awaiting ≡ some sender)

  step-IsQuiet :
      (id : ℕ) (sender : S) (e : Event S) (p : Senders S)
      → IsQuiet id e
      → IsWaiting id sender p
      → IsWaiting id sender (step e p)
  unfolding step on_indication send finish_while
  step-IsQuiet id sender (began j x) p q (r, w) =
      (r, lookup-register ℕ_discrete j id x p.awaiting ∙ if_neg (ℕ_discrete j id) q _ _ ∙ w)
  step-IsQuiet id sender (ended j (ok confirm)) p q h = h
  step-IsQuiet id sender (ended j panic) p q h = h
  step-IsQuiet id sender (ended j (err e)) p q (r, w) =
      (r, lookup-remove ℕ_discrete j id p.awaiting ∙ if_neg (ℕ_discrete j id) q _ _ ∙ w)
  step-IsQuiet id sender (received indication) p (j, rest, a, q) (r, w) =
      rw (r, a)
        (refl, lookup-remove ℕ_discrete j id p.awaiting ∙ if_neg (ℕ_discrete j id) q _ _ ∙ w)

  run-IsQuiet :
      (id : ℕ) (sender : S) (es : List (Event S)) (p : Senders S)
      → All (IsQuiet id) es
      → IsWaiting id sender p
      → IsWaiting id sender (run es p)
  unfolding run
  run-IsQuiet id sender [] p q h = h
  run-IsQuiet id sender (e ∷ es) p (q, qs) h =
      run-IsQuiet id sender es (step e p) qs (step-IsQuiet id sender e p q h)

  step-Resolves :
      (id : ℕ) (sender : S) (e : Event S) (result : Result ApsDataIndication) (p : Senders S)
      → Resolves id e result
      → IsWaiting id sender p
      → ((step e p).log ≡ (sender, result) ∷ p.log)
        × (lookup ℕ_discrete id (step e p).awaiting ≡ none)
        × ((step e p).running ≡ true)
  unfolding step on_indication send finish_while
  step-Resolves id sender e result p (reply indication rest a) (r, w) =
      rw (r, a, w)
        (refl, lookup-remove ℕ_discrete id id p.awaiting ∙ if_pos (ℕ_discrete id id) refl _ _, refl)
  step-Resolves id sender e result p (failed x) (r, w) =
      rw w (refl, lookup-remove ℕ_discrete id id p.awaiting ∙ if_pos (ℕ_discrete id id) refl _ _, r)

  -- While the receiving task runs, a transaction is registered; events of other transactions, and
  -- data requests that succeed, follow in any order; then comes the transaction's reply, or its
  -- data request fails. Its sender is handed that indication or the converted error, as the next
  -- message, the id is free afterwards, and the receiving task still runs.
  pub run-Resolves :
      (id : ℕ) (sender : S) (es : List (Event S)) (e : Event S) (result : Result ApsDataIndication)
      (p : Senders S)
      → p.running ≡ true
      → All (IsQuiet id) es
      → Resolves id e result
      → (let before = run es (step (began id sender) p) in
          ((step e before).log ≡ (sender, result) ∷ before.log)
          × (lookup ℕ_discrete id (step e before).awaiting ≡ none)
          × ((step e before).running ≡ true))
  unfolding step
  run-Resolves id sender es e result p r q h =
      step-Resolves id sender e result (run es (step (began id sender) p)) h (
        run-IsQuiet id sender es (step (began id sender) p) q (
          r,
          lookup-register ℕ_discrete id id sender p.awaiting ∙ if_pos (ℕ_discrete id id) refl _ _,
        ))
