-- ===== src/Zdo/Transactions/Exchange/Stopped.antt =====
-- What is left of the zdo layer after an indication without data.
use tophamm.Base.{
  ℕ, ℕ_discrete, ◌≡◌, refl, inl, inr, Option-cases, Bool-cases, false, List, [], ◌∷◌, ◌++◌,
  append_assoc, All, All-append,
}
use tophamm.Outcome.{ok, err, panic}
use tophamm.Deconz.Types.{ApsDataIndication}
use tophamm.Helpers.Awaiting.{lookup, send, finish_while}
use tophamm.Zdo.Errors.{Error, Result, from_deconz}
use tophamm.Zdo.Transactions.{on_indication}
use tophamm.Zdo.Transactions.Exchange.{
  Event, began, ended, received, Senders, handed_over, step, run,
}

module _ {S : Type 0} where
  abbrev pub IsFailure : S × Result ApsDataIndication → Type 0
  IsFailure (sender, message) = (e : Error) × (message ≡ err e)

  -- The receiving task does not run, and only failures have been handed out since.
  abbrev pub IsStopped : Senders S → Senders S → Type 0
  IsStopped before p =
      (p.running ≡ false)
      × (added : List (S × Result ApsDataIndication)) × (p.log ≡ added ++ before.log)
      × All IsFailure added

  -- What `send` does with a failure.
  send-IsFailure :
      (id : ℕ) (e : Error) (awaiting : List (ℕ × S))
      → All IsFailure
          (handed_over (send {M = Result ApsDataIndication} ℕ_discrete id (err e) awaiting).0)
  unfolding send
  send-IsFailure id e awaiting = elim (Option-cases (lookup ℕ_discrete id awaiting)) [
    | inl f ↦ rw (f, All) tt
    | inr (x, f) ↦ rw (f, All) ((e, refl), tt)
  ]

  more :
      (before : Senders S) (fresh : List (S × Result ApsDataIndication)) (p : Senders S)
      → All IsFailure fresh
      → IsStopped before p
      → (added : List (S × Result ApsDataIndication)) × (fresh ++ p.log ≡ added ++ before.log)
        × All IsFailure added
  more before fresh p h (r, added, e, hs) =
      (fresh ++ added, rw e (rw append_assoc refl), All-append IsFailure fresh added h hs)

  step-IsStopped :
      (before : Senders S) (e : Event S) (p : Senders S)
      → IsStopped before p
      → IsStopped before (step e p)
  unfolding step finish_while
  step-IsStopped before (began j x) p h = h
  step-IsStopped before (ended j (ok confirm)) p h = h
  step-IsStopped before (ended j panic) p h = h
  step-IsStopped before (ended j (err e)) p h =
      let (added, l, hs) = more before _ p (send-IsFailure j (from_deconz e) p.awaiting) h in
      (h.0, added, l, hs)
  step-IsStopped before (received indication) p (r, added, l, hs) = rw (r, step) (r, added, l, hs)

  run-IsStopped :
      (before : Senders S) (es : List (Event S)) (p : Senders S)
      → IsStopped before p
      → IsStopped before (run es p)
  unfolding run
  run-IsStopped before [] p h = h
  run-IsStopped before (e ∷ es) p h =
      run-IsStopped before es (step e p) (step-IsStopped before e p h)

  first_stop :
      (indication : ApsDataIndication) (p : Senders S)
      → indication.asdu ≡ []
      → IsStopped p (step (received indication) p)
  unfolding step on_indication
  first_stop indication p a = elim (Bool-cases p.running) [
    | inl r ↦ rw (r, step) (rw (a, on_indication) (refl, [], refl, tt))
    | inr r ↦ rw (r, step) (r, [], refl, tt)
  ]

  -- An indication without data ends the receiving task: whatever happens afterwards, no indication
  -- is handed to any sender any more, so that the only messages are the failures of data requests.
  pub run-received_empty :
      (indication : ApsDataIndication) (es : List (Event S)) (p : Senders S)
      → indication.asdu ≡ []
      → (let after = run es (step (received indication) p) in
          (after.running ≡ false)
          × (added : List (S × Result ApsDataIndication)) × (after.log ≡ added ++ p.log)
          × All IsFailure added)
  run-received_empty indication es p a =
      run-IsStopped p es (step (received indication) p) (first_stop indication p a)
