-- ===== src/Zdo/Transactions/Exchange/History.antt =====
-- The two tasks of tophamm/src/zdo/mod.rs, as a history of calls on their map of senders.
use tophamm.Base.{
  sym, subst, ℕ, ℕ_discrete, ◌+◌, ◌≡◌, refl, Bool, true, false, All, List, [], ◌∷◌, ◌++◌, Bytes,
  arith,
}
use tophamm.Outcome.{ok, err, panic}
use tophamm.Deconz.Types.{ApsDataIndication, ApsDataConfirm}
use tophamm.Deconz.Errors
use tophamm.Helpers.Awaiting.{send, finish_while}
use tophamm.Helpers.Awaiting.Bounded.{IsBelow}
use tophamm.Helpers.Awaiting.Delivery
use tophamm.Helpers.Awaiting.Delivery.{Call, registers, sends, registered}
use tophamm.Zdo.Errors.{Result, from_deconz}
use tophamm.Zdo.Transactions.{on_indication}
use tophamm.Zdo.Transactions.Exchange.{Event, Senders, step, began, ended, received, received_as}
use tophamm.Calls.Totals.{named, big}

module _ {S : Type 0} where
  abbrev pub shared : Senders S → List (ℕ × S) × List (S × Result ApsDataIndication)
  shared p = (p.awaiting, p.log)

  -- The calls on the map that an event of Zdo/Transactions/Exchange makes.
  abbrev pub calls_received : Bytes → ApsDataIndication → List (Call ℕ S (Result ApsDataIndication))
  calls_received [] indication = []
  calls_received (id ∷ rest) indication = sends id (ok indication) ∷ []

  abbrev pub calls : Bool → Event S → List (Call ℕ S (Result ApsDataIndication))
  calls running (began id sender) = registers id sender ∷ []
  calls running (ended id (ok confirm)) = []
  calls running (ended id (err e)) = sends id (err (from_deconz e)) ∷ []
  calls running (ended id panic) = []
  calls true (received indication) = calls_received indication.asdu indication
  calls false (received indication) = []

  received-run :
      (bytes : Bytes) (indication : ApsDataIndication) (p : Senders S)
      → indication.asdu ≡ bytes
      → shared (received_as (on_indication indication p.awaiting) p)
        ≡ Delivery.run ℕ_discrete (calls_received bytes indication) (shared p)
  unfolding on_indication Delivery.run send
  received-run [] indication p e = rw e refl
  received-run (id ∷ rest) indication p e = rw e (ground arith)

  pub step-run :
      (running : Bool) (e : Event S) (p : Senders S)
      → p.running ≡ running
      → shared (step e p) ≡ Delivery.run ℕ_discrete (calls running e) (shared p)
  unfolding step Delivery.run finish_while
  step-run running (began id sender) p f = refl
  step-run running (ended id (ok confirm)) p f = refl
  step-run running (ended id (err e)) p f = ground arith
  step-run running (ended id panic) p f = refl
  step-run true (received indication) p f =
      subst
        (λ (b : Bool).
          shared (elim b [ true ↦ received_as (on_indication indication p.awaiting) p | false ↦ p ])
          ≡ Delivery.run ℕ_discrete (calls_received indication.asdu indication) (shared p))
        (sym f) (received-run indication.asdu indication p refl)
  step-run false (received indication) p f = ground arith

module _ {S : Type 0} (g : ℕ → S → ℕ) where
  -- A weight of the senders that a history registers.
  abbrev pub weights : {M : Type 0} → List (Call ℕ S M) → ℕ
  weights [] = 0
  weights (registers id s ∷ cs) = g id s + weights cs
  weights (sends id m ∷ cs) = weights cs

  pub weights-append :
      {M : Type 0} (cs ds : List (Call ℕ S M)) → weights (cs ++ ds) ≡ weights cs + weights ds
  weights-append [] ds = omega arith
  weights-append (registers id s ∷ cs) ds = omega (arith, weights-append cs ds)
  weights-append (sends id m ∷ cs) ds = weights-append cs ds

  received-weights :
      (bytes : Bytes) (indication : ApsDataIndication)
      → weights (calls_received bytes indication) ≡ 0
  received-weights [] indication = refl
  received-weights (id ∷ rest) indication = refl

module _ {S : Type 0} where
  pub ended-weights :
      (running : Bool) (id : ℕ) (result : Errors.Result ApsDataConfirm) (g : ℕ → S → ℕ)
      → weights g (calls running (ended id result)) ≡ 0
  ended-weights running id (ok confirm) g = refl
  ended-weights running id (err e) g = refl
  ended-weights running id panic g = refl

  pub indication-weights :
      (running : Bool) (indication : ApsDataIndication) (g : ℕ → S → ℕ)
      → weights g (calls running (received indication)) ≡ 0
  indication-weights true indication g = received-weights g indication.asdu indication
  indication-weights false indication g = refl

pub registered-weights :
    {S M : Type 0} (name : Discrete S) (s : S) (cs : List (Call ℕ S M))
    → registered name s cs ≡ weights (named name s) cs
registered-weights name s [] = refl
registered-weights name s (registers id x ∷ cs) = omega (arith, registered-weights name s cs)
registered-weights name s (sends id m ∷ cs) = registered-weights name s cs

pub weights-IsBelow :
    {S M : Type 0} (cs : List (Call ℕ S M)) → weights big cs ≡ 0 → All (IsBelow 256) cs
weights-IsBelow [] h = tt
weights-IsBelow (registers id s ∷ cs) h = (ground arith, weights-IsBelow cs (omega arith))
weights-IsBelow (sends id m ∷ cs) h = (tt, weights-IsBelow cs h)
