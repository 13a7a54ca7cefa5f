-- ===== src/Deconz/Exchange/Once.antt =====
-- No command gets two messages, however the tasks' steps are interleaved.
use tophamm.Base.{
  Bool, ap, ℕ, ℕ_discrete, ◌+◌, ◌≤◌, ◌≡◌, refl, sym, ◌∙◌, true, false, ite, List, [], ◌∷◌, ◌++◌,
  Option, none, some, Bytes, arith,
}
use tophamm.Outcome.{Build, ok, err, panic}
use tophamm.Deconz.Errors.{Result}
use tophamm.Deconz.Wire.External.{Byteorder}
use tophamm.Deconz.Protocol.Response.{Response, solicited, from_frame}
use tophamm.Helpers.Awaiting.{send, finish_while}
use tophamm.Helpers.Awaiting.Map.{deregister_lem}
use tophamm.Helpers.Awaiting.Delivery.{
  Call, registers, sends, delivered, registered, registered-append, delivered-run-le,
}
use tophamm.Helpers.Awaiting.Delivery
use tophamm.Deconz.Rx.{Pending, second, handle, process_at, process_frame}
use tophamm.Deconz.Exchange.{
  Event, began, ended, received, Senders, start, step, run, answered, goes_on, received_as,
}

-- Whether the receiving task survives a frame with this sequence number and decoding.
abbrev pub survives : Option ℕ → Result Response → Bool
survives none result = false
survives (some q) (ok r) = true
survives (some q) (err e) = true
survives (some q) panic = false

module _ {S : Type 0} where
  -- The calls on the map of senders that an event makes.
  abbrev pub calls_ended : ℕ → Result (Unit {0}) → List (Call ℕ S (Result Response))
  calls_ended q (ok u) = []
  calls_ended q (err e) = sends q (err e) ∷ []
  calls_ended q panic = []

  abbrev pub calls_handled : ℕ → Result Response → List (Call ℕ S (Result Response))
  calls_handled q (ok r) = elim (solicited r) [ false ↦ [] | true ↦ sends q (ok r) ∷ [] ]
  calls_handled q (err e) = sends q (err e) ∷ []
  calls_handled q panic = []

  abbrev pub calls_at : Option ℕ → Result Response → List (Call ℕ S (Result Response))
  calls_at none result = []
  calls_at (some q) result = calls_handled q result

  handled :
      (q : ℕ) (result : Result Response) (awaiting : Pending S) (log : List (S × Result Response))
      → ((handle q result awaiting).awaiting, answered (handle q result awaiting).sent ++ log)
        ≡ Delivery.run ℕ_discrete (calls_handled q result) (awaiting, log)
  unfolding handle Delivery.run send
  handled q (ok r) awaiting log = ground (arith, deregister_lem ℕ_discrete q awaiting)
  handled q (err e) awaiting log = ground (arith, deregister_lem ℕ_discrete q awaiting)
  handled q panic awaiting log = refl

module _ {S : Type 0} (name : Discrete S) (s : S) where
  registered_none :
      (q : Option ℕ) (result : Result Response) → registered name s (calls_at q result) ≡ 0
  registered_none none result = refl
  registered_none (some q) (ok r) = ground arith
  registered_none (some q) (err e) = refl
  registered_none (some q) panic = refl

goes_on-handle :
    {S : Type 0} (q : ℕ) (result : Result Response) (awaiting : Pending S)
    → goes_on (handle q result awaiting).result ≡ survives (some q) result
unfolding handle
goes_on-handle q (ok r) awaiting = ground (arith, deregister_lem ℕ_discrete q awaiting)
goes_on-handle q (err e) awaiting = ground (arith, deregister_lem ℕ_discrete q awaiting)
goes_on-handle q panic awaiting = refl

abbrev senders : {S : Type 0} → Bool → Pending S → List (S × Result Response) → Senders S
senders running awaiting log = record { running = running; awaiting = awaiting; log = log }

abbrev pub shared : {S : Type 0} → Senders S → Pending S × List (S × Result Response)
shared p = (p.awaiting, p.log)

module _ ⦃bo : Byteorder⦄ {S : Type 0} (build : Build) where
  -- The calls of an event depend on whether the receiving task runs.
  abbrev pub calls : Bool → Event S → List (Call ℕ S (Result Response))
  calls running (began q sender) = registers q sender ∷ []
  calls running (ended q result) = calls_ended q result
  calls true (received frame) = calls_at (second frame) (from_frame build frame)
  calls false (received frame) = []

  abbrev pub runs_after : Bool → Event S → Bool
  runs_after running (began q sender) = running
  runs_after running (ended q result) = running
  runs_after true (received frame) = survives (second frame) (from_frame build frame)
  runs_after false (received frame) = false

  abbrev pub all_calls : Bool → List (Event S) → List (Call ℕ S (Result Response))
  all_calls running [] = []
  all_calls running (e ∷ es) = calls running e ++ all_calls (runs_after running e) es

  processed :
      (q : Option ℕ) (frame : Bytes) (p : Senders S)
      → (shared (received_as (process_at build frame q p.awaiting) p)
          ≡ Delivery.run ℕ_discrete (calls_at q (from_frame build frame)) (shared p))
        × ((received_as (process_at build frame q p.awaiting) p).running
            ≡ survives q (from_frame build frame))
  unfolding process_at Delivery.run
  processed none frame p = (refl, refl)
  processed (some q) frame p = (
    handled q (from_frame build frame) p.awaiting p.log,
    goes_on-handle q (from_frame build frame) p.awaiting,
  )

  pub step-run :
      (e : Event S) (running : Bool) (awaiting : Pending S) (log : List (S × Result Response))
      → (let p = senders running awaiting log in
          (shared (step build e p) ≡ Delivery.run ℕ_discrete (calls running e) (awaiting, log))
          × ((step build e p).running ≡ runs_after running e))
  unfolding step Delivery.run finish_while process_frame
  step-run (began q sender) running awaiting log = (refl, refl)
  step-run (ended q (ok u)) running awaiting log = (refl, refl)
  step-run (ended q panic) running awaiting log = (refl, refl)
  step-run (ended q (err e)) running awaiting log = (ground arith, refl)
  step-run (received frame) true awaiting log =
      processed (second frame) frame (senders true awaiting log)
  step-run (received frame) false awaiting log = (refl, refl)

  pub run-run :
      (es : List (Event S)) (p : Senders S)
      → shared (run build es p) ≡ Delivery.run ℕ_discrete (all_calls p.running es) (shared p)
  unfolding run Delivery.run
  run-run [] p = refl
  run-run (e ∷ es) p =
      let (d, r) = step-run e p.running p.awaiting p.log in
      run-run es (step build e p)
      ∙ rw (d, r)
          (sym (
            Delivery.run-append ℕ_discrete (calls p.running e)
              (all_calls (runs_after p.running e) es) (shared p)))

  module _ (name : Discrete S) (s : S) where
    -- How many commands carry the sender.
    abbrev pub begun : List (Event S) → ℕ
    begun [] = 0
    begun (began q x ∷ es) = ite (name x s) 1 0 + begun es
    begun (ended q result ∷ es) = begun es
    begun (received frame ∷ es) = begun es

    pub registered-calls :
        (running : Bool) (e : Event S) (es : List (Event S))
        → registered name s (calls running e) + begun es ≡ begun (e ∷ es)
    registered-calls running (began q x) es = omega arith
    registered-calls running (ended q (ok u)) es = omega arith
    registered-calls running (ended q (err e)) es = omega arith
    registered-calls running (ended q panic) es = omega arith
    registered-calls false (received frame) es = omega arith
    registered-calls true (received frame) es =
        omega (arith, registered_none name s (second frame) (from_frame build frame))

    registered-all_calls :
        (running : Bool) (es : List (Event S)) → registered name s (all_calls running es) ≡ begun es
    registered-all_calls running [] = refl
    registered-all_calls running (e ∷ es) = omega (
      arith,
      registered-append name s (calls running e) (all_calls (runs_after running e) es),
      registered-all_calls (runs_after running e) es,
      registered-calls running e es,
    )

    -- In any interleaving of the two tasks' steps from their start, whatever is received and
    -- however the sending of the requests ends, a sender is handed at most as many messages as
    -- there are commands that carry it: the sender of one command is handed at most one.
    pub delivered-le-begun :
        (es : List (Event S)) → delivered name s (run build es start).log ≤ begun es
    unfolding start
    delivered-le-begun es =
        rw
          (
            ap (λ (p : Pending S × List (S × Result Response)). p.1) (run-run es start),
            ← registered-all_calls true es,
          )
          (delivered-run-le ℕ_discrete name s (all_calls true es))
