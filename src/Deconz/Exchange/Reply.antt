-- ===== src/Deconz/Exchange/Reply.antt =====
-- The way of a command through the transmitting and the receiving task and back to its sender.
pub mod Timed
use tophamm.Base.{
  ite, ◌≤◌, arith, ite, arith, ◌≤◌, Bytes, All-append, Bool-cases, ℕ, ℕ_discrete, ◌+◌, ◌%◌, ◌≡◌,
  ◌≢◌, refl, ◌∙◌, ap, if_pos, inl, inr, ◌⊎◌, true, false, List, [], ◌∷◌, ◌++◌, Option, none, some,
  All,
}
use tophamm.Deconz.Types.{CommandId}
use tophamm.Deconz.Protocol.Command.{command_byte}
use tophamm.Deconz.Protocol.Response.Decoding.{from_frame_unsupported}
use tophamm.Outcome.{Build, ok, err, panic}
use tophamm.Deconz.Errors.{Error, error, unsupported_command, Result}
use tophamm.Deconz.Wire.External.{Byteorder}
use tophamm.Deconz.Protocol.Request.{Request}
use tophamm.Deconz.Protocol.Response.{Response, solicited, from_frame}
use tophamm.Deconz.Protocol.Response.Encoding.{response_frame, IsResponse}
use tophamm.Helpers.Awaiting.{finish_while, send, lookup}
use tophamm.Helpers.Awaiting.Map.{lookup-register}
use tophamm.Helpers.Awaiting.Delivery.{
  run-total, pending-lookup, total, delivered, LeavesAlone, run-lookup,
}
use tophamm.Helpers.Awaiting.Delivery
use tophamm.Helpers.IncrementingId.{next}
use tophamm.Deconz.Client.{replied, Channel, make_request, held}
use tophamm.Deconz.Rx.{Pending, Processed, second, process_frame}
use tophamm.Deconz.Rx.Dispatch.{process_frame_answered, process_frame_malformed}
use tophamm.Deconz.Exchange.{
  run-append, Event, began, ended, received, Senders, step, run, answered, received_as,
}
use tophamm.Deconz.Exchange.Once.{
  begun, registered-calls, begun, calls, all_calls, calls_at, run-run, step-run, runs_after,
  survives, shared,
}

-- A received frame does not end the receiving task, and it has another sequence number, or it is a
-- notification.
abbrev pub IsElse : ℕ → Option ℕ → Result Response → Type 0
IsElse q none result = Unit {0}
IsElse q (some j) (ok r) = (j ≢ q) ⊎ (solicited r ≡ false)
IsElse q (some j) (err e) = j ≢ q
IsElse q (some j) panic = Unit {0}

abbrev pub NoAnswer : ℕ → Option ℕ → Result Response → Type 0
NoAnswer q j result = (survives j result ≡ true) × IsElse q j result

IsElse-LeavesAlone :
    (S : Type 0) (q : ℕ) (j : Option ℕ) (result : Result Response)
    → IsElse q j result
    → All (LeavesAlone {S = S} {M = Result Response} ℕ_discrete q) (calls_at j result)
IsElse-LeavesAlone S q none result h = tt
IsElse-LeavesAlone S q (some j) (ok r) (inl ne) = elim (Bool-cases (solicited r)) [
  | inl e ↦ rw (e, All) (ne, tt)
  | inr e ↦ rw (e, All) tt
]
IsElse-LeavesAlone S q (some j) (ok r) (inr e) = rw (e, All) tt
IsElse-LeavesAlone S q (some j) (err e) h = (h, tt)
IsElse-LeavesAlone S q (some j) panic h = tt

module _ ⦃bo : Byteorder⦄ {S : Type 0} (build : Build) where
  -- The event neither reuses the sequence number nor answers or fails its command.
  abbrev pub IsQuiet : ℕ → Event S → Type 0
  IsQuiet q (began j x) = j ≢ q
  IsQuiet q (ended j (ok u)) = Unit {0}
  IsQuiet q (ended j (err e)) = j ≢ q
  IsQuiet q (ended j panic) = Unit {0}
  IsQuiet q (received frame) = NoAnswer q (second frame) (from_frame build frame)

  calls-LeavesAlone :
      (q : ℕ) (e : Event S)
      → IsQuiet q e
      → All (LeavesAlone {S = S} {M = Result Response} ℕ_discrete q) (calls build true e)
  calls-LeavesAlone q (began j x) h = (h, tt)
  calls-LeavesAlone q (ended j (ok u)) h = tt
  calls-LeavesAlone q (ended j (err e)) h = (h, tt)
  calls-LeavesAlone q (ended j panic) h = tt
  calls-LeavesAlone q (received frame) (s, h) =
      IsElse-LeavesAlone S q (second frame) (from_frame build frame) h

  runs_after-IsQuiet : (q : ℕ) (e : Event S) → IsQuiet q e → runs_after build true e ≡ true
  runs_after-IsQuiet q (began j x) h = refl
  runs_after-IsQuiet q (ended j result) h = refl
  runs_after-IsQuiet q (received frame) (s, h) = s

  pub takes :
      (frame : Bytes) (p : Senders S)
      → p.running ≡ true
      → step build (received frame) p ≡ received_as (process_frame build frame p.awaiting) p
  unfolding step
  takes frame p r = rw (r, step) refl

  module _ (name : Discrete S) where
    -- The first message for a sender in a log that has at most one.
    abbrev pub message_of : S → List (S × Result Response) → Option (Result Response)
    message_of s [] = none
    message_of s ((x, m) ∷ log) = ite (name x s) (some m) (message_of s log)

    -- The event gives the sender to no other command.
    abbrev pub IsOther : S → Event S → Type 0
    IsOther s (began j x) = x ≢ s
    IsOther s (ended j result) = Unit {0}
    IsOther s (received frame) = Unit {0}

    -- How often a sender waits or was handed a message.
    abbrev pub uses : S → Senders S → ℕ
    uses s p = total ℕ_discrete name s (shared p)

    -- The task runs, the sender waits for the number, and it was handed nothing.
    pub record IsWaiting (q : ℕ) (sender : S) (p : Senders S) : Type 0 where
      pub running : p.running ≡ true
      pub found : lookup ℕ_discrete q p.awaiting ≡ some sender
      pub once : uses sender p ≤ 1

    pub uses-step :
        (s : S) (e : Event S) (p : Senders S)
        → p.running ≡ true
        → uses s (step build e p) ≤ begun build name s (e ∷ []) + uses s p
    uses-step s e p r =
        let one = ap (total ℕ_discrete name s) (step-run build e p.running p.awaiting p.log).0 in
        omega (
          arith,
          one,
          run-total ℕ_discrete name s (calls build p.running e) (shared p),
          registered-calls build name s p.running e [],
        )

    begun-IsOther : (s : S) (e : Event S) → IsOther s e → begun build name s (e ∷ []) ≡ 0
    begun-IsOther s (began j x) h = ground arith
    begun-IsOther s (ended j result) h = refl
    begun-IsOther s (received frame) h = refl

    lookup-step :
        (q : ℕ) (e : Event S) (p : Senders S)
        → p.running ≡ true
        → IsQuiet q e
        → lookup ℕ_discrete q (step build e p).awaiting ≡ lookup ℕ_discrete q p.awaiting
    lookup-step q e p r h =
        ap (λ (m : Pending S × List (S × Result Response)). lookup ℕ_discrete q m.0)
          ((step-run build e p.running p.awaiting p.log).0
            ∙ ap (λ b. Delivery.run ℕ_discrete (calls build b e) (shared p)) r)
        ∙ run-lookup ℕ_discrete q (calls build true e) (shared p) (calls-LeavesAlone q e h)

    pub step-IsWaiting :
        (q : ℕ) (sender : S) (e : Event S) (p : Senders S)
        → IsQuiet q e
        → IsOther sender e
        → IsWaiting q sender p
        → IsWaiting q sender (step build e p)
    step-IsWaiting q sender e p h o k = record {
      running =
          (step-run build e p.running p.awaiting p.log).1
          ∙ ap (λ b. runs_after build b e) k.running
          ∙ runs_after-IsQuiet q e h;
      found = lookup-step q e p k.running h ∙ k.found;
      once = omega (arith, k.once, uses-step sender e p k.running, begun-IsOther sender e o);
    }

    message_of-none :
        (s : S) (log : List (S × Result Response))
        → delivered name s log ≡ 0
        → message_of s log ≡ none
    message_of-none s [] h = refl
    message_of-none s ((x, m) ∷ log) h = ground (arith, message_of-none s log)

    -- Who waits was handed nothing yet.
    pub IsWaiting-none :
        (q : ℕ) (sender : S) (p : Senders S) → IsWaiting q sender p → message_of sender p.log ≡ none
    IsWaiting-none q sender p k = message_of-none sender p.log (
        omega (
          arith,
          k.once,
          pending-lookup ℕ_discrete name sender q p.awaiting sender k.found,
          if_pos {C = ℕ} (name sender sender) refl 1 0,
        ))

    -- A new sender waits once its command is taken.
    pub began-IsWaiting :
        (q : ℕ) (sender : S) (p : Senders S)
        → p.running ≡ true
        → uses sender p ≡ 0
        → IsWaiting q sender (step build (began q sender) p)
    began-IsWaiting q sender p r n = record {
      running = unfold step in r;
      found =
          unfold step in
          lookup-register ℕ_discrete q q sender p.awaiting ∙ if_pos (ℕ_discrete q q) refl _ _;
      once = omega (
        arith,
        n,
        uses-step sender (began q sender) p r,
        if_pos {C = ℕ} (name sender sender) refl 1 0,
      );
    }

    -- The reply is handed to the sender that waits for its number.
    pub step-reply :
        (q status : ℕ) (sender : S) (r : Response) (p : Senders S)
        → IsResponse r
        → solicited r ≡ true
        → IsWaiting q sender p
        → message_of sender (step build (received (response_frame r q status)) p).log ≡ some (ok r)
    step-reply q status sender r p h s k =
        ap (λ (m : Senders S). message_of sender m.log)
          (takes (response_frame r q status) p k.running)
        ∙ ap (λ m. message_of sender (answered (Processed.sent m) ++ p.log))
            (process_frame_answered build r q status p.awaiting sender h s k.found)
        ∙ if_pos (name sender sender) refl (some (ok r)) (message_of sender p.log)

    -- So is the error of a frame with its number whose command is none.
    pub step-refused :
        (q b : ℕ) (rest : Bytes) (sender : S) (p : Senders S)
        → ((c : CommandId) → command_byte c ≢ b)
        → IsWaiting q sender p
        → message_of sender (step build (received (b ∷ q ∷ rest)) p).log
          ≡ some (err (error (unsupported_command b)))
    step-refused q b rest sender p h k =
        ap (λ (m : Senders S). message_of sender m.log) (takes (b ∷ q ∷ rest) p k.running)
        ∙ ap (λ m. message_of sender (answered (Processed.sent m) ++ p.log))
            (process_frame_malformed build b q rest (error (unsupported_command b)) p.awaiting
              sender (from_frame_unsupported build b (q ∷ rest) h) k.found)
        ∙ if_pos (name sender sender) refl (some (err (error (unsupported_command b)))) _

    -- And the error that ends the sending of its request.
    pub step-unsent :
        (q : ℕ) (e : Error) (sender : S) (p : Senders S)
        → IsWaiting q sender p
        → message_of sender (step build (ended q (err e)) p).log ≡ some (err e)
    unfolding step finish_while send
    step-unsent q e sender p k =
        rw k.found (if_pos (name sender sender) refl (some (err e)) (message_of sender p.log))
