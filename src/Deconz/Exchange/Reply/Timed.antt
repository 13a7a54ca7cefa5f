-- ===== src/Deconz/Exchange/Reply/Timed.antt =====
-- A call of the client, through both tasks and back, against its timeout.
use tophamm.Base.{
  Bytes, ◌≢◌, ℕ, ◌+◌, ◌%◌, ◌<◌, ◌≡◌, refl, ap, ◌∙◌, true, List, [], ◌∷◌, ◌++◌, Option, none, some,
  All, arith,
}
use tophamm.Deconz.Types.{CommandId}
use tophamm.Deconz.Protocol.Command.{command_byte}
use tophamm.Outcome.{Build, ok, err}
use tophamm.Deconz.Errors.{Error, error, unsupported_command, Result, from_elapsed}
use tophamm.Deconz.Wire.External.{Byteorder}
use tophamm.Deconz.Protocol.Request.{Request}
use tophamm.Deconz.Protocol.Response.{Response, solicited}
use tophamm.Deconz.Protocol.Response.Encoding.{response_frame, IsResponse}
use tophamm.Helpers.IncrementingId.{next}
use tophamm.Deconz.Client.{Timer, Channel, timeout, awaited, make_request}
use tophamm.Deconz.Exchange.{Event, began, ended, received, Senders, step}
use tophamm.Deconz.Exchange.Reply.{
  IsQuiet, IsOther, uses, message_of, IsWaiting, step-IsWaiting, IsWaiting-none, began-IsWaiting,
  step-reply, step-refused, step-unsent,
}

-- Events, each with the milliseconds that pass before it.
abbrev pub Timed : Type 0 → Type 0
Timed S = List (ℕ × Event S)

abbrev pub duration : {S : Type 0} → Timed S → ℕ
duration [] = 0
duration ((wait, e) ∷ es) = wait + duration es

module _ ⦃bo : Byteorder⦄ {S : Type 0} (build : Build) (name : Discrete S) where
  -- When a sender is handed its message, and which, from a time on.
  abbrev pub first_message :
      ℕ → Option (Result Response) → Option (ℕ × Result Response) → Option (ℕ × Result Response)
  first_message now none later = later
  first_message now (some message) later = some (now, message)

  unfoldable pub arrival : S → ℕ → Timed S → Senders S → Option (ℕ × Result Response)
  arrival s now [] p = none
  arrival s now ((wait, e) ∷ es) p =
      let p' = step build e p in
      first_message (now + wait) (message_of build name s p'.log) (arrival s (now + wait) es p')

  -- The event neither reuses the sequence number or the sender, nor answers or fails the command.
  abbrev pub IsBeside : ℕ → S → ℕ × Event S → Type 0
  IsBeside q s (wait, e) = IsQuiet build q e × IsOther build name s e

  -- The event hands the message to the sender that waits for the sequence number.
  abbrev Hands : ℕ → S → Event S → Result Response → Type 0
  Hands q s e m =
      (p : Senders S)
      → IsWaiting build name q s p
      → message_of build name s (step build e p).log ≡ some m

  arrival-last :
      (q wait now : ℕ) (sender : S) (m : Result Response) (last : Event S) (es : Timed S)
      (p : Senders S)
      → Hands q sender last m
      → All (IsBeside q sender) es
      → IsWaiting build name q sender p
      → arrival sender now (es ++ (wait, last) ∷ []) p ≡ some (now + (duration es + wait), m)
  unfolding arrival
  arrival-last q wait now sender m last [] p h b k =
      ap (λ o. first_message (now + wait) o none) (h p k)
      ∙ ap (λ (n : ℕ). some (n, m)) (omega arith)
  arrival-last q wait now sender m last ((w, e) ∷ es) p h ((quiet, other), b) k =
      let k' = step-IsWaiting build name q sender e p quiet other k in
      let p' = step build e p in
      ap (λ o. first_message (now + w) o (arrival sender (now + w) (es ++ (wait, last) ∷ []) p'))
        (IsWaiting-none build name q sender p' k')
      ∙ arrival-last q wait (now + w) sender m last es p' h b k'
      ∙ ap (λ (n : ℕ). some (n, m)) (omega arith)

  module _ (timer : Timer) where
    -- A command that waits in its queue and is taken, some events, and the one that ends it.
    abbrev pub exchange : ℕ → ℕ → S → Timed S → ℕ → Event S → Timed S
    exchange queued q sender es wait last = (queued, began q sender) ∷ es ++ (wait, last) ∷ []

    -- What the call finds in its channel, with its timer started when the command is in the queue,
    -- by the state in which the command is taken.
    abbrev pub channel_of : ℕ → S → Timed S → ℕ → (ℕ → Event S) → Senders S → Channel
    channel_of queued sender es wait last p (q, request) =
        awaited timer (arrival sender 0 (exchange queued q sender es wait (last q)) p)

    arrival-exchange :
        (q queued wait : ℕ) (sender : S) (m : Result Response) (last : Event S) (es : Timed S)
        (p : Senders S)
        → Hands q sender last m
        → p.running ≡ true
        → uses build name sender p ≡ 0
        → All (IsBeside q sender) es
        → arrival sender 0 (exchange queued q sender es wait last) p
          ≡ some (queued + (duration es + wait), m)
    unfolding arrival
    arrival-exchange q queued wait sender m last es p h runs new b =
        let k = began-IsWaiting build name q sender p runs new in
        let p' = step build (began q sender) p in
        ap
          (λ o.
            first_message (0 + queued) o (arrival sender (0 + queued) (es ++ (wait, last) ∷ []) p'))
          (IsWaiting-none build name q sender p' k)
        ∙ arrival-last q wait (0 + queued) sender m last es p' h b k
        ∙ ap (λ (n : ℕ). some (n, m)) (omega arith)

    make_request-early :
        (request : Request) (q queued wait : ℕ) (sender : S) (m : Result Response)
        (last : ℕ → Event S) (es : Timed S) (p : Senders S)
        → Hands q sender (last q) m
        → p.running ≡ true
        → uses build name sender p ≡ 0
        → All (IsBeside q sender) es
        → queued + (duration es + wait) < timeout
        → make_request (channel_of queued sender es wait last p) request q ≡ (m, (q + 1) % 256)
    unfolding make_request next
    make_request-early request q queued wait sender m last es p h runs new b early =
        rw
          (
            arrival-exchange q queued wait sender m (last q) es p h runs new b,
            timer.in_time-before timeout (queued + (duration es + wait)) early,
          )
          refl

    -- A request is answered: the transmitting task takes its command, for a sender that neither
    -- waits nor was handed anything, while the receiving task runs; events follow that neither
    -- reuse its sequence number or its sender, nor answer it, nor fail it, nor end the receiving
    -- task; then a well-formed, solicited reply with its number comes. If that is before `timeout`
    -- has elapsed, counted from when the command is in its queue, `make_request` returns the
    -- response.
    pub make_request_answered :
        (request : Request) (q queued status wait : ℕ) (sender : S) (r : Response) (es : Timed S)
        (p : Senders S)
        → IsResponse r
        → solicited r ≡ true
        → p.running ≡ true
        → uses build name sender p ≡ 0
        → All (IsBeside q sender) es
        → queued + (duration es + wait) < timeout
        → (let last = λ (q : ℕ). received (response_frame r q status) in
            make_request (channel_of queued sender es wait last p) request q
            ≡ (ok r, (q + 1) % 256))
    make_request_answered request q queued status wait sender r es p h s =
        make_request-early request q queued wait sender (ok r)
          (λ q. received (response_frame r q status)) es p
          (λ p' k. step-reply build name q status sender r p' h s k)

    -- A request fails: the transmitting task takes its command, for a sender that neither waits nor
    -- was handed anything, while the receiving task runs; events follow that neither reuse its
    -- sequence number or its sender, nor answer it, nor fail it, nor end the receiving task; then,
    -- before `timeout` has elapsed since the command is in its queue, comes an error that ends the
    -- sending of the request, or a frame with its sequence number whose first byte stands for no
    -- command. `make_request` returns, in the one case, the error of the sending and, in the other,
    -- that the command is unsupported.
    pub make_request_failed :
        (request : Request) (q queued wait b : ℕ) (rest : Bytes) (e : Error) (sender : S)
        (es : Timed S) (p : Senders S)
        → p.running ≡ true
        → uses build name sender p ≡ 0
        → All (IsBeside q sender) es
        → ((c : CommandId) → command_byte c ≢ b)
        → queued + (duration es + wait) < timeout
        → (make_request (channel_of queued sender es wait (λ q. ended q (err e)) p) request q
            ≡ (err e, (q + 1) % 256))
          × (make_request
                (channel_of queued sender es wait (λ q. received (b ∷ q ∷ rest)) p)
                request
                q
              ≡ (err (error (unsupported_command b)), (q + 1) % 256))
    make_request_failed request q queued wait b rest e sender es p runs new beside h early = (
      make_request-early request q queued wait sender (err e) (λ q. ended q (err e)) es p
          (λ p' k. step-unsent build name q e sender p' k) runs new beside early,
      make_request-early request q queued wait sender (err (error (unsupported_command b)))
          (λ q. received (b ∷ q ∷ rest)) es p
          (λ p' k. step-refused build name q b rest sender p' h k) runs new beside early,
    )

    -- A request times out: the transmitting task takes its command, for a sender that neither
    -- waits nor was handed anything, while the receiving task runs; events follow that neither
    -- reuse its sequence number or its sender, nor answer it, nor fail it, nor end the receiving
    -- task; and the well-formed, solicited reply with its number comes only after `timeout` has
    -- elapsed since the command is in its queue. `make_request` returns the elapsed error.
    pub make_request_elapsed :
        (request : Request) (q queued status wait : ℕ) (sender : S) (r : Response) (es : Timed S)
        (p : Senders S)
        → IsResponse r
        → solicited r ≡ true
        → p.running ≡ true
        → uses build name sender p ≡ 0
        → All (IsBeside q sender) es
        → timeout < queued + (duration es + wait)
        → (let last = λ (q : ℕ). received (response_frame r q status) in
            make_request (channel_of queued sender es wait last p) request q
            ≡ (err from_elapsed, (q + 1) % 256))
    unfolding make_request next
    make_request_elapsed request q queued status wait sender r es p h s runs new b late =
        rw
          (
            arrival-exchange q queued wait sender (ok r) (received (response_frame r q status)) es p
                (λ p' k. step-reply build name q status sender r p' h s k) runs new b,
            timer.in_time-after timeout (queued + (duration es + wait)) late,
          )
          refl
