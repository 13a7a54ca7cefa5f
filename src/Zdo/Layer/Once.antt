-- ===== src/Zdo/Layer/Once.antt =====
-- What the callers of the zdo layer can rely on, however the steps of its tasks are interleaved.
use mathlib.Mathlib.Data.Multiset.Defs.{of_list}
use tophamm.Base.{
  ℕ, ℕ_discrete, ◌≤◌, ◌≡◌, sym, ap, subst, length, List, [], ◌∷◌, Option, none, some, arith,
}
use mathlib.Core.Option.{some-injective}
use tophamm.Deconz.Types.{ApsDataRequest, ApsDataIndication, ApsDataConfirm}
use tophamm.Helpers.Awaiting.Delivery.{delivered, delivered-run-le}
use tophamm.Helpers.Awaiting.Bounded.{IsBounded, length_le, run-IsBounded}
use tophamm.Helpers.IncrementingId.{new_id}
use tophamm.Deconz.Errors
use tophamm.Zdo.Errors.{Result}
use tophamm.Zdo.Transactions.Exchange
use tophamm.Zdo.Transactions.Exchange.History.{registered-weights, weights-IsBelow}
use tophamm.Calls
use tophamm.Calls.{Calls, Mpsc, Item, enter, pick, receive}
use tophamm.Calls.Conserved
use tophamm.Calls.Conserved.{made, numbered, all, of_list-made}
use tophamm.Calls.Totals.{
  total-taken_le, total-numbered, asks, weight, named, big, numbered-too_big,
}
use tophamm.Zdo.Layer.Follows.{Runs-Follows}
use tophamm.Zdo.Layer.{
  Layer, Event, on_requests, task_polled, request_ended, indication_received, with_requests, spawn,
  begin_request, end_request, step, start, Runs, done, more,
}

module _ {S : Type 0} where
  -- What happens on the channel.
  abbrev pub on_channel : List (Event S) → List (Calls.Event ApsDataRequest S)
  on_channel [] = []
  on_channel (on_requests e ∷ es) = e ∷ on_channel es
  on_channel (task_polled n ∷ es) = on_channel es
  on_channel (request_ended n result ∷ es) = on_channel es
  on_channel (indication_received indication ∷ es) = on_channel es

module _ {S C : Type 0} (requests : Mpsc (Item ApsDataRequest S) C) where
  with_requests-enter :
      (o : Option (Calls ApsDataRequest S C)) (x y : Layer S C)
      → with_requests o x ≡ some y
      → o ≡ some y.requests
  with_requests-enter none x y h = ground arith
  with_requests-enter (some c) x y h =
      ap some (ap (λ (z : Layer S C). z.requests) (some-injective _ _ h))

  spawn-receive :
      (o : Option (Item ApsDataRequest S × C)) (x y : Layer S C)
      → spawn o x ≡ some y
      → receive requests o x.requests ≡ some y.requests
  spawn-receive none x y h = ground arith
  spawn-receive (some (item, c)) x y h =
      ap some (ap (λ (z : Layer S C). z.requests) (some-injective _ _ h))

  begin_request-same :
      (o : Option (Item ApsDataRequest S × List (Item ApsDataRequest S))) (x y : Layer S C)
      → begin_request o x ≡ some y
      → x.requests ≡ y.requests
  begin_request-same none x y h = ground arith
  begin_request-same (some ((id, r, s), rest)) x y h =
      ap (λ (z : Layer S C). z.requests) (some-injective _ _ h)

  end_request-same :
      (o : Option ((ℕ × ApsDataRequest) × List (ℕ × ApsDataRequest))) (x y : Layer S C)
      (result : Errors.Result ApsDataConfirm)
      → end_request o result x ≡ some y
      → x.requests ≡ y.requests
  end_request-same none x y result h = ground arith
  end_request-same (some ((id, r), rest)) x y result h =
      ap (λ (z : Layer S C). z.requests) (some-injective _ _ h)

  abbrev Continues : Calls ApsDataRequest S C → Calls ApsDataRequest S C → List (Event S) → Type 0
  Continues c d es = Conserved.Runs requests c (on_channel es) d

  Runs-channel :
      {x y : Layer S C} {es : List (Event S)}
      → Runs requests x es y
      → Conserved.Runs requests x.requests (on_channel es) y.requests
  unfolding step Calls.step
  Runs-channel (done x) = Conserved.done x.requests
  Runs-channel (more {x} {y} {z} {e = on_requests (Calls.called r s)} {es} h q) =
      Conserved.more (ap some (ap (λ (l : Layer S C). l.requests) (some-injective _ _ h)))
        (Runs-channel q)
  Runs-channel (more {x} {y} {z} {e = on_requests (Calls.entered n)} {es} h q) =
      Conserved.more (with_requests-enter _ x y h) (Runs-channel q)
  Runs-channel (more {x} {y} {z} {e = on_requests Calls.received} {es} h q) =
      Conserved.more (spawn-receive _ x y h) (Runs-channel q)
  Runs-channel (more {x} {y} {z} {e = task_polled n} {es} h q) =
      subst (λ (c : Calls ApsDataRequest S C). Continues c z.requests es)
        (sym (begin_request-same _ x y h)) (Runs-channel q)
  Runs-channel (more {x} {y} {z} {e = request_ended n result} {es} h q) =
      subst (λ (c : Calls ApsDataRequest S C). Continues c z.requests es)
        (sym (end_request-same _ x y result h)) (Runs-channel q)
  Runs-channel (more {x} {y} {z} {e = indication_received i} {es} h q) =
      subst (λ (c : Calls ApsDataRequest S C). Continues c z.requests es)
        (sym (ap (λ (l : Layer S C). l.requests) (some-injective _ _ h))) (Runs-channel q)

  -- However the steps of the callers, of the two tasks and of the spawned tasks are interleaved
  -- from their start: the requests that are called for, under consecutive transaction ids modulo
  -- 256, are as a multiset those that the transmitting task has taken, those in the channel and
  -- those that wait for room in it; a sender is handed at most as many results as there are calls
  -- that carry it; and the map of senders never holds more than 256 of them.
  pub make_requests-once :
      (name : Discrete S) (s : S) {y : Layer S C} {es : List (Event S)}
      → Runs requests (start requests) es y
      → (of_list (numbered new_id (made (on_channel es))) ≡ of_list (all requests y.requests))
        × (delivered name s y.senders.log ≤ asks name s (made (on_channel es)))
        × (length y.senders.awaiting ≤ 256)
  unfolding start Exchange.start Calls.start new_id
  make_requests-once name s {y} {es} r =
      let p = Runs-Follows requests r in
      let c = Runs-channel r in
      let once = delivered-run-le ℕ_discrete name s p.history in
      let bounded =
        run-IsBounded 256 p.history [] []
          (weights-IsBelow p.history (
            omega (
              arith,
              p.requests big,
              total-taken_le requests (weight big) c,
              numbered-too_big requests 0 (made (on_channel es)) (omega arith),
            )))
          (record { once = λ i. omega arith; small = tt }) in
      (
        of_list-made requests c,
        omega (
          arith,
          ap (λ (q : List (ℕ × S) × List (S × Result ApsDataIndication)). delivered name s q.1)
              p.run,
          once,
          registered-weights name s p.history,
          p.requests (named name s),
          total-taken_le requests (weight (named name s)) c,
          total-numbered name s new_id (made (on_channel es)),
        ),
        length_le 256 _ (
            subst (λ (q : List (ℕ × S) × List (S × Result ApsDataIndication)). IsBounded 256 q.0)
              (sym p.run) bounded),
      )
