-- ===== src/Zdo/Layer/Follows.antt =====
-- A run of the zdo layer, seen from its map of senders.
use mathlib.Core.Option.{some-injective}
use tophamm.Base.{
  ap, ℕ, ℕ_discrete, ◌+◌, ◌≡◌, refl, sym, ◌∙◌, subst, List, [], ◌∷◌, ◌++◌, Option, none, some,
  arith,
}
use tophamm.Deconz.Types.{ApsDataRequest, ApsDataIndication, ApsDataConfirm}
use tophamm.Deconz.Errors
use tophamm.Helpers.Awaiting.Delivery
use tophamm.Helpers.Awaiting.Delivery.{Call, registers, sends, registered}
use tophamm.Zdo.Errors.{Result}
use tophamm.Zdo.Transactions.Exchange.History.{
  shared, calls, step-run, weights, weights-append, ended-weights, indication-weights,
}
use tophamm.Zdo.Transactions.Exchange
use tophamm.Zdo.Transactions.Exchange.{began, ended, received, received_as}
use tophamm.Calls
use tophamm.Calls.{Calls, Mpsc, Item, enter, pick}
use tophamm.Calls.Conserved.{pick-Perm}
use tophamm.Calls.Totals.{total, total-append, total-Perm, weight, enter-taken}
use tophamm.Zdo.Layer.{
  Layer, Event, on_requests, task_polled, request_ended, indication_received, with_requests, spawn,
  begin_request, end_request, step, Runs, done, more,
}

module _ {S C : Type 0} where
  -- What the history of the map from one state to another is, with the weight of what was taken and
  -- of the tasks that have not run yet, whatever the weight.
  pub record Follows (x : Layer S C) (y : Layer S C) : Type 0 where
    pub history : List (Call ℕ S (Result ApsDataIndication))
    pub run : shared y.senders ≡ Delivery.run ℕ_discrete history (shared x.senders)
    pub requests :
        (g : ℕ → S → ℕ)
        → weights g history + total (weight g) y.spawned + total (weight g) x.requests.taken
          ≡ total (weight g) x.spawned + total (weight g) y.requests.taken

  Follows-still :
      (x y : Layer S C)
      → y.senders ≡ x.senders
      → y.spawned ≡ x.spawned
      → y.requests.taken ≡ x.requests.taken
      → Follows x y
  unfolding Delivery.run
  Follows-still x y f c d = record {
    history = [];
    run = ap shared f;
    requests = λ g. omega (arith, ap (total (weight g)) c, ap (total (weight g)) d);
  }

  Follows-trans : (x y z : Layer S C) → Follows x y → Follows y z → Follows x z
  Follows-trans x y z p q = record {
    history = p.history ++ q.history;
    run =
        q.run
        ∙ ap (Delivery.run ℕ_discrete q.history) p.run
        ∙ sym (Delivery.run-append ℕ_discrete p.history q.history (shared x.senders));
    requests = λ g. omega (arith, p.requests g, q.requests g, weights-append g p.history q.history);
  }

  -- A step of the senders in which none is registered.
  Follows-senders :
      (e : Exchange.Event S) (x y : Layer S C)
      → ((g : ℕ → S → ℕ) → weights g (calls x.senders.running e) ≡ 0)
      → y.senders ≡ Exchange.step e x.senders
      → y.spawned ≡ x.spawned
      → y.requests.taken ≡ x.requests.taken
      → Follows x y
  Follows-senders e x y z f c d = record {
    history = calls x.senders.running e;
    run = ap shared f ∙ step-run x.senders.running e x.senders refl;
    requests = λ g. omega (arith, z g, ap (total (weight g)) c, ap (total (weight g)) d);
  }

  with_requests-Follows :
      (o : Option (Calls ApsDataRequest S C)) (x y : Layer S C)
      → ((c : Calls ApsDataRequest S C) → o ≡ some c → c.taken ≡ x.requests.taken)
      → with_requests o x ≡ some y
      → Follows x y
  with_requests-Follows none x y k h = ground arith
  with_requests-Follows (some c) x y k h =
      subst (Follows x) (some-injective _ _ h) (Follows-still x _ refl refl (k c refl))

  spawn-Follows :
      (o : Option (Item ApsDataRequest S × C)) (x y : Layer S C) → spawn o x ≡ some y → Follows x y
  unfolding Delivery.run
  spawn-Follows none x y h = ground arith
  spawn-Follows (some (item, c)) x y h = subst (Follows x) (some-injective _ _ h) (record {
    history = [];
    run = refl;
    requests = λ g. omega (
      arith,
      total-append (weight g) x.spawned (item ∷ []),
      total-append (weight g) x.requests.taken (item ∷ []),
    );
  })

  begin_request-Follows :
      (o : Option (Item ApsDataRequest S × List (Item ApsDataRequest S))) (x y : Layer S C) (n : ℕ)
      → pick n x.spawned ≡ o
      → begin_request o x ≡ some y
      → Follows x y
  begin_request-Follows none x y n p h = ground arith
  begin_request-Follows (some ((id, r, s), rest)) x y n p h =
      subst (Follows x) (some-injective _ _ h) (record {
        history = registers id s ∷ [];
        run = step-run x.senders.running (began id s) x.senders refl;
        requests =
            λ g. omega (arith, total-Perm (weight g) (pick-Perm n x.spawned rest (id, r, s) p));
      })

  end_request-Follows :
      (o : Option ((ℕ × ApsDataRequest) × List (ℕ × ApsDataRequest)))
      (result : Errors.Result ApsDataConfirm) (x y : Layer S C)
      → end_request o result x ≡ some y
      → Follows x y
  end_request-Follows none result x y h = ground arith
  end_request-Follows (some ((id, r), rest)) result x y h =
      subst (Follows x) (some-injective _ _ h) (
        Follows-senders (ended id result) x _ (ended-weights x.senders.running id result) refl refl
          refl)

module _ {S C : Type 0} (requests : Mpsc (Item ApsDataRequest S) C) where
  step-Follows : (e : Event S) (x y : Layer S C) → step requests e x ≡ some y → Follows x y
  unfolding step
  step-Follows (on_requests (Calls.called r s)) x y h =
      subst (Follows x) (some-injective _ _ h) (Follows-still x _ refl refl refl)
  step-Follows (on_requests (Calls.entered n)) x y h =
      with_requests-Follows _ x y
        (λ c. enter-taken requests (pick n x.requests.waiting) x.requests c) h
  step-Follows (on_requests Calls.received) x y h = spawn-Follows _ x y h
  step-Follows (task_polled n) x y h = begin_request-Follows _ x y n refl h
  step-Follows (request_ended n result) x y h = end_request-Follows _ result x y h
  step-Follows (indication_received indication) x y h = subst (Follows x) (some-injective _ _ h) (
      Follows-senders (received indication) x _ (indication-weights x.senders.running indication)
        refl refl refl)

  pub Runs-Follows : {x y : Layer S C} {es : List (Event S)} → Runs requests x es y → Follows x y
  Runs-Follows (done x) = Follows-still x x refl refl refl
  Runs-Follows (more {x} {y} {z} {e} h r) =
      Follows-trans x y z (step-Follows e x y h) (Runs-Follows r)
