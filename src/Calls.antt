-- ===== src/Calls.antt =====
-- Calls that send a numbered item to a task through a bounded channel of tokio: those of `Deconz`
-- in deconz/src/deconz.rs to its two channels, and those of `Zdo` in tophamm/src/zdo/mod.rs. A
-- call takes its number first; then it waits until the channel has room, and others may go in
-- before it.
pub mod Conserved
pub mod Totals
pub mod Drained
use mathlib.Core.Option.{some-injective}
use tophamm.Base.{ap, sym, ℕ, zero, suc, ◌≡◌, refl, List, [], ◌∷◌, ◌++◌, Option, none, some, arith}
use tophamm.Helpers.IncrementingId.{next, new_id}

-- What the code uses of tokio's `mpsc::channel`. The laws are the documentation's: `send` puts an
-- item behind the others once there is room, and `recv` takes the first. A `try_send` that gives
-- nothing is a `send` that still waits, and such a `recv` one that waits; an empty channel has
-- room, and a `recv` on one that is not empty does not wait.
pub record Mpsc (A : Type 0) (C : Type 0) : Type 0 where
  pub empty : C
  pub try_send : A → C → Option C
  pub recv : C → Option (A × C)
  pub contents : C → List A
  pub contents-empty : contents empty ≡ []
  pub contents-try_send :
      (a : A) (c c' : C) → try_send a c ≡ some c' → contents c' ≡ contents c ++ a ∷ []
  pub contents-recv : (a : A) (c c' : C) → recv c ≡ some (a, c') → contents c ≡ a ∷ contents c'
  pub try_send-empty : (a : A) (c : C) → contents c ≡ [] → (c' : C) × (try_send a c ≡ some c')
  pub recv-contents :
      (a : A) (rest : List A) (c : C) → contents c ≡ a ∷ rest → (c' : C) × (recv c ≡ some (a, c'))

-- A number, what is asked, and the sender for the answer.
abbrev pub Item : Type 0 → Type 0 → Type 0
Item R S = ℕ × R × S

pub record Calls (R : Type 0) (S : Type 0) (C : Type 0) : Type 0 where
  pub ids : ℕ
  -- Those that have their number and wait for room.
  pub waiting : List (Item R S)
  pub channel : C
  -- What the task has taken so far, in order.
  pub taken : List (Item R S)

-- A call is made; one of those that wait, by its place, goes in; the task takes the first.
pub data Event (R : Type 0) (S : Type 0) : Type 0 where
  called : R → S → Event R S
  entered : ℕ → Event R S
  received : Event R S

abbrev pub pick : {A : Type 0} → ℕ → List A → Option (A × List A)
pick n [] = none
pick zero (x ∷ xs) = some (x, xs)
pick (suc n) (x ∷ xs) = elim (pick n xs) [ none ↦ none | some (y, rest) ↦ some (y, x ∷ rest) ]

module _ {R S C : Type 0} where
  abbrev pub call : R → S → Calls R S C → Calls R S C
  call request sender y =
      let (id, ids') = next y.ids in
      record y { ids = ids'; waiting = y.waiting ++ (id, request, sender) ∷ [] }

  abbrev pub took : Item R S → C → Calls R S C → Calls R S C
  took item channel y = record y { channel = channel; taken = y.taken ++ item ∷ [] }

  abbrev pub sent_in : Option C → List (Item R S) → Calls R S C → Option (Calls R S C)
  sent_in none rest y = none
  sent_in (some channel) rest y = some (record y { waiting = rest; channel = channel })

module _ {R S C : Type 0} (mpsc : Mpsc (Item R S) C) where
  abbrev pub enter : Option (Item R S × List (Item R S)) → Calls R S C → Option (Calls R S C)
  enter none y = none
  enter (some (item, rest)) y = sent_in (mpsc.try_send item y.channel) rest y

  abbrev pub receive : Option (Item R S × C) → Calls R S C → Option (Calls R S C)
  receive none y = none
  receive (some (item, channel)) y = some (took item channel y)

  unfoldable pub step : Event R S → Calls R S C → Option (Calls R S C)
  step (called request sender) y = some (call request sender y)
  step (entered n) y = enter (pick n y.waiting) y
  step received y = receive (mpsc.recv y.channel) y

  unfoldable pub start : Calls R S C
  start = record { ids = new_id; waiting = []; channel = mpsc.empty; taken = [] }

-- A channel with room for one item, for runs and examples.
module _ {A : Type 0} where
  abbrev contents_of : Option A → List A
  contents_of none = []
  contents_of (some a) = a ∷ []

  abbrev send_one : A → Option A → Option (Option A)
  send_one a none = some (some a)
  send_one a (some b) = none

  abbrev take_one : Option A → Option (A × Option A)
  take_one none = none
  take_one (some a) = some (a, none)

  pub contents_of-send_one :
      (a : A) (c c' : Option A) → send_one a c ≡ some c' → contents_of c' ≡ contents_of c ++ a ∷ []
  contents_of-send_one a none c' e = ap contents_of (sym (some-injective _ _ e))
  contents_of-send_one a (some b) c' e = ground arith

  pub contents_of-take_one :
      (a : A) (c c' : Option A) → take_one c ≡ some (a, c') → contents_of c ≡ a ∷ contents_of c'
  contents_of-take_one a none c' e = ground arith
  contents_of-take_one a (some b) c' e =
      ap (λ (p : A × Option A). p.0 ∷ contents_of p.1) (some-injective _ _ e)

  pub send_one_empty :
      (a : A) (c : Option A) → contents_of c ≡ [] → (c' : Option A) × (send_one a c ≡ some c')
  send_one_empty a none e = (some a, refl)
  send_one_empty a (some b) e = ground arith

  pub take_one_contents :
      (a : A) (rest : List A) (c : Option A)
      → contents_of c ≡ a ∷ rest
      → (c' : Option A) × (take_one c ≡ some (a, c'))
  take_one_contents a rest none e = ground arith
  take_one_contents a rest (some b) e = (none, ground arith)

  abbrev pub single : Mpsc A (Option A)
  single = record {
    empty = none;
    try_send = send_one;
    recv = take_one;
    contents = contents_of;
    contents-empty = refl;
    contents-try_send = contents_of-send_one;
    contents-recv = contents_of-take_one;
    try_send-empty = send_one_empty;
    recv-contents = take_one_contents;
  }
