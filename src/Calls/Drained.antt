-- ===== src/Calls/Drained.antt =====
-- How a task can take all that is in its channel or waits for room in it, one item at a time.
use tophamm.Base.{
  ℕ, zero, suc, ◌+◌, ◌*◌, ◌<◌, ◌≤◌, ◌≡◌, ap, ◌∙◌, inl, inr, List-cases, List, [], ◌∷◌, ◌++◌, length,
  some, arith,
}
use tophamm.Calls.{Mpsc, Item, Calls}

module _ {R S C : Type 0} (mpsc : Mpsc (Item R S) C) where
  -- An item that waits for room counts twice: it goes in, and it is taken.
  abbrev pub left_in : Calls R S C → ℕ
  left_in x = length (mpsc.contents x.channel) + 2 * length x.waiting

  pub entered-lt :
      (x : Calls R S C) (item : Item R S) (rest : List (Item R S)) (c : C)
      → mpsc.contents x.channel ≡ []
      → x.waiting ≡ item ∷ rest
      → mpsc.try_send item x.channel ≡ some c
      → left_in (record x { waiting = rest; channel = c }) < left_in x
  entered-lt x item rest c e w g =
      let one =
        mpsc.contents-try_send item x.channel c g
        ∙ ap (λ (l : List (Item R S)). l ++ item ∷ []) e in
      omega (arith, ap length w, ap length e, ap length one)

  pub received-lt :
      (x : Calls R S C) (item : Item R S) (c : C)
      → mpsc.recv x.channel ≡ some (item, c)
      → left_in (record x { channel = c }) < left_in x
  received-lt x item c g = omega (arith, ap length (mpsc.contents-recv item x.channel c g))

module _ {R S C : Type 0} (mpsc : Mpsc (Item R S) C) {Y : Type 0} (calls : Y → Calls R S C)
    (Ready : Y → Type 0) (Settles : Y → Type 0) where
  -- The ready states with less left settle.
  abbrev pub SmallerSettle : Y → Type 0
  SmallerSettle y = (z : Y) → Ready z → left_in mpsc (calls z) < left_in mpsc (calls y) → Settles z

  -- What a ready state does with nothing left, with room for an item, and with an item to take.
  pub record Drains : Type 0 where
    pub settles :
        (y : Y)
        → Ready y
        → mpsc.contents (calls y).channel ≡ []
        → (calls y).waiting ≡ []
        → Settles y
    pub enters :
        (y : Y) (item : Item R S) (rest : List (Item R S))
        → Ready y
        → mpsc.contents (calls y).channel ≡ []
        → (calls y).waiting ≡ item ∷ rest
        → SmallerSettle y
        → Settles y
    pub takes :
        (y : Y) (item : Item R S) (rest : List (Item R S))
        → Ready y
        → mpsc.contents (calls y).channel ≡ item ∷ rest
        → SmallerSettle y
        → Settles y

  module _ (d : Drains) where
    at_once : (y : Y) → Ready y → SmallerSettle y → Settles y
    at_once y r again = elim (List-cases (mpsc.contents (calls y).channel)) [
      | inl e ↦ elim (List-cases (calls y).waiting) [
        | inl w ↦ d.settles y r e w
        | inr (item, rest, w) ↦ d.enters y item rest r e w again
      ]
      | inr (item, rest, e) ↦ d.takes y item rest r e again
    ]

    within : (n : ℕ) (y : Y) → Ready y → left_in mpsc (calls y) ≤ n → Settles y
    within zero y r m = at_once y r (λ z k l. absurd (omega (arith, m, l)))
    within (suc n) y r m = at_once y r (λ z k l. within n z k (omega (arith, m, l)))

    pub Ready-Settles : (y : Y) → Ready y → Settles y
    Ready-Settles y r = within (left_in mpsc (calls y)) y r (omega arith)
