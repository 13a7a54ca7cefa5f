-- ===== src/Calls/Totals.antt =====
-- Sums over the calls of a history: which of them were taken, and what their numbers are.
use mathlib.Core.List.{Perm, Permᴰ}
use mathlib.Core.Logic.{∥∥₁_elim}
use mathlib.Mathlib.Data.Multiset.Defs.{coe-eq-coe}
use native.Mathlib.Nat.{ℕ_set}
use tophamm.Base.{
  none, some, Option, some, Option, ◌%◌, ℕ, ◌+◌, ◌≤◌, ◌<◌, ◌≡◌, refl, sym, ap, ◌∙◌, ltb,
  if◌then◌else◌, ite, All, List, [], ◌∷◌, ◌++◌, arith,
}
use tophamm.Helpers.IncrementingId.{next, new_id}
use tophamm.Calls.{sent_in, enter, Mpsc, Item, Calls, Event, start}
use tophamm.Calls.Conserved.{Runs, made, numbered, all, of_list-made}

module _ {A : Type 0} (f : A → ℕ) where
  abbrev pub total : List A → ℕ
  total [] = 0
  total (x ∷ xs) = f x + total xs

  pub total-append : (xs ys : List A) → total (xs ++ ys) ≡ total xs + total ys
  total-append [] ys = omega arith
  total-append (x ∷ xs) ys = omega (arith, total-append xs ys)

  total-Permᴰ : {xs ys : List A} → Permᴰ xs ys → total xs ≡ total ys
  total-Permᴰ Permᴰ.nil = refl
  total-Permᴰ (Permᴰ.cons e p) = omega (arith, ap f e, total-Permᴰ p)
  total-Permᴰ (Permᴰ.swap e e') = omega (arith, ap f e, ap f e')
  total-Permᴰ (Permᴰ.trans p q) = total-Permᴰ p ∙ total-Permᴰ q

  pub total-Perm : {xs ys : List A} → Perm xs ys → total xs ≡ total ys
  total-Perm p = ∥∥₁_elim p (ℕ_set _ _) total-Permᴰ

module _ {R S C : Type 0} (mpsc : Mpsc (Item R S) C) where
  -- Over all calls of a history, and over those that were taken.
  pub total-all :
      (f : Item R S → ℕ) {y : Calls R S C} {es : List (Event R S)}
      → Runs mpsc (start mpsc) es y
      → total f (all mpsc y) ≡ total f (numbered new_id (made es))
  total-all f r = sym (total-Perm f (coe-eq-coe.0 (of_list-made mpsc r)))

  pub total-taken_le :
      (f : Item R S → ℕ) {y : Calls R S C} {es : List (Event R S)}
      → Runs mpsc (start mpsc) es y
      → total f y.taken ≤ total f (numbered new_id (made es))
  total-taken_le f {y} r =
      omega (arith, total-all f r, total-append f y.taken (mpsc.contents y.channel ++ y.waiting))

  -- One for a number that is no byte.
  abbrev pub too_big : Item R S → ℕ
  too_big item = if ltb item.0 256 then 0 else 1

  pub numbered-too_big :
      (ids : ℕ) (xs : List (R × S)) → ids < 256 → total too_big (numbered ids xs) ≡ 0
  unfolding next
  numbered-too_big ids [] h = refl
  numbered-too_big ids ((request, sender) ∷ xs) h =
      ground (arith, numbered-too_big ((ids + 1) % 256) xs (omega arith))

  none_too_big :
      (xs : List (Item R S)) → total too_big xs ≡ 0 → All (λ (a : Item R S). a.0 < 256) xs
  none_too_big [] h = tt
  none_too_big (x ∷ xs) h = (ground arith, none_too_big xs (omega arith))

  -- The numbers of the calls are bytes.
  pub taken-IsU8 :
      {y : Calls R S C} {es : List (Event R S)}
      → Runs mpsc (start mpsc) es y
      → All (λ (a : Item R S). a.0 < 256) y.taken
  unfolding new_id
  taken-IsU8 {y} {es} r =
      none_too_big y.taken
        (omega (arith, total-taken_le too_big r, numbered-too_big 0 (made es) (omega arith)))

module _ {R S : Type 0} (name : Discrete S) (s : S) where
  -- One for a call that carries the sender.
  abbrev pub carries : Item R S → ℕ
  carries item = ite (name item.2 s) 1 0

  -- How many calls carry it.
  abbrev pub asks : List (R × S) → ℕ
  asks [] = 0
  asks ((request, sender) ∷ xs) = ite (name sender s) 1 0 + asks xs

  pub total-numbered : (ids : ℕ) (xs : List (R × S)) → total carries (numbered ids xs) ≡ asks xs
  total-numbered ids [] = refl
  total-numbered ids ((request, sender) ∷ xs) = omega (arith, total-numbered (next ids).1 xs)

module _ {S : Type 0} where
  -- These two tests, of a number and a sender.
  abbrev pub named : Discrete S → S → ℕ → S → ℕ
  named name s id sender = ite (name sender s) 1 0

  abbrev pub big : ℕ → S → ℕ
  big id sender = if ltb id 256 then 0 else 1

  -- A weight of numbers and senders, as one of calls.
  abbrev pub weight : (ℕ → S → ℕ) → {R : Type 0} → Item R S → ℕ
  weight g item = g item.0 item.2

pub enter-taken :
    {R S C : Type 0} (mpsc : Mpsc (Item R S) C) (o : Option (Item R S × List (Item R S)))
    (x y : Calls R S C)
    → enter mpsc o x ≡ some y
    → y.taken ≡ x.taken
enter-taken mpsc none x y h = ground arith
enter-taken {R} {S} {C} mpsc (some (a, rest)) x y h = sent (mpsc.try_send a x.channel) h
  where
    sent : (o : Option C) → sent_in o rest x ≡ some y → y.taken ≡ x.taken
    sent none e = ground arith
    sent (some c) e = ground arith
