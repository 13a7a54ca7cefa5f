-- ===== src/Calls/Conserved.antt =====
-- No call is lost, and none is taken twice.
use mathlib.Core.List.{Perm}
use mathlib.Core.List.Perm
use mathlib.Core.Option.{some-injective}
use mathlib.Mathlib.Data.Multiset.Defs.{of_list, coe-eq-coe}
use tophamm.Base.{
  ℕ, zero, suc, ◌≡◌, refl, sym, ap, subst, ◌∙◌, append_assoc, append-nil, Option-cases, inl, inr,
  List, [], ◌∷◌, ◌++◌, Option, none, some, arith,
}
use tophamm.Helpers.IncrementingId.{next, new_id}
use tophamm.Calls.{
  Mpsc, Item, Calls, Event, called, entered, received, pick, enter, receive, sent_in, step, start,
}

module _ {R S : Type 0} where
  -- The calls that are made, in order.
  abbrev pub made_of : Event R S → List (R × S)
  made_of (called request sender) = (request, sender) ∷ []
  made_of _ = []

  abbrev pub made : List (Event R S) → List (R × S)
  made [] = []
  made (e ∷ es) = made_of e ++ made es

  pub made-append : (es fs : List (Event R S)) → made (es ++ fs) ≡ made es ++ made fs
  made-append [] fs = refl
  made-append (e ∷ es) fs =
      ap (◌++◌ (made_of e)) (made-append es fs) ∙ sym (append_assoc (made_of e) (made es) (made fs))

  -- With the numbers that a counter gives them.
  abbrev pub numbered : ℕ → List (R × S) → List (Item R S)
  numbered ids [] = []
  numbered ids ((request, sender) ∷ rest) =
      ((next ids).0, request, sender) ∷ numbered (next ids).1 rest

module _ {A : Type 0} where
  pub pick-Perm :
      (n : ℕ) (xs rest : List A) (a : A) → pick n xs ≡ some (a, rest) → Perm xs (a ∷ rest)
  pick-Perm n [] rest a h = ground arith
  pick-Perm zero (x ∷ xs) rest a h =
      subst (λ (p : A × List A). Perm (x ∷ xs) (p.0 ∷ p.1)) (some-injective _ _ h) Perm.rfl
  pick-Perm (suc n) (x ∷ xs) rest a h = elim (Option-cases (pick n xs)) [
    | inl e ↦ ground arith
    | inr ((y, ys), e) ↦
        subst (λ (p : A × List A). Perm (x ∷ xs) (p.0 ∷ p.1))
          (some-injective _ _ (sym (rw e refl) ∙ h))
          (Perm.trans (Perm.cons x (pick-Perm n xs ys y e)) (Perm.swap y x ys))
  ]

module _ {R S C : Type 0} (mpsc : Mpsc (Item R S) C) where
  pub data Runs : Calls R S C → List (Event R S) → Calls R S C → Type 0 where
    done : (y : Calls R S C) → Runs y [] y
    more :
        {x y z : Calls R S C} {e : Event R S} {es : List (Event R S)}
        → step mpsc e x ≡ some y
        → Runs y es z
        → Runs x (e ∷ es) z

  -- What was taken, what is in the channel, and what waits for room.
  abbrev pub all : Calls R S C → List (Item R S)
  all y = y.taken ++ (mpsc.contents y.channel ++ y.waiting)

  -- The numbers that are given from a state on, after an event.
  abbrev ids_after : Event R S → ℕ → ℕ
  ids_after (called request sender) ids = (next ids).1
  ids_after _ ids = ids

  numbered-made_of :
      (e : Event R S) (ids : ℕ) (rest : List (R × S))
      → numbered ids (made_of e ++ rest)
        ≡ numbered ids (made_of e) ++ numbered (ids_after e ids) rest
  numbered-made_of (called request sender) ids rest = refl
  numbered-made_of (entered n) ids rest = refl
  numbered-made_of received ids rest = refl

  abbrev Keeps : Calls R S C → Calls R S C → Type 0
  Keeps x y = (y.ids ≡ x.ids) × Perm (all x) (all y)

  Keeps-sent_in :
      (x y : Calls R S C) (a : Item R S) (rest : List (Item R S)) (o : Option C)
      → Perm x.waiting (a ∷ rest)
      → mpsc.try_send a x.channel ≡ o
      → sent_in o rest x ≡ some y
      → Keeps x y
  Keeps-sent_in x y a rest none p e h = ground arith
  Keeps-sent_in x y a rest (some c) p e h = subst (Keeps x) (some-injective _ _ h) (
    refl,
    subst (λ (l : List (Item R S)). Perm (all x) (x.taken ++ l))
        (sym (append_assoc (mpsc.contents x.channel) (a ∷ []) rest)
          ∙ ap (λ (l : List (Item R S)). l ++ rest) (sym (mpsc.contents-try_send a x.channel c e)))
        (Perm.append_left x.taken (Perm.append_left (mpsc.contents x.channel) p)),
  )

  enter-Perm :
      (x y : Calls R S C) (o : Option (Item R S × List (Item R S)))
      → ((a : Item R S) (rest : List (Item R S)) → o ≡ some (a, rest) → Perm x.waiting (a ∷ rest))
      → enter mpsc o x ≡ some y
      → Keeps x y
  enter-Perm x y none p h = ground arith
  enter-Perm x y (some (a, rest)) p h =
      Keeps-sent_in x y a rest (mpsc.try_send a x.channel) (p a rest refl) refl h

  receive-Perm :
      (x y : Calls R S C) (o : Option (Item R S × C))
      → mpsc.recv x.channel ≡ o
      → receive mpsc o x ≡ some y
      → Keeps x y
  receive-Perm x y none e h = ground arith
  receive-Perm x y (some (a, c)) e h = subst (Keeps x) (some-injective _ _ h) (
    refl,
    subst (Perm (all x))
        (rw (mpsc.contents-recv a x.channel c e)
          (sym (append_assoc x.taken (a ∷ []) (mpsc.contents c ++ x.waiting))))
        Perm.rfl,
  )

  step-Perm :
      (e : Event R S) (x y : Calls R S C)
      → step mpsc e x ≡ some y
      → (y.ids ≡ ids_after e x.ids) × Perm (all x ++ numbered x.ids (made_of e)) (all y)
  unfolding step
  step-Perm (called request sender) x y h =
      subst
        (λ (z : Calls R S C).
          (z.ids ≡ (next x.ids).1) × Perm (all x ++ ((next x.ids).0, request, sender) ∷ []) (all z))
        (some-injective _ _ h)
        (
          refl,
          subst (Perm (all x ++ ((next x.ids).0, request, sender) ∷ [])) (simp append_assoc refl)
              Perm.rfl,
        )
  step-Perm (entered n) x y h =
      rw append-nil (enter-Perm x y (pick n x.waiting) (λ a rest. pick-Perm n x.waiting rest a) h)
  step-Perm received x y h = rw append-nil (receive-Perm x y (mpsc.recv x.channel) refl h)

  Runs-Perm :
      {x y : Calls R S C} {es : List (Event R S)}
      → Runs x es y
      → Perm (all x ++ numbered x.ids (made es)) (all y)
  Runs-Perm (done x) = rw append-nil Perm.rfl
  Runs-Perm (more {x} {y} {z} {e} {es} h r) =
      let (f, p) = step-Perm e x y h in
      let next_ids = numbered-made_of e x.ids (made es) in
      subst (λ (l : List (Item R S)). Perm l (all z))
        (append_assoc (all x) (numbered x.ids (made_of e)) _ ∙ ap (◌++◌ (all x)) (sym (next_ids)))
        (Perm.trans (Perm.append_right _ p)
          (subst (λ n. Perm (all y ++ numbered n (made es)) (all z)) f (Runs-Perm r)))

  -- In any history, the calls, each with the next number, are those that the task has taken, those
  -- in the channel and those that wait for room: none is lost, made up or taken twice.
  pub of_list-made :
      {y : Calls R S C} {es : List (Event R S)}
      → Runs (start mpsc) es y
      → of_list (numbered new_id (made es)) ≡ of_list (all y)
  unfolding start
  of_list-made {y} {es} r = coe-eq-coe.1 (
      subst (λ (l : List (Item R S)). Perm ((l ++ []) ++ numbered new_id (made es)) (all y))
        mpsc.contents-empty (Runs-Perm r))

  pub Runs-append :
      {x y z : Calls R S C} {es fs : List (Event R S)}
      → Runs x es y
      → Runs y fs z
      → Runs x (es ++ fs) z
  Runs-append (done x) r = r
  Runs-append (more h q) r = more h (Runs-append q r)

  -- When no call was made since and none waits or is in the channel, all that were made are taken.
  pub of_list-taken :
      (y z : Calls R S C) (es fs : List (Event R S))
      → Runs (start mpsc) es y
      → Runs y fs z
      → made fs ≡ []
      → mpsc.contents z.channel ≡ []
      → z.waiting ≡ []
      → of_list z.taken ≡ of_list (numbered new_id (made es))
  of_list-taken y z es fs p q n e w =
      ap of_list (sym (rw (e, w) (append-nil z.taken)))
      ∙ sym (of_list-made (Runs-append p q))
      ∙ ap (λ (l : List (R × S)). of_list (numbered new_id l))
          (made-append es fs ∙ ap (◌++◌ (made es)) n ∙ append-nil _)
