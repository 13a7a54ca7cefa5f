-- ===== src/Helpers/Awaiting/Delivery.antt =====
-- Histories of calls on one `Awaiting`: who was handed a message, and how often.
use tophamm.Base.{
  some, if_pos, ◌≡◌, Option-cases, inl, inr, All, ◌∙◌, ◌≢◌, refl, none, ℕ, ◌+◌, ◌≤◌, ite, List, [],
  ◌∷◌, ◌++◌, arith,
}
use tophamm.Helpers.Awaiting.Map.{lookup-remove, lookup-register}
use tophamm.Helpers.Awaiting.{lookup, register, deregister, remove, Sent, returned, handed, send}

-- One call: a registration, or a message sent to an id. `register_while` is a registration and, if
-- its future fails, a send.
pub data Call (Key : Type 0) (S : Type 0) (M : Type 0) : Type 0 where
  registers : Key → S → Call Key S M
  sends : Key → M → Call Key S M

module _ {Key : Type 0} {S : Type 0} {M : Type 0} (same : Discrete Key) where
  abbrev delivery : Sent S M → List (S × M)
  delivery (returned m) = []
  delivery (handed s m) = (s, m) ∷ []

  -- The map and the messages handed over, the last one first.
  unfoldable pub step : Call Key S M → List (Key × S) × List (S × M) → List (Key × S) × List (S × M)
  step (registers id s) (map, log) = (register same id s map, log)
  step (sends id m) (map, log) =
      let (sent, rest) = send same id m map in (rest, delivery sent ++ log)

  unfoldable pub run :
      List (Call Key S M) → List (Key × S) × List (S × M) → List (Key × S) × List (S × M)
  unfolding step
  run [] p = p
  run (c ∷ cs) p = run cs (step c p)

  pub run-append :
      (cs ds : List (Call Key S M)) (p : List (Key × S) × List (S × M))
      → run (cs ++ ds) p ≡ run ds (run cs p)
  unfolding run
  run-append [] ds p = refl
  run-append (c ∷ cs) ds p = run-append cs ds (step c p)

module _ {S : Type 0} (name : Discrete S) (s : S) where
  -- How often a sender stands in a map, in a log, and in the registrations of a history.
  abbrev pub one : S → ℕ
  one x = ite (name x s) 1 0

  abbrev pub pending : {Key : Type 0} → List (Key × S) → ℕ
  pending [] = 0
  pending ((id, x) ∷ map) = one x + pending map

  abbrev pub delivered : {M : Type 0} → List (S × M) → ℕ
  delivered [] = 0
  delivered ((x, m) ∷ log) = one x + delivered log

  abbrev pub registered : {Key M : Type 0} → List (Call Key S M) → ℕ
  registered [] = 0
  registered (registers id x ∷ cs) = one x + registered cs
  registered (sends id m ∷ cs) = registered cs

  pub registered-append :
      {Key M : Type 0} (cs ds : List (Call Key S M))
      → registered (cs ++ ds) ≡ registered cs + registered ds
  registered-append [] ds = omega arith
  registered-append (registers id x ∷ cs) ds = omega (arith, registered-append cs ds)
  registered-append (sends id m ∷ cs) ds = registered-append cs ds

module _ {Key S : Type 0} (same : Discrete Key) (name : Discrete S) (s : S) where
  pending-remove :
      (id : Key) (map : List (Key × S)) → pending name s (remove same id map) ≤ pending name s map
  unfolding remove
  pending-remove id [] = omega arith
  pending-remove id ((j, x) ∷ map) = ground (arith, pending-remove id map)

  -- A sender that is found is removed.
  pub pending-lookup :
      (id : Key) (map : List (Key × S)) (x : S)
      → lookup same id map ≡ some x
      → one name s x + pending name s (remove same id map) ≤ pending name s map
  unfolding lookup remove
  pending-lookup id [] x e = cc
  pending-lookup id ((j, y) ∷ map) x e =
      ground (arith, pending-lookup id map x, pending-remove id map)

module _ {Key S M : Type 0} (same : Discrete Key) (name : Discrete S) (s : S) where
  abbrev pub total : List (Key × S) × List (S × M) → ℕ
  total (map, log) = pending name s map + delivered name s log

  step-total :
      (c : Call Key S M) (p : List (Key × S) × List (S × M))
      → total (step same c p) ≤ registered name s (c ∷ []) + total p
  unfolding step register send deregister
  step-total (registers id x) (map, log) = ground (arith, pending-remove same name s id map)
  step-total (sends id m) (map, log) = elim (Option-cases (lookup same id map)) [
    | inl e ↦ rw e (omega (arith, pending-remove same name s id map))
    | inr (x, e) ↦ rw e (omega (arith, pending-lookup same name s id map x e))
  ]

  pub run-total :
      (cs : List (Call Key S M)) (p : List (Key × S) × List (S × M))
      → total (run same cs p) ≤ registered name s cs + total p
  unfolding run
  run-total [] p = omega arith
  run-total (registers id x ∷ cs) p =
      omega (arith, run-total cs (step same (registers id x) p), step-total (registers id x) p)
  run-total (sends id m ∷ cs) p =
      omega (arith, run-total cs (step same (sends id m) p), step-total (sends id m) p)

  -- In any history from an empty map, a sender is handed at most as many messages as it was
  -- registered times, so a sender that is registered once is used at most once.
  pub delivered-run-le :
      (cs : List (Call Key S M)) → delivered name s (run same cs ([], [])).1 ≤ registered name s cs
  delivered-run-le cs = omega (arith, run-total cs ([], []))

module _ {Key S M : Type 0} (same : Discrete Key) where
  -- The call neither registers a sender for the id nor sends to it.
  abbrev pub LeavesAlone : Key → Call Key S M → Type 0
  LeavesAlone id (registers j x) = j ≢ id
  LeavesAlone id (sends j m) = j ≢ id

  step-lookup :
      (id : Key) (c : Call Key S M) (p : List (Key × S) × List (S × M))
      → LeavesAlone id c
      → lookup same id (step same c p).0 ≡ lookup same id p.0
  unfolding step send deregister
  step-lookup id (registers j x) (map, log) h = ground (arith, lookup-register same j id x map)
  step-lookup id (sends j m) (map, log) h = ground (arith, lookup-remove same j id map)

  pub run-lookup :
      (id : Key) (cs : List (Call Key S M)) (p : List (Key × S) × List (S × M))
      → All (LeavesAlone id) cs
      → lookup same id (run same cs p).0 ≡ lookup same id p.0
  unfolding run
  run-lookup id [] p h = refl
  run-lookup id (c ∷ cs) p (h, hs) = run-lookup id cs (step same c p) hs ∙ step-lookup id c p h

  -- A message sent to an id is handed to the sender that was registered for it last, whatever
  -- calls for other ids came between, and the id is then free.
  pub send_after_register :
      (id : Key) (s : S) (m : M) (cs : List (Call Key S M)) (map : List (Key × S))
      (log : List (S × M))
      → All (LeavesAlone id) cs
      → (let (map', log') = run same cs (step same (registers id s) (map, log)) in
          ((step same (sends id m) (map', log')).1 ≡ (s, m) ∷ log')
          × (lookup same id (step same (sends id m) (map', log')).0 ≡ none))
  unfolding step send deregister
  send_after_register id s m cs map log h =
      (rw found, lookup-remove same id id _ ∙ if_pos (same id id) refl _ _)
    where
      found : lookup same id (run same cs (step same (registers id s) (map, log))).0 ≡ some s
      found =
          run-lookup id cs (step same (registers id s) (map, log)) h
          ∙ lookup-register same id id s map
          ∙ if_pos (same id id) refl _ _
