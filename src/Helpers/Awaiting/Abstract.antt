-- ===== src/Helpers/Awaiting/Abstract.antt =====
-- `Awaiting` of tophamm-helpers/src/awaiting.rs as a map that is nothing but its answers: which
-- sender, if any, waits for a key.
use mathlib.Core.Path.{fun_ext}
use tophamm.Base.{
  ◌≡◌, refl, ap, ◌∙◌, ite, Option-cases, inl, inr, List, [], ◌∷◌, ◌++◌, Option, none, some,
}
use tophamm.Helpers.Awaiting.{lookup, deregister, send}
use tophamm.Helpers.Awaiting.Map.{lookup-remove, lookup-register}
use tophamm.Helpers.Awaiting.Delivery.{Call, registers, sends, step, run}

abbrev pub View : Type 0 → Type 0 → Type 0
View Key S = Key → Option S

abbrev pub put : {Key S : Type 0} → Discrete Key → Key → Option S → View Key S → View Key S
put same id o view = λ j. ite (same id j) o (view j)

abbrev pub given : {S M : Type 0} → Option S → M → List (S × M)
given none message = []
given (some sender) message = (sender, message) ∷ []

module _ {Key : Type 0} {S : Type 0} {M : Type 0} (same : Discrete Key) where
  -- What a history of calls promises: a registration replaces the sender of its key, and a message
  -- is handed to the sender of its key, if there is one, and takes it away.
  abbrev pub promised : Call Key S M → View Key S × List (S × M) → View Key S × List (S × M)
  promised (registers id sender) (view, log) = (put same id (some sender) view, log)
  promised (sends id message) (view, log) = (put same id none view, given (view id) message ++ log)

  abbrev pub all_promised :
      List (Call Key S M) → View Key S × List (S × M) → View Key S × List (S × M)
  all_promised [] p = p
  all_promised (c ∷ cs) p = all_promised cs (promised c p)

  abbrev pub seen : List (Key × S) × List (S × M) → View Key S × List (S × M)
  seen (map, log) = ((λ id. lookup same id map), log)

  step-promised :
      (c : Call Key S M) (p : List (Key × S) × List (S × M))
      → seen (step same c p) ≡ promised c (seen p)
  unfolding step send deregister
  step-promised (registers id sender) (map, log) =
      ap (λ (v : View Key S). (v, log)) (fun_ext (λ j. lookup-register same id j sender map))
  step-promised (sends id message) (map, log) =
      let rest = fun_ext (λ j. lookup-remove same id j map) in
      elim (Option-cases (lookup same id map)) [
        | inl e ↦ rw e (ap (λ (v : View Key S). (v, log)) rest)
        | inr (s, e) ↦ rw e (ap (λ (v : View Key S). (v, (s, message) ∷ log)) rest)
      ]

  -- For any history of calls on an association list, the senders that wait for each key afterwards,
  -- and the messages that were handed over, in their order, are those that the map of answers
  -- promises: the order of the list, and entries that are hidden, do not show.
  pub run-all_promised :
      (cs : List (Call Key S M)) (map : List (Key × S)) (log : List (S × M))
      → seen (run same cs (map, log)) ≡ all_promised cs (seen (map, log))
  unfolding run
  run-all_promised [] map log = refl
  run-all_promised (c ∷ cs) map log =
      let (map', log') = step same c (map, log) in
      run-all_promised cs map' log' ∙ ap (all_promised cs) (step-promised c (map, log))
