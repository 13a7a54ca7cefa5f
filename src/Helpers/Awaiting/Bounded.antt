-- ===== src/Helpers/Awaiting/Bounded.antt =====
-- How many senders wait: a map has one entry for each id.
use tophamm.Base.{
  ℕ, ℕ_discrete, zero, suc, ◌+◌, ◌≤◌, ◌<◌, ◌≡◌, refl, ltb, if◌then◌else◌, ite, List, [], ◌∷◌, All,
  length, arith,
}
use tophamm.Helpers.Awaiting.{remove, register, deregister, send}
use tophamm.Helpers.Awaiting.Delivery.{Call, registers, sends, step, run}

module _ {S : Type 0} where
  abbrev occurrences : ℕ → List (ℕ × S) → ℕ
  occurrences k [] = 0
  occurrences k ((j, s) ∷ map) = ite (ℕ_discrete j k) 1 0 + occurrences k map

  abbrev below : ℕ → List (ℕ × S) → ℕ
  below n [] = 0
  below n ((j, s) ∷ map) = (if ltb j n then 1 else 0) + below n map

  -- One entry for each id, and only ids below the bound.
  pub record IsBounded (n : ℕ) (map : List (ℕ × S)) : Type 0 where
    pub once : (k : ℕ) → occurrences k map ≤ 1
    pub small : All (λ (p : ℕ × S). p.0 < n) map

  occurrences-remove_self :
      (id : ℕ) (map : List (ℕ × S)) → occurrences id (remove ℕ_discrete id map) ≡ 0
  unfolding remove
  occurrences-remove_self id [] = refl
  occurrences-remove_self id ((j, s) ∷ map) = ground (arith, occurrences-remove_self id map)

  occurrences-remove_le :
      (k id : ℕ) (map : List (ℕ × S)) → occurrences k (remove ℕ_discrete id map) ≤ occurrences k map
  unfolding remove
  occurrences-remove_le k id [] = omega arith
  occurrences-remove_le k id ((j, s) ∷ map) = ground (arith, occurrences-remove_le k id map)

  remove-All :
      (P : ℕ × S → Type 0) (id : ℕ) (map : List (ℕ × S))
      → All P map
      → All P (remove ℕ_discrete id map)
  unfolding remove
  remove-All P id [] h = tt
  remove-All P id ((j, s) ∷ map) (h, hs) =
      let rest = remove ℕ_discrete id map in
      let kept = remove-All P id map hs in
      elim (ℕ_discrete j id) as (λ same. All P (ite same rest ((j, s) ∷ rest))) [
        | yes e ↦ kept
        | no d ↦ (h, kept)
      ]

  remove-IsBounded :
      (n id : ℕ) (map : List (ℕ × S)) → IsBounded n map → IsBounded n (remove ℕ_discrete id map)
  remove-IsBounded n id map h = record {
    once = λ k. omega (arith, occurrences-remove_le k id map, h.once k);
    small = remove-All _ id map h.small;
  }

  pub register-IsBounded :
      (n id : ℕ) (s : S) (map : List (ℕ × S))
      → id < n
      → IsBounded n map
      → IsBounded n (register ℕ_discrete id s map)
  unfolding register
  register-IsBounded n id s map l h = record {
    once = λ k.
        ground (arith, occurrences-remove_le k id map, occurrences-remove_self id map, h.once k);
    small = (l, remove-All _ id map h.small);
  }

  below-suc : (n : ℕ) (map : List (ℕ × S)) → below (suc n) map ≡ below n map + occurrences n map
  below-suc n [] = omega arith
  below-suc n ((j, s) ∷ map) = ground (arith, below-suc n map)

  below-zero : (map : List (ℕ × S)) → below 0 map ≡ 0
  below-zero [] = refl
  below-zero ((j, s) ∷ map) = ground (arith, below-zero map)

  below_le : (n : ℕ) (map : List (ℕ × S)) → ((k : ℕ) → occurrences k map ≤ 1) → below n map ≤ n
  below_le zero map h = omega (arith, below-zero map)
  below_le (suc n) map h = omega (arith, below-suc n map, below_le n map h, h n)

  below-length :
      (n : ℕ) (map : List (ℕ × S)) → All (λ (p : ℕ × S). p.0 < n) map → below n map ≡ length map
  below-length n [] h = refl
  below-length n ((j, s) ∷ map) (h, hs) = ground (arith, below-length n map hs)

  pub length_le : (n : ℕ) (map : List (ℕ × S)) → IsBounded n map → length map ≤ n
  length_le n map h = omega (arith, below-length n map h.small, below_le n map h.once)

module _ {S M : Type 0} where
  -- The call registers no id from the bound on.
  abbrev pub IsBelow : ℕ → Call ℕ S M → Type 0
  IsBelow n (registers id s) = id < n
  IsBelow n (sends id m) = Unit {0}

  step-IsBounded :
      (n : ℕ) (c : Call ℕ S M) (map : List (ℕ × S)) (log : List (S × M))
      → IsBelow n c
      → IsBounded n map
      → IsBounded n (step ℕ_discrete c (map, log)).0
  unfolding step send deregister
  step-IsBounded n (registers id s) map log l h = register-IsBounded n id s map l h
  step-IsBounded n (sends id m) map log l h = remove-IsBounded n id map h

  pub run-IsBounded :
      (n : ℕ) (cs : List (Call ℕ S M)) (map : List (ℕ × S)) (log : List (S × M))
      → All (IsBelow n) cs
      → IsBounded n map
      → IsBounded n (run ℕ_discrete cs (map, log)).0
  unfolding run
  run-IsBounded n [] map log ls h = h
  run-IsBounded n (c ∷ cs) map log (l, ls) h =
      let (map', log') = step ℕ_discrete c (map, log) in
      run-IsBounded n cs map' log' ls (step-IsBounded n c map log l h)
