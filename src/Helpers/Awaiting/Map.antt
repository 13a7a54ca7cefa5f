-- ===== src/Helpers/Awaiting/Map.antt =====
-- The map of pending ids: which sender is registered after each operation.
use tophamm.Base.{refl, some, ◌≡◌, ite, List, [], ◌∷◌, none, arith}
use tophamm.Helpers.Awaiting.{lookup, remove, register, deregister}

module _ {Key : Type 0} {S : Type 0} (same : Discrete Key) where
  pub lookup-remove :
      (id j : Key) (map : List (Key × S))
      → lookup same j (remove same id map) ≡ ite (same id j) none (lookup same j map)
  unfolding lookup remove
  lookup-remove id j [] = ground arith
  lookup-remove id j ((i, s) ∷ map) = ground (arith, lookup-remove id j map)

  pub lookup-register :
      (id j : Key) (sender : S) (map : List (Key × S))
      → lookup same j (register same id sender map)
        ≡ ite (same id j) (some sender) (lookup same j map)
  unfolding register lookup
  lookup-register id j sender map = ground (arith, lookup-remove id j map)

  pub deregister_lem :
      (id : Key) (map : List (Key × S))
      → deregister same id map ≡ (lookup same id map, remove same id map)
  unfolding deregister
  deregister_lem id map = refl

  pub remove_missing :
      (id : Key) (map : List (Key × S)) → lookup same id map ≡ none → remove same id map ≡ map
  unfolding lookup remove
  remove_missing id [] h = refl
  remove_missing id ((j, s) ∷ map) h = ground (arith, remove_missing id map)
