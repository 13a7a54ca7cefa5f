-- ===== src/Deconz/Library/Weights.antt =====
-- Sums over a run of the tasks of Deconz/System, by what begins in it.
use tophamm.Base.{ℕ, ◌+◌, ◌≡◌, List, [], ◌∷◌, ◌++◌, arith}
use tophamm.Deconz.Exchange.{began}
use tophamm.Deconz.System

module _ {S : Type 0} (g : ℕ → S → ℕ) where
  -- A weight of the commands that begin in a run of the tasks, of the data requests, and of items.
  abbrev pub command_weight : System.Event S → ℕ
  command_weight (System.on_serial (began q s)) = g q s
  command_weight _ = 0

  abbrev pub request_weight : System.Event S → ℕ
  request_weight (System.taken id s) = g id s
  request_weight _ = 0

  abbrev pub command_weights : List (System.Event S) → ℕ
  command_weights [] = 0
  command_weights (e ∷ es) = command_weight e + command_weights es

  abbrev pub request_weights : List (System.Event S) → ℕ
  request_weights [] = 0
  request_weights (e ∷ es) = request_weight e + request_weights es

  pub command_weights-append :
      (es fs : List (System.Event S))
      → command_weights (es ++ fs) ≡ command_weights es + command_weights fs
  command_weights-append [] fs = omega arith
  command_weights-append (e ∷ es) fs = omega (arith, command_weights-append es fs)

  pub request_weights-append :
      (es fs : List (System.Event S))
      → request_weights (es ++ fs) ≡ request_weights es + request_weights fs
  request_weights-append [] fs = omega arith
  request_weights-append (e ∷ es) fs = omega (arith, request_weights-append es fs)
