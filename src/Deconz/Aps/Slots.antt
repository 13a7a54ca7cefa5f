-- ===== src/Deconz/Aps/Slots.antt =====
-- The flow control of the forwarding task: one request for each report of free slots.
use tophamm.Base.{ℕ, ◌+◌, ◌≤◌, ◌≡◌, Bool, true, false, List, [], ◌∷◌, some, arith}
use tophamm.Deconz.Aps.{Pending, Requests, Event, device_state, request, step, start}

abbrev slot : Bool → ℕ
slot false = 0
slot true = 1

module _ {S : Type 0} where
  -- The loop takes these events, in this order, from one state to another.
  pub data Runs : Requests S → List (Event S) → Requests S → Type 0 where
    done : (t : Requests S) → Runs t [] t
    more :
        {t u v : Requests S} {e : Event S} {es : List (Event S)}
        → step e t ≡ some u
        → Runs u es v
        → Runs t (e ∷ es) v

  -- How many requests a run forwards, and how many states it sees that report free slots.
  abbrev pub requests : List (Event S) → ℕ
  requests [] = 0
  requests (device_state d ∷ es) = requests es
  requests (request id r sender channel ∷ es) = requests es + 1

  abbrev pub reports : List (Event S) → ℕ
  reports [] = 0
  reports (device_state d ∷ es) = reports es + slot d.data_request_free_slots
  reports (request id r sender channel ∷ es) = reports es

  Runs-requests :
      {t u : Requests S} {es : List (Event S)}
      → Runs t es u
      → requests es ≤ reports es + slot t.request_free_slots
  unfolding step
  Runs-requests (done t) = omega arith
  Runs-requests (more {t = t} {u = u} {e = device_state d} {es = es} h r) =
      ground (arith, Runs-requests r)
  Runs-requests (more {t = t} {u = u} {e = request id q sender channel} {es = es} h r) =
      ground (arith, Runs-requests r)

  -- From the start of the task, every run forwards at most as many requests as it saw device
  -- states that report free slots, whatever comes back for the requests.
  pub requests-le-reports :
      (awaiting : Pending S) (sequence_ids : ℕ) {u : Requests S} {es : List (Event S)}
      → Runs (start awaiting sequence_ids) es u
      → requests es ≤ reports es
  unfolding start
  requests-le-reports awaiting sequence_ids r = omega (arith, Runs-requests r)
