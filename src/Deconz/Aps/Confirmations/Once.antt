-- ===== src/Deconz/Aps/Confirmations/Once.antt =====
-- No data request gets two messages, however the steps of the tasks of deconz/src/aps.rs are
-- interleaved.
use tophamm.Base.{
  ◌++◌, ℕ, ℕ_discrete, ◌+◌, ◌≤◌, ◌≡◌, refl, ap, Bool, true, false, ite, List, [], ◌∷◌, arith,
}
use tophamm.Outcome.{ok, err, panic}
use tophamm.Deconz.Types.{ApsDataConfirm}
use tophamm.Deconz.Errors.{Result}
use tophamm.Helpers.Awaiting.Delivery.{delivered, registered, registered-append, delivered-run-le}
use tophamm.Deconz.Aps.Confirmations.{
  Event, began, ended, woken, start, run, fetched, sends_fetched, sends_woken, calls, all_calls,
  run-run,
}

module _ {S : Type 0} (name : Discrete S) (s : S) where
  registered_fetched :
      (result : Result (ℕ × ApsDataConfirm)) → registered name s (sends_fetched result) ≡ 0
  registered_fetched (ok (id, confirm)) = refl
  registered_fetched (err e) = refl
  registered_fetched panic = refl

  registered_woken :
      (b : Bool) (result : Result (ℕ × ApsDataConfirm))
      → registered name s (sends_woken b result) ≡ 0
  registered_woken true result = registered_fetched result
  registered_woken false result = refl

  -- How many data requests carry the sender.
  abbrev pub begun : List (Event S) → ℕ
  begun [] = 0
  begun (began id x ∷ es) = ite (name x s) 1 0 + begun es
  begun (ended id result ∷ es) = begun es
  begun (woken state sequence_ids channel ∷ es) = begun es

  pub begun-append : (es fs : List (Event S)) → begun (es ++ fs) ≡ begun es + begun fs
  begun-append [] fs = omega arith
  begun-append (began id x ∷ es) fs = omega (arith, begun-append es fs)
  begun-append (ended id result ∷ es) fs = begun-append es fs
  begun-append (woken state sequence_ids channel ∷ es) fs = begun-append es fs

  registered-calls :
      (e : Event S) (es : List (Event S)) → registered name s (calls e) + begun es ≡ begun (e ∷ es)
  registered-calls (began id x) es = omega arith
  registered-calls (ended id (ok u)) es = omega arith
  registered-calls (ended id (err e)) es = omega arith
  registered-calls (ended id panic) es = omega arith
  registered-calls (woken state sequence_ids channel) es =
      omega (arith, registered_woken state.data_confirm (fetched channel sequence_ids))

  registered-all_calls : (es : List (Event S)) → registered name s (all_calls es) ≡ begun es
  registered-all_calls [] = refl
  registered-all_calls (e ∷ es) = omega (
    arith,
    registered-append name s (calls e) (all_calls es),
    registered-all_calls es,
    registered-calls e es,
  )

  -- A sender is handed at most as many messages as data requests carry it.
  pub delivered-le-begun : (es : List (Event S)) → delivered name s (run es start).1 ≤ begun es
  unfolding start
  delivered-le-begun es =
      rw
        (
          ap (λ (p : List (ℕ × S) × List (S × Result ApsDataConfirm)). p.1) (run-run es start),
          ← registered-all_calls es,
        )
        (delivered-run-le ℕ_discrete name s (all_calls es))
