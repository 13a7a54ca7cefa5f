-- ===== src/Deconz/Library/Forwarded.antt =====
-- No data request is stuck: while the receiving task runs, an adapter that reports free slots gets
-- them all.
use mathlib.Mathlib.Data.Multiset.Defs.{of_list}
use tophamm.Base.{
  ◌≡◌, refl, ap, ◌∙◌, inl, inr, true, Option-cases, List, [], ◌∷◌, Option, none, some,
}
use tophamm.Outcome.{ok}
use tophamm.Deconz.Types.{DeviceState, ApsDataRequest}
use tophamm.Deconz.Wire.External.{Byteorder}
use tophamm.Helpers.IncrementingId.{new_id}
use tophamm.Deconz.System
use tophamm.Deconz.System.{
  System, serial_step, broadcast_of, take_request, end_forwarding, woken_requests,
}
use tophamm.Calls
use tophamm.Calls.{Mpsc, Calls, Item, took, enter, pick, sent_in}
use tophamm.Calls.Drained.{Drains, SmallerSettle, Ready-Settles, entered-lt, received-lt}
use tophamm.Calls.Conserved.{made, numbered, of_list-taken}
use tophamm.Deconz.Library.Queues.{on_request_channel, Runs-Queues}
use tophamm.Deconz.Library.{
  External, Library, Event, on_requests, frame_received, requests_woken, request_forwarded, step,
  start, Runs, done, more,
}
use tophamm.Deconz.Library.Steps.{
  free, notification, IsReceiving, ended, notified, woken, taken, entered, step-ended,
  step-notified, step-woken, step-taken, step-entered, notified-broadcast,
}

module _ ⦃bo : Byteorder⦄ {S W C D Z : Type 0} (external : External S W C D Z) where
  open external use {build, watch, requests}

  -- Steps without a new call of a data request, to a state in which none is left.
  abbrev Settles : Library S W C D Z → Type 0
  Settles y =
      (es : List (Event S)) × (z : Library S W C D Z) × Runs external y es z
      × (made (on_request_channel es) ≡ [])
      × (requests.contents z.requests.channel ≡ [])
      × (z.requests.waiting ≡ [])

  then-Settles :
      (e : Event S) (x y : Library S W C D Z)
      → ((es : List (Event S)) → made (on_request_channel (e ∷ es)) ≡ made (on_request_channel es))
      → step external e x ≡ some y
      → Settles y
      → Settles x
  then-Settles e x y m h (es, z, r, n, s, w) = (e ∷ es, z, more h r, m es ∙ n, s, w)

  abbrev requests_of : Library S W C D Z → Calls ApsDataRequest S D
  requests_of y = y.requests

  abbrev SmallerSettles : Library S W C D Z → Type 0
  SmallerSettles y = SmallerSettle requests requests_of (IsReceiving external) Settles y

  -- With a forwarding that has ended, the next request is taken.
  one_is_taken :
      (y : Library S W C D Z) (item : Item ApsDataRequest S) (rest : List (Item ApsDataRequest S))
      → IsReceiving external y
      → requests.contents y.requests.channel ≡ item ∷ rest
      → SmallerSettles y
      → y.system.forwarding ≡ none
      → Settles y
  one_is_taken y item rest r e again f =
      let (b, r') = notified-broadcast external y.system.serial r in
      let seen =
        ap (λ (o : Option DeviceState). watch.unseen (System.told watch o y.system.requests_watch))
          b
        ∙ watch.unseen-broadcast free y.system.requests_watch in
      let (w, v) = watch.recv-unseen free (notified external y).system.requests_watch seen in
      let (c, g) = requests.recv-contents item rest y.requests.channel e in
      let x = woken external w (notified external y) in
      then-Settles (frame_received notification) y (notified external y) (λ es. refl)
        (step-notified external y)
        (then-Settles requests_woken (notified external y) x (λ es. refl)
          (step-woken external w (notified external y) f v)
          (then-Settles (on_requests Calls.received) x (taken external item c x) (λ es. refl)
            (step-taken external item c x refl f g)
            (again (taken external item c x) r' (received-lt requests y.requests item c g))))

  drains : Drains requests requests_of (IsReceiving external) Settles
  drains = record {
    settles = λ y r e w. ([], y, done y, refl, e, w);
    enters = λ y item rest r e w again.
        let (c, g) = requests.try_send-empty item y.requests.channel e in
        then-Settles (on_requests (Calls.entered 0)) y (entered external rest c y) (λ es. refl)
          (step-entered external item rest c y w g)
          (again (entered external rest c y) r (entered-lt requests y.requests item rest c e w g));
    takes = λ y item rest r e again. elim (Option-cases y.system.forwarding) [
      | inl f ↦ one_is_taken y item rest r e again f
      | inr (id, f) ↦
          then-Settles (request_forwarded id (ok tt)) y (ended external id y) (λ es. refl)
            (step-ended external id y f)
            (one_is_taken (ended external id y) item rest r e again refl)
    ];
  }

  -- Steps from a state, without a new call of a data request, to one in which the forwarding task
  -- has taken all that were called for in a history.
  abbrev pub CanForwardAll : Library S W C D Z → List (Event S) → Type 0
  CanForwardAll y es =
      (fs : List (Event S)) × (z : Library S W C D Z) × Runs external y fs z
      × (made (on_request_channel fs) ≡ [])
      × (of_list z.requests.taken ≡ of_list (numbered new_id (made (on_request_channel es))))

  -- Whatever has happened since the start, while the receiving task runs, there are further steps,
  -- without a new call of a data request, to a state in which the forwarding task has taken all
  -- data requests that were called for, under their consecutive request ids modulo 256 and each
  -- once.
  pub Runs-CanForwardAll :
      {y : Library S W C D Z} {es : List (Event S)} (line : Z)
      → Runs external (start external line) es y
      → y.system.serial.running ≡ true
      → CanForwardAll y es
  unfolding start
  Runs-CanForwardAll {y} {es} line h r =
      let (fs, z, q, n, e, w) =
        Ready-Settles requests requests_of (IsReceiving external) Settles drains y r in
      (
        fs,
        z,
        q,
        n,
        of_list-taken requests y.requests z.requests (on_request_channel es) (on_request_channel fs)
            (Runs-Queues external h).1 (Runs-Queues external q).1 n e w,
      )
