-- ===== src/Deconz/Library/Steps.antt =====
-- Steps of the forwarding and the receiving task in a run of the library, up to the next request.
use tophamm.Base.{
  ℕ, ℕ_discrete, ◌≡◌, refl, ap, ◌∙◌, if_pos, true, false, Bool, if◌then◌else◌, List, ◌∷◌, Option,
  none, some, Bytes,
}
use tophamm.Outcome.{ok}
use tophamm.Deconz.Types.{DeviceState, default_device_state, ApsDataRequest}
use tophamm.Deconz.Wire.External.{Byteorder}
use tophamm.Deconz.Protocol.Response
use tophamm.Deconz.Protocol.Response.Encoding.{response_frame}
use tophamm.Deconz.Rx.{Processed, process_frame}
use tophamm.Deconz.Rx.Dispatch.{process_frame_notified}
use tophamm.Deconz.Exchange
use tophamm.Deconz.Exchange.{received_as}
use tophamm.Deconz.Aps.Confirmations
use tophamm.Deconz.System
use tophamm.Deconz.System.{
  System, serial_step, broadcast_of, take_request, end_forwarding, woken_requests,
}
use tophamm.Calls
use tophamm.Calls.{Mpsc, Calls, Item, took, enter, pick, sent_in}
use tophamm.Deconz.Library.{
  External, Library, on_requests, frame_received, requests_woken, request_forwarded, with_system,
  with_requests, begin_request, step,
}

-- The adapter's notification that it has free slots.
abbrev pub free : DeviceState
free = record default_device_state { data_request_free_slots = true }

abbrev pub notification : Bytes
notification = response_frame (Response.device_state_changed free) 0 0

module _ ⦃bo : Byteorder⦄ {S W C D Z : Type 0} (external : External S W C D Z) where
  open external use {build, watch, requests}

  abbrev pub IsReceiving : Library S W C D Z → Type 0
  IsReceiving y = y.system.serial.running ≡ true

  -- The states after a forwarding has ended, after the notification, after the forwarding task has
  -- seen it, and after it has taken a request.
  abbrev pub ended : ℕ → Library S W C D Z → Library S W C D Z
  ended id y = record y {
    system = record (y.system) {
      forwarding = none;
      aps = Confirmations.step (Confirmations.ended id (ok tt)) y.system.aps;
    };
  }

  abbrev pub notified : Library S W C D Z → Library S W C D Z
  notified y = record y {
    system = serial_step build watch (Exchange.received notification) y.system;
  }

  abbrev pub woken : W → Library S W C D Z → Library S W C D Z
  woken w y = record y {
    system = record (y.system) { requests_watch = w; request_free_slots = true };
  }

  abbrev pub taken : Item ApsDataRequest S → D → Library S W C D Z → Library S W C D Z
  taken item channel y = record y {
    requests = took item channel y.requests;
    system = record (y.system) {
      request_free_slots = false;
      forwarding = some item.0;
      aps = Confirmations.step (Confirmations.began item.0 item.2) y.system.aps;
    };
  }

  pub step-ended :
      (id : ℕ) (y : Library S W C D Z)
      → y.system.forwarding ≡ some id
      → step external (request_forwarded id (ok tt)) y ≡ some (ended id y)
  unfolding step System.step
  step-ended id y f =
      ap (λ (o : Option ℕ). with_system (end_forwarding o id (ok tt) y.system) y) f
      ∙ ap (λ (o : Option (System S W)). with_system o y) (if_pos (ℕ_discrete id id) refl _ _)

  pub step-notified :
      (y : Library S W C D Z) → step external (frame_received notification) y ≡ some (notified y)
  unfolding step
  step-notified y = refl

  pub step-woken :
      (w : W) (y : Library S W C D Z)
      → y.system.forwarding ≡ none
      → watch.recv y.system.requests_watch ≡ some (free, w)
      → step external requests_woken y ≡ some (woken w y)
  unfolding step System.step
  step-woken w y f e =
      ap
        (λ (o : Option ℕ).
          with_system (woken_requests o (watch.recv y.system.requests_watch) y.system) y)
        f
      ∙ ap (λ (o : Option (DeviceState × W)). with_system (woken_requests none o y.system) y) e

  pub step-taken :
      (item : Item ApsDataRequest S) (c : D) (y : Library S W C D Z)
      → y.system.request_free_slots ≡ true
      → y.system.forwarding ≡ none
      → requests.recv y.requests.channel ≡ some (item, c)
      → step external (on_requests Calls.received) y ≡ some (taken item c y)
  unfolding step System.step
  step-taken item c y t f e =
      ap (λ (o : Option (Item ApsDataRequest S × D)). begin_request external o y) e
      ∙ ap
          (λ (b : Bool).
            with_system (take_request b y.system.forwarding item.0 item.2 y.system)
              (record y { requests = took item c y.requests }))
          t
      ∙ ap
          (λ (o : Option ℕ).
            with_system (take_request true o item.0 item.2 y.system)
              (record y { requests = took item c y.requests }))
          f

  -- The receiving task broadcasts the notification, and goes on.
  pub notified-broadcast :
      (p : Exchange.Senders S)
      → p.running ≡ true
      → (broadcast_of build (Exchange.received notification) p ≡ some free)
        × ((Exchange.step build (Exchange.received notification) p).running ≡ true)
  unfolding broadcast_of Exchange.step
  notified-broadcast p r =
      let h = process_frame_notified build free 0 0 p.awaiting in
      (
        ap
              (λ (b : Bool).
                if b then (process_frame build notification p.awaiting).broadcast else none)
              r
            ∙ ap (λ (q : Processed S). q.broadcast) h,
        ap
              (λ (b : Bool).
                (elim b as (λ (c : Bool). Exchange.Senders S) [
                  | true ↦ received_as (process_frame build notification p.awaiting) p
                  | false ↦ p
                ]).running)
              r
            ∙ ap (λ (q : Processed S). (received_as q p).running) h,
      )

  -- The state after the first of those that wait goes in.
  abbrev pub entered : List (Item ApsDataRequest S) → D → Library S W C D Z → Library S W C D Z
  entered rest channel y = record y {
    requests = record (y.requests) { waiting = rest; channel = channel };
  }

  pub step-entered :
      (item : Item ApsDataRequest S) (rest : List (Item ApsDataRequest S)) (c : D)
      (y : Library S W C D Z)
      → y.requests.waiting ≡ item ∷ rest
      → requests.try_send item y.requests.channel ≡ some c
      → step external (on_requests (Calls.entered 0)) y ≡ some (entered rest c y)
  unfolding step
  step-entered item rest c y f e =
      ap
        (λ (l : List (Item ApsDataRequest S)).
          with_requests (enter requests (pick 0 l) y.requests) y)
        f
      ∙ ap (λ (o : Option D). with_requests (sent_in o rest y.requests) y) e
