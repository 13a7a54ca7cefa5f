-- ===== src/Deconz/Library/Line.antt =====
-- What the transmitting task puts on the serial line in a run of the library.
pub mod Frames
use mathlib.Core.Option.{some-injective}
use tophamm.Base.{◌≡◌, ◌∙◌, ap, refl, sym, subst, List, [], ◌∷◌, ◌++◌, Option, none, some, arith}
use tophamm.Outcome.{ok, err, panic}
use tophamm.Deconz.Types.{ApsDataRequest}
use tophamm.Deconz.Wire.External.{Byteorder}
use tophamm.Deconz.Errors.{Result}
use tophamm.Deconz.Protocol.Request.{Request}
use tophamm.Deconz.System.{System}
use tophamm.Deconz.Tx.{send_request}
use tophamm.Calls
use tophamm.Calls.{Calls, Item, enter, pick}
use tophamm.Calls.Totals.{enter-taken}
use tophamm.Deconz.Library.{
  External, Library, Event, on_commands, command_sent, on_requests, frame_received, requests_woken,
  request_forwarded, confirms_woken, indications_woken, Sending, idle, busy, dead, sending_after,
  with_system, with_commands, with_requests, begin_command, end_command, begin_request, step, start,
  Runs, done, more,
}

module _ ⦃bo : Byteorder⦄ {S W C D Z : Type 0} (external : External S W C D Z) where
  open external use {build, sink}

  -- The sink after these commands were sent to it one after the other.
  abbrev pub sends : List (Item Request S) → Z → Z
  sends [] line = line
  sends ((q, request, sender) ∷ items) line = sends items (send_request sink build q request line).1

  sends-append :
      (items others : List (Item Request S)) (line : Z)
      → sends (items ++ others) line ≡ sends others (sends items line)
  sends-append [] others line = refl
  sends-append ((q, r, s) ∷ items) others line =
      sends-append items others (send_request sink build q r line).1

  module _ (line : Z) where
    -- The sending of the last command that was taken, after those before it, panicked.
    abbrev pub HasPanicked : List (Item Request S) → Type 0
    HasPanicked taken =
        (items : List (Item Request S)) × (item : Item Request S) × (taken ≡ items ++ item ∷ [])
        × ((send_request sink build item.0 item.1 (sends items line)).0 ≡ panic)

    -- What the sink is, while the task is at a point of its loop: all commands that were taken are
    -- sent, but for the one that is being sent.
    abbrev pub IsAt : Sending → List (Item Request S) → Z → Type 0
    IsAt idle taken z = z ≡ sends taken line
    IsAt (busy q r) taken z =
        (items : List (Item Request S)) × (s : S) × (taken ≡ items ++ (q, r, s) ∷ [])
        × (z ≡ sends items line)
    IsAt dead taken z = HasPanicked taken

    abbrev pub IsOn : Library S W C D Z → Type 0
    IsOn y = IsAt y.sending y.commands.taken y.line

    IsOn-same :
        (x y : Library S W C D Z)
        → y.sending ≡ x.sending
        → y.commands.taken ≡ x.commands.taken
        → y.line ≡ x.line
        → IsOn x
        → IsOn y
    IsOn-same x y f g h k = rw (f, g, h) k

    all_sent :
        (items taken : List (Item Request S)) (item : Item Request S) (z : Z)
        → taken ≡ items ++ item ∷ []
        → z ≡ sends items line
        → (send_request sink build item.0 item.1 z).1 ≡ sends taken line
    all_sent items taken item z t e =
        ap (λ (w : Z). (send_request sink build item.0 item.1 w).1) e
        ∙ sym (sends-append items (item ∷ []) line)
        ∙ ap (λ (l : List (Item Request S)). sends l line) (sym t)

    after-IsAt :
        (items taken : List (Item Request S)) (item : Item Request S) (z : Z)
        (result : Result (Unit {0}))
        → taken ≡ items ++ item ∷ []
        → z ≡ sends items line
        → (send_request sink build item.0 item.1 z).0 ≡ result
        → IsAt (sending_after result) taken (send_request sink build item.0 item.1 z).1
    after-IsAt items taken item z (ok u) t e p = all_sent items taken item z t e
    after-IsAt items taken item z (err x) t e p = all_sent items taken item z t e
    after-IsAt items taken item z panic t e p =
        (items, item, t, ap (λ (w : Z). (send_request sink build item.0 item.1 w).0) (sym e) ∙ p)

    begin_command-IsOn :
        (sending : Sending) (o : Option (Item Request S × C)) (x y : Library S W C D Z)
        → x.sending ≡ sending
        → begin_command external sending o x ≡ some y
        → IsOn x
        → IsOn y
    begin_command-IsOn idle (some ((q, r, s), c)) x y f h k =
        let at_idle : IsAt idle x.commands.taken x.line =
          subst (λ (m : Sending). IsAt m x.commands.taken x.line) f k in
        subst IsOn (some-injective _ _ h) (x.commands.taken, s, refl, at_idle)
    begin_command-IsOn idle none x y f h k = ground arith
    begin_command-IsOn (busy q r) o x y f h k = ground arith
    begin_command-IsOn dead o x y f h k = ground arith

    end_command-IsOn :
        (sending : Sending) (x y : Library S W C D Z)
        → x.sending ≡ sending
        → end_command external sending x ≡ some y
        → IsOn x
        → IsOn y
    end_command-IsOn idle x y f h k = ground arith
    end_command-IsOn (busy q r) x y f h k =
        let (items, s, t, z) = subst (λ (m : Sending). IsAt m x.commands.taken x.line) f k in
        subst IsOn (some-injective _ _ h)
          (after-IsAt items x.commands.taken (q, r, s) x.line _ t z refl)
    end_command-IsOn dead x y f h k = ground arith

    with_system-IsOn :
        (o : Option (System S W)) (x y : Library S W C D Z)
        → with_system o x ≡ some y
        → IsOn x
        → IsOn y
    with_system-IsOn none x y h k = ground arith
    with_system-IsOn (some s) x y h k = IsOn-same x y (ground arith) (ground arith) (ground arith) k

    with_commands-IsOn :
        (o : Option (Calls Request S C)) (x y : Library S W C D Z)
        → ((c : Calls Request S C) → o ≡ some c → c.taken ≡ x.commands.taken)
        → with_commands o x ≡ some y
        → IsOn x
        → IsOn y
    with_commands-IsOn none x y t h k = ground arith
    with_commands-IsOn (some c) x y t h k =
        IsOn-same x y (ground arith) (ground (arith, t c refl)) (ground arith) k

    with_requests-IsOn :
        (o : Option (Calls ApsDataRequest S D)) (x y : Library S W C D Z)
        → with_requests o x ≡ some y
        → IsOn x
        → IsOn y
    with_requests-IsOn none x y h k = ground arith
    with_requests-IsOn (some c) x y h k =
        IsOn-same x y (ground arith) (ground arith) (ground arith) k

    begin_request-IsOn :
        (o : Option (Item ApsDataRequest S × D)) (x y : Library S W C D Z)
        → begin_request external o x ≡ some y
        → IsOn x
        → IsOn y
    begin_request-IsOn none x y h k = ground arith
    begin_request-IsOn (some ((id, r, s), d)) x y h k = with_system-IsOn _ _ y h k

    step-IsOn :
        (e : Event S) (x y : Library S W C D Z) → step external e x ≡ some y → IsOn x → IsOn y
    unfolding step
    step-IsOn (on_commands (Calls.called r s)) x y h k =
        IsOn-same x y (ground arith) (ground arith) (ground arith) k
    step-IsOn (on_commands (Calls.entered n)) x y h k =
        with_commands-IsOn _ x y
          (λ c. enter-taken external.commands (pick n x.commands.waiting) x.commands c) h k
    step-IsOn (on_commands Calls.received) x y h k = begin_command-IsOn x.sending _ x y refl h k
    step-IsOn command_sent x y h k = end_command-IsOn x.sending x y refl h k
    step-IsOn (on_requests (Calls.called r s)) x y h k =
        IsOn-same x y (ground arith) (ground arith) (ground arith) k
    step-IsOn (on_requests (Calls.entered n)) x y h k = with_requests-IsOn _ x y h k
    step-IsOn (on_requests Calls.received) x y h k = begin_request-IsOn _ x y h k
    step-IsOn (frame_received frame) x y h k =
        IsOn-same x y (ground arith) (ground arith) (ground arith) k
    step-IsOn requests_woken x y h k = with_system-IsOn _ x y h k
    step-IsOn (request_forwarded id result) x y h k = with_system-IsOn _ x y h k
    step-IsOn (confirms_woken q channel) x y h k = with_system-IsOn _ x y h k
    step-IsOn (indications_woken q channel accepted) x y h k = with_system-IsOn _ x y h k

    pub Runs-IsOn :
        {x y : Library S W C D Z} {es : List (Event S)} → Runs external x es y → IsOn x → IsOn y
    Runs-IsOn (done x) k = k
    Runs-IsOn (more {x} {y} {z} {e} h r) k = Runs-IsOn r (step-IsOn e x y h k)

    -- In any state that is reached from the start.
    pub start-IsOn :
        {y : Library S W C D Z} {es : List (Event S)}
        → Runs external (start external line) es y
        → IsOn y
    unfolding start Calls.start
    start-IsOn r = Runs-IsOn r refl

    -- While the transmitting task waits for a command, the sink is what it was at the start after
    -- the commands that were taken were sent to it one after the other, in the order of taking.
    pub line-sends :
        {y : Library S W C D Z} {es : List (Event S)}
        → Runs external (start external line) es y
        → y.sending ≡ idle
        → y.line ≡ sends y.commands.taken line
    line-sends {y} r h = subst (λ (m : Sending). IsAt m y.commands.taken y.line) h (start-IsOn r)
