-- ===== src/Deconz/Library/Once.antt =====
-- What the callers of the library can rely on, however the steps are interleaved: an answer is
-- handed over once.
use tophamm.Base.{◌≤◌, ◌≡◌, refl, List, [], ◌∷◌, arith}
use tophamm.Deconz.Wire.External.{Byteorder}
use tophamm.Helpers.Awaiting.Delivery.{delivered}
use tophamm.Helpers.IncrementingId.{new_id}
use tophamm.Deconz.Exchange
use tophamm.Deconz.Exchange.Once.{begun}
use tophamm.Deconz.System
use tophamm.Deconz.System.Once.{asked, serial_events, delivered-le-taken}
use tophamm.Calls
use tophamm.Calls.{Item}
use tophamm.Calls.Conserved.{made}
use tophamm.Calls.Totals.{weight, named, total-taken_le, total-numbered, asks}
use tophamm.Deconz.Library.Queues.{on_command_channel, on_request_channel, Runs-Queues}
use tophamm.Deconz.Library.Tasks.{Runs-Follows}
use tophamm.Deconz.Library.Weights.{command_weights, request_weights}
use tophamm.Deconz.Library.{Build, External, Library, Event, start, Runs}

module _ {S : Type 0} where
  begun-weights :
      ⦃bo : Byteorder⦄ (build : Build) (name : Discrete S) (s : S) (es : List (System.Event S))
      → begun build name s (serial_events es) ≡ command_weights (named name s) es
  begun-weights build name s [] = refl
  begun-weights build name s (System.on_serial (Exchange.began q x) ∷ es) =
      omega (arith, begun-weights build name s es)
  begun-weights build name s (e ∷ es) = omega (arith, begun-weights build name s es)

  asked-weights :
      (name : Discrete S) (s : S) (es : List (System.Event S))
      → asked name s es ≡ request_weights (named name s) es
  asked-weights name s [] = refl
  asked-weights name s (System.taken id x ∷ es) = omega (arith, asked-weights name s es)
  asked-weights name s (e ∷ es) = omega (arith, asked-weights name s es)

module _ ⦃bo : Byteorder⦄ {S W C D Z : Type 0} (external : External S W C D Z) where
  open external use {build, watch, commands, requests}

  -- However the steps of the callers and of the five tasks are interleaved from their start, the
  -- sender of a command is handed at most as many messages as there are calls for a command that
  -- carry it, and that of a data request at most as many as there are calls for one that carry it.
  pub delivered-le-called :
      (name : Discrete S) (s : S) {y : Library S W C D Z} {es : List (Event S)} (line : Z)
      → Runs external (start external line) es y
      → (delivered name s y.system.serial.log ≤ asks name s (made (on_command_channel es)))
        × (delivered name s y.system.aps.1 ≤ asks name s (made (on_request_channel es)))
  unfolding start Calls.start
  delivered-le-called name s {y} {es} line r =
      let p = Runs-Follows external r in
      let (c, d) = Runs-Queues external r in
      let (l, k) = delivered-le-taken build watch name s p.run in
      (
        omega (
          arith,
          l,
          begun-weights build name s p.events,
          p.commands (named name s),
          total-taken_le commands (weight (named name s)) c,
          total-numbered name s new_id (made (on_command_channel es)),
        ),
        omega (
          arith,
          k,
          asked-weights name s p.events,
          p.requests (named name s),
          total-taken_le requests (weight (named name s)) d,
          total-numbered name s new_id (made (on_request_channel es)),
        ),
      )
