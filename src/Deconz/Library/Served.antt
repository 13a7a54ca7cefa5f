-- ===== src/Deconz/Library/Served.antt =====
-- No command is stuck: whatever has happened, the tasks can go on until all are taken.
use mathlib.Mathlib.Data.Multiset.Defs.{of_list}
use tophamm.Base.{subst, ℕ, ◌≡◌, refl, ap, ◌∙◌, ◌⊎◌, inl, inr, List, [], ◌∷◌, Option, some}
use tophamm.Outcome.{ok, err, panic}
use tophamm.Deconz.Errors.{Result}
use tophamm.Deconz.Wire.External.{Byteorder}
use tophamm.Deconz.Protocol.Request.{Request}
use tophamm.Helpers.IncrementingId.{new_id}
use tophamm.Deconz.Tx.{send_request}
use tophamm.Calls
use tophamm.Deconz.Exchange.{began, ended}
use tophamm.Deconz.System.{serial_step}
use tophamm.Calls.{Mpsc, Calls, Item, took, enter, pick, sent_in}
use tophamm.Calls.Drained.{Drains, Ready-Settles, entered-lt, received-lt}
use tophamm.Calls.Conserved.{made, of_list-taken, numbered}
use tophamm.Deconz.Library.Line.{HasPanicked, IsAt, Runs-IsOn, start-IsOn}
use tophamm.Deconz.Library.Queues.{on_command_channel, Runs-Queues}
use tophamm.Deconz.Library.{
  External, Library, Event, on_commands, command_sent, Sending, idle, busy, dead, sending_after,
  with_commands, begin_command, end_command, step, start, Runs, done, more,
}

module _ ⦃bo : Byteorder⦄ {S W C D Z : Type 0} (external : External S W C D Z) where
  open external use {build, watch, sink, commands}

  -- The task has panicked, or it waits and there is no command left.
  abbrev IsSettled : Library S W C D Z → Type 0
  IsSettled y =
      (y.sending ≡ dead)
      ⊎ ((y.sending ≡ idle)
          × (commands.contents y.commands.channel ≡ [])
          × (y.commands.waiting ≡ []))

  -- Steps without a new call that lead there.
  abbrev Settles : Library S W C D Z → Type 0
  Settles y =
      (es : List (Event S)) × (z : Library S W C D Z) × Runs external y es z
      × (made (on_command_channel es) ≡ [])
      × IsSettled z

  then-Settles :
      (e : Event S) (x y : Library S W C D Z)
      → ((es : List (Event S)) → made (on_command_channel (e ∷ es)) ≡ made (on_command_channel es))
      → step external e x ≡ some y
      → Settles y
      → Settles x
  then-Settles e x y m h (es, z, r, n, s) = (e ∷ es, z, more h r, m es ∙ n, s)

  IsSettled-Settles : (y : Library S W C D Z) → IsSettled y → Settles y
  IsSettled-Settles y s = ([], y, done y, refl, s)

  sending_after-cases :
      (result : Result (Unit {0})) → (sending_after result ≡ idle) ⊎ (sending_after result ≡ dead)
  sending_after-cases (ok u) = inl refl
  sending_after-cases (err e) = inl refl
  sending_after-cases panic = inr refl

  -- The state after a command is taken, and after it is sent.
  abbrev begun : Item Request S → C → Library S W C D Z → Library S W C D Z
  begun (q, request, sender) channel y = record y {
    commands = took (q, request, sender) channel y.commands;
    sending = busy q request;
    system = serial_step build watch (began q sender) y.system;
  }

  abbrev sent : ℕ → Request → Library S W C D Z → Library S W C D Z
  sent q request y =
      let (result, line) = send_request sink build q request y.line in
      record y {
        sending = sending_after result;
        line = line;
        system = serial_step build watch (ended q result) y.system;
      }

  step-begun :
      (item : Item Request S) (c : C) (y : Library S W C D Z)
      → y.sending ≡ idle
      → commands.recv y.commands.channel ≡ some (item, c)
      → step external (on_commands Calls.received) y ≡ some (begun item c y)
  unfolding step
  step-begun item c y f e =
      ap (λ (m : Sending). begin_command external m (commands.recv y.commands.channel) y) f
      ∙ ap (λ (o : Option (Item Request S × C)). begin_command external idle o y) e

  step-sent :
      (q : ℕ) (request : Request) (y : Library S W C D Z)
      → y.sending ≡ busy q request
      → step external command_sent y ≡ some (sent q request y)
  unfolding step
  step-sent q request y f = ap (λ (m : Sending). end_command external m y) f

  -- The state after the first of those that wait goes in.
  abbrev entered : List (Item Request S) → C → Library S W C D Z → Library S W C D Z
  entered rest channel y = record y {
    commands = record (y.commands) { waiting = rest; channel = channel };
  }

  step-entered :
      (item : Item Request S) (rest : List (Item Request S)) (c : C) (y : Library S W C D Z)
      → y.commands.waiting ≡ item ∷ rest
      → commands.try_send item y.commands.channel ≡ some c
      → step external (on_commands (Calls.entered 0)) y ≡ some (entered rest c y)
  unfolding step
  step-entered item rest c y f e =
      ap (λ (l : List (Item Request S)). with_commands (enter commands (pick 0 l) y.commands) y) f
      ∙ ap (λ (o : Option C). with_commands (sent_in o rest y.commands) y) e

  abbrev IsIdle : Library S W C D Z → Type 0
  IsIdle y = y.sending ≡ idle

  abbrev commands_of : Library S W C D Z → Calls Request S C
  commands_of y = y.commands

  drains : Drains commands commands_of IsIdle Settles
  drains = record {
    settles = λ y f e w. IsSettled-Settles y (inr (f, e, w));
    enters = λ y item rest f e w again.
        let (c, g) = commands.try_send-empty item y.commands.channel e in
        then-Settles (on_commands (Calls.entered 0)) y (entered rest c y) (λ es. refl)
          (step-entered item rest c y w g)
          (again (entered rest c y) f (entered-lt commands y.commands item rest c e w g));
    takes = λ y item rest f e again.
        let (c, g) = commands.recv-contents item rest y.commands.channel e in
        let x = begun item c y in
        let z = sent item.0 item.1 x in
        then-Settles (on_commands Calls.received) y x (λ es. refl) (step-begun item c y f g)
          (then-Settles command_sent x z (λ es. refl) (step-sent item.0 item.1 x refl)
            (elim (sending_after-cases (send_request sink build item.0 item.1 y.line).0) [
              | inl i ↦ again z i (received-lt commands y.commands item c g)
              | inr p ↦ IsSettled-Settles z (inl p)
            ]));
  }

  from_any : (m : Sending) (y : Library S W C D Z) → y.sending ≡ m → Settles y
  from_any idle y f = Ready-Settles commands commands_of IsIdle Settles drains y f
  from_any dead y f = IsSettled-Settles y (inl f)
  from_any (busy q request) y f =
      let z = sent q request y in
      then-Settles command_sent y z (λ es. refl) (step-sent q request y f)
        (elim (sending_after-cases (send_request sink build q request y.line).0) [
          | inl i ↦ Ready-Settles commands commands_of IsIdle Settles drains z i
          | inr p ↦ IsSettled-Settles z (inl p)
        ])

  -- Steps from a state, without a new call of a command, to one in which the transmitting task has
  -- ended by a panic in the sending of the command that it took last, or waits for a command and
  -- has taken all that were called for in a history.
  abbrev pub CanTakeAll : Z → Library S W C D Z → List (Event S) → Type 0
  CanTakeAll line y es =
      (fs : List (Event S)) × (z : Library S W C D Z) × Runs external y fs z
      × (made (on_command_channel fs) ≡ [])
      × (((z.sending ≡ dead) × HasPanicked external line z.commands.taken)
          ⊎ ((z.sending ≡ idle)
              × (of_list z.commands.taken
                  ≡ of_list (numbered new_id (made (on_command_channel es))))))

  -- Whatever has happened since the start, there are further steps, without a new call of a
  -- command, to a state in which either the transmitting task has ended and the sending of the
  -- command that it took last, on the sink as those before it left it, panics; or it waits for a
  -- command and has taken all commands that were called for, under their consecutive sequence
  -- numbers modulo 256 and each once.
  pub Runs-CanTakeAll :
      {y : Library S W C D Z} {es : List (Event S)} (line : Z)
      → Runs external (start external line) es y
      → CanTakeAll line y es
  unfolding start
  Runs-CanTakeAll {y} {es} line r =
      let (fs, z, q, n, s) = from_any y.sending y refl in
      let on = Runs-IsOn external line q (start-IsOn external line r) in
      (
        fs,
        z,
        q,
        n,
        elim s [
          | inl d ↦
              inl (d, subst (λ (m : Sending). IsAt external line m z.commands.taken z.line) d on)
          | inr (i, e, w) ↦ inr (
            i,
            of_list-taken commands y.commands z.commands _ _ (Runs-Queues external r).0
                (Runs-Queues external q).0 n e w,
          )
        ],
      )
