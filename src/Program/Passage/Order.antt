-- ===== src/Program/Passage/Order.antt =====
-- The order in which indications reach the zdo layer.
use mathlib.Core.Option.{some-injective}
use tophamm.Base.{
  ◌≡◌, refl, sym, ap, ◌∙◌, subst, append_assoc, List, [], ◌∷◌, ◌++◌, Option, none, some,
  if◌then◌else◌, arith,
}
use tophamm.Deconz.Types.{ApsDataIndication}
use tophamm.Calls.{Mpsc}
use tophamm.Program.{is_zdo}
use tophamm.Program.Passage.{
  Passage, Event, passes, reads, sends, takes, passed_into, kept, read_from, sent_into, taken_from,
  send_held, step, start, Runs, done, more,
}

-- Those for endpoint 0.
abbrev pub for_zdo : List ApsDataIndication → List ApsDataIndication
for_zdo [] = []
for_zdo (i ∷ is) = let rest = for_zdo is in if is_zdo i then i ∷ rest else rest

for_zdo-append : (is js : List ApsDataIndication) → for_zdo (is ++ js) ≡ for_zdo is ++ for_zdo js
for_zdo-append [] js = refl
for_zdo-append (i ∷ is) js = ground (arith, for_zdo-append is js)

abbrev in_hand : Option ApsDataIndication → List ApsDataIndication
in_hand none = []
in_hand (some i) = i ∷ []

in_hand-kept :
    (i : ApsDataIndication) (is : List ApsDataIndication)
    → in_hand (kept i) ++ for_zdo is ≡ for_zdo (i ∷ is)
in_hand-kept i is = ground arith

module _ {C D : Type 0} (indications : Mpsc ApsDataIndication C)
    (zdo : Mpsc ApsDataIndication D) where
  -- What is on its way behind those that were taken.
  abbrev pub on_the_way : Passage C D → List ApsDataIndication
  on_the_way y =
      zdo.contents y.zdo ++ (in_hand y.held ++ for_zdo (indications.contents y.indications))

  abbrev IsKept : Passage C D → Type 0
  IsKept y = for_zdo y.passed ≡ y.taken ++ on_the_way y

  passed_into-IsKept :
      (i : ApsDataIndication) (o : Option C) (x y : Passage C D)
      → indications.try_send i x.indications ≡ o
      → passed_into i o x ≡ some y
      → IsKept x
      → IsKept y
  passed_into-IsKept i none x y e h k = ground arith
  passed_into-IsKept i (some c) x y e h k = subst IsKept (some-injective _ _ h) (
      rw
        (
          indications.contents-try_send i x.indications c e,
          for_zdo-append x.passed (i ∷ []),
          for_zdo-append (indications.contents x.indications) (i ∷ []),
          k,
        )
        (simp append_assoc refl))

  read_from-IsKept :
      (held : Option ApsDataIndication) (o : Option (ApsDataIndication × C)) (x y : Passage C D)
      → x.held ≡ held
      → indications.recv x.indications ≡ o
      → read_from held o x ≡ some y
      → IsKept x
      → IsKept y
  read_from-IsKept none none x y f e h k = ground arith
  read_from-IsKept (some i) o x y f e h k = ground arith
  read_from-IsKept none (some (i, c)) x y f e h k = subst IsKept (some-injective _ _ h) (
      k
      ∙ ap (λ (l : List ApsDataIndication). x.taken ++ (zdo.contents x.zdo ++ l))
          (rw (f, indications.contents-recv i x.indications c e)
            (sym (in_hand-kept i (indications.contents c)))))

  send_held-IsKept :
      (i : ApsDataIndication) (o : Option D) (x y : Passage C D)
      → x.held ≡ some i
      → zdo.try_send i x.zdo ≡ o
      → sent_into o x ≡ some y
      → IsKept x
      → IsKept y
  send_held-IsKept i none x y f e h k = ground arith
  send_held-IsKept i (some d) x y f e h k = subst IsKept (some-injective _ _ h) (
      k
      ∙ ap (◌++◌ x.taken) (
          rw (f, zdo.contents-try_send i x.zdo d e)
            (sym (
              append_assoc (zdo.contents x.zdo) (i ∷ [])
                (for_zdo (indications.contents x.indications))))))

  taken_from-IsKept :
      (o : Option (ApsDataIndication × D)) (x y : Passage C D)
      → zdo.recv x.zdo ≡ o
      → taken_from o x ≡ some y
      → IsKept x
      → IsKept y
  taken_from-IsKept none x y e h k = ground arith
  taken_from-IsKept (some (i, d)) x y e h k =
      subst IsKept (some-injective _ _ h)
        (k ∙ rw (zdo.contents-recv i x.zdo d e) (sym (append_assoc x.taken (i ∷ []) _)))

  step-IsKept :
      (e : Event) (x y : Passage C D) → step indications zdo e x ≡ some y → IsKept x → IsKept y
  unfolding step
  step-IsKept (passes i) x y h k = passed_into-IsKept i _ x y refl h k
  step-IsKept reads x y h k = read_from-IsKept x.held _ x y refl refl h k
  step-IsKept sends x y h k = sends_held x.held refl h
    where
      sends_held :
          (held : Option ApsDataIndication)
          → x.held ≡ held
          → send_held indications zdo held x ≡ some y
          → IsKept y
      sends_held none f h' = ground arith
      sends_held (some i) f h' = send_held-IsKept i _ x y f refl h' k
  step-IsKept takes x y h k = taken_from-IsKept _ x y refl h k

  Runs-IsKept :
      {x y : Passage C D} {es : List Event} → Runs indications zdo x es y → IsKept x → IsKept y
  Runs-IsKept (done x) k = k
  Runs-IsKept (more {x} {y} {z} {e} h r) k = Runs-IsKept r (step-IsKept e x y h k)

  -- However the steps are interleaved from the start, the indications for endpoint 0 among those
  -- that were passed are, in their order, those that the receiving task of the zdo layer has taken,
  -- followed by those in the channel to it, the one that the task in between holds, if any, and
  -- those for endpoint 0 in the channel of the reader: none is lost, made up or overtaken.
  pub passed-on_the_way :
      {y : Passage C D} {es : List Event}
      → Runs indications zdo (start indications zdo) es y
      → for_zdo y.passed ≡ y.taken ++ on_the_way y
  unfolding start
  passed-on_the_way r = Runs-IsKept r (rw (zdo.contents-empty, indications.contents-empty) refl)
