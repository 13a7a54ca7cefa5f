-- ===== src/Deconz/Wire/Reading.antt =====
-- A reader takes its value off the front of the bytes that a cursor has left.
use tophamm.Base.{Bytes, ◌≡◌, ◌++◌, append_assoc}
use tophamm.Outcome.{Outcome, ok, err, panic}

abbrev pub Read {ℓ κ} : Type ℓ → Type κ → Type (ℓ ⊔ κ)
Read E A = Bytes → Outcome E (A × Bytes)

abbrev continue {ℓ κ μ} :
    {E : Type ℓ} {A : Type κ} {B : Type μ}
    → Outcome E (A × Bytes)
    → (A → Read E B)
    → Outcome E (B × Bytes)
continue (ok (a, rest)) f = f a rest
continue (err e) f = err e
continue panic f = panic

module _ {ℓ κ} {E : Type ℓ} {A : Type κ} where
  abbrev pub pure : A → Read E A
  pure a r = ok (a, r)

  abbrev pub fail : E → Read E A
  fail e r = err e

  -- A result that depends on no input.
  abbrev pub lift : Outcome E A → Read E A
  lift (ok a) r = ok (a, r)
  lift (err e) r = err e
  lift panic r = panic

  -- `unreachable!`, `unimplemented!` and failed assertions.
  abbrev pub halt : Read E A
  halt r = panic

infixl 5 ◌>>=◌ ◌>>◌
abbrev pub ◌>>=◌ {ℓ κ μ} :
    {E : Type ℓ} {A : Type κ} {B : Type μ} → Read E A → (A → Read E B) → Read E B
◌>>=◌ m f r = continue (m r) f

abbrev pub ◌>>◌ {ℓ κ μ} : {E : Type ℓ} {A : Type κ} {B : Type μ} → Read E A → Read E B → Read E B
m >> k = m >>= λ _. k

-- The reader takes these bytes off the front of its input and returns this value.
pub record Reads {ℓ κ} {E : Type ℓ} {A : Type κ} (m : Read E A) (bytes : Bytes) (a : A)
    : Type (ℓ ⊔ κ) where
  pub run : (rest : Bytes) → m (bytes ++ rest) ≡ ok (a, rest)

module _ {ℓ κ μ} {E : Type ℓ} {A : Type κ} {B : Type μ} where
  pub >>=-Reads :
      {m : Read E A} (f : A → Read E B) (xs : Bytes) {ys : Bytes} {a : A} {b : B}
      → Reads m xs a
      → Reads (f a) ys b
      → Reads (m >>= f) (xs ++ ys) b
  >>=-Reads {m} f xs {ys} {a} {b} hm hf = record {
    run = λ rest. rw (append_assoc xs ys rest) (rw (hm.run (ys ++ rest), ◌>>=◌) (hf.run rest));
  }

  pub pure-Reads :
      {m : Read E A} (g : A → B) {xs : Bytes} {a : A}
      → Reads m xs a
      → Reads (m >>= λ x. pure (g x)) xs (g a)
  pure-Reads g h = record { run = λ rest. rw (h.run rest, ◌>>=◌) }

  -- What comes of a reader that goes on behind bytes that are taken.
  pub >>=-after :
      {m : Read E A} (f : A → Read E B) (xs ys : Bytes) {a : A} {o : Outcome E (B × Bytes)}
      → Reads m xs a
      → f a ys ≡ o
      → (m >>= f) (xs ++ ys) ≡ o
  >>=-after {m} f xs ys {a} hm e = rw (hm.run ys, ◌>>=◌) e
