-- ===== src/Deconz/Wire/Writing.antt =====
-- A writer adds bytes behind those of a buffer.
use tophamm.Base.{Bytes, ◌≡◌, [], ◌++◌, append-nil, append_assoc}
use tophamm.Outcome.{Outcome, ok}
use tophamm.Outcome

abbrev pub Write {ℓ} : Type ℓ → Type ℓ
Write E = Bytes → Outcome E Bytes

infixl 5 ◌>>◌
abbrev pub ◌>>◌ {ℓ} : {E : Type ℓ} → Write E → Write E → Write E
◌>>◌ m k w = Outcome.◌>>=◌ (m w) k

abbrev pub skip {ℓ} : {E : Type ℓ} → Write E
skip w = ok w

-- The writer succeeds and appends these bytes, whatever the buffer holds.
abbrev pub Appends {ℓ} : {E : Type ℓ} → Write E → Bytes → Type ℓ
Appends m bytes = (w : Bytes) → m w ≡ ok (w ++ bytes)

module _ {ℓ} {E : Type ℓ} where
  pub skip-Appends : Appends (skip {E = E}) []
  skip-Appends w = rw append-nil

  pub >>-Appends :
      (m k : Write E) (xs ys : Bytes) → Appends m xs → Appends k ys → Appends (m >> k) (xs ++ ys)
  >>-Appends m k xs ys hm hk w = rw (hm w, ◌>>◌) (rw (hk (w ++ xs)) (rw append_assoc))
