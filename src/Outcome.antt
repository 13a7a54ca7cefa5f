-- ===== src/Outcome.antt =====
-- What a call of the Rust code can come to: a value, an error that `?` passes on, or a panic. The
-- two build profiles differ in integer overflow, which panics in one and wraps in the other.
use tophamm.Base.{ℕ, ◌+◌, ◌%◌, ltb, if◌then◌else◌}

pub data Outcome {ℓ κ} (E : Type ℓ) (A : Type κ) : Type (ℓ ⊔ κ) where
  ok : A → Outcome E A
  err : E → Outcome E A
  panic : Outcome E A

infixl 5 ◌>>=◌
abbrev pub ◌>>=◌ {ℓ κ μ} :
    {E : Type ℓ} {A : Type κ} {B : Type μ} → Outcome E A → (A → Outcome E B) → Outcome E B
panic >>= next = panic
err error >>= next = err error
ok value >>= next = next value

-- `Result::map_err`, and the conversion by `From` that `?` makes.
abbrev pub map_err {ℓ κ μ} :
    {E : Type ℓ} {F : Type κ} {A : Type μ} → (E → F) → Outcome E A → Outcome F A
map_err f (ok a) = ok a
map_err f (err e) = err (f e)
map_err f panic = panic

-- The profile of the build: overflow checks and debug assertions are on in one, off in the other.
pub data Build : Type 0 where
  debug release : Build

abbrev overflow {ℓ} : {E : Type ℓ} → Build → ℕ → Outcome E ℕ
overflow debug wrapped = panic
overflow release wrapped = ok wrapped

-- `a + b` on an unsigned type of `modulus` values.
abbrev add_word {ℓ} : {E : Type ℓ} → Build → ℕ → ℕ → ℕ → Outcome E ℕ
add_word build modulus a b =
    if ltb (a + b) modulus then ok (a + b) else overflow build ((a + b) % modulus)

abbrev pub add_u8 {ℓ} : {E : Type ℓ} → Build → ℕ → ℕ → Outcome E ℕ
add_u8 build = add_word build 256

abbrev pub add_u16 {ℓ} : {E : Type ℓ} → Build → ℕ → ℕ → Outcome E ℕ
add_u16 build = add_word build 65_536
