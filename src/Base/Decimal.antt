-- ===== src/Base/Decimal.antt =====
-- Texts as their code points, and the digits of a number.
use Prim.Native.Char.{code}
use Prim.Native.String.{String}
use tophamm.Base.Tests.{ltb, if◌then◌else◌}
use native.Mathlib.Omega.{arith}
use mathlib.Core.Path.{◌≡◌, refl}
use mathlib.Core.List.{List, [], ◌∷◌, ◌++◌}
use Prim.Native.Nat.{ℕ, zero, suc, ◌+◌, ◌-◌, ◌*◌, ◌/◌, ◌%◌, ◌<◌}

abbrev pub codes : String → List ℕ
codes String.[] = []
codes (String.◌∷◌ c s) = code c ∷ codes s

-- As many digits as the fuel allows.
unfoldable pub digits : ℕ → ℕ → List ℕ
digits zero n = []
digits (suc fuel) n =
    let front = digits fuel (n / 10) in
    if ltb n 10 then (48 + n) ∷ [] else front ++ (48 + n % 10) ∷ []

-- `Display` of an unsigned integer.
unfoldable pub decimal : ℕ → List ℕ
unfolding digits
decimal n = digits (suc n) n

-- The number behind so much, from its digits.
unfoldable pub number : ℕ → List ℕ → ℕ
number acc [] = acc
number acc (c ∷ cs) = number (10 * acc + (c - 48)) cs

number-append :
    (acc : ℕ) (xs : List ℕ) (c : ℕ) → number acc (xs ++ c ∷ []) ≡ 10 * number acc xs + (c - 48)
unfolding number
number-append acc [] c = refl
number-append acc (x ∷ xs) c = number-append (10 * acc + (x - 48)) xs c

number-digits : (fuel n : ℕ) → n < fuel → number 0 (digits fuel n) ≡ n
unfolding digits number
number-digits zero n h = omega arith
number-digits (suc fuel) n h =
    ground
      (arith, number-append 0 (digits fuel (n / 10)) (48 + n % 10), number-digits fuel (n / 10))

pub number-decimal : (n : ℕ) → number 0 (decimal n) ≡ n
unfolding decimal
number-decimal n = number-digits (suc n) n (omega arith)
