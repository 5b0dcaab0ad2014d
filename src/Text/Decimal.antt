-- ===== src/Text/Decimal.antt =====
-- `str(n)` of a natural number.
use Prim.Native.Nat.{◌/◌, ◌%◌}
use fastapi_core.Prelude.{
  ℕ, zero, suc, String, ◌≡◌, refl, ◌<◌, List, [], ◌∷◌, ltb, if◌then◌else◌, arith,
}
use fastapi_core.Text.{◌<>◌}

-- A digit, of those listed.
abbrev pub digit_of : List String → ℕ → String
digit_of [] n = ""
digit_of (d ∷ ds) zero = d
digit_of (d ∷ ds) (suc n) = digit_of ds n

abbrev pub decimal_digits : List String
decimal_digits = "0" ∷ "1" ∷ "2" ∷ "3" ∷ "4" ∷ "5" ∷ "6" ∷ "7" ∷ "8" ∷ "9" ∷ []

abbrev pub digit : ℕ → String
digit n = digit_of decimal_digits n

-- The digits, with more fuel than the number needs.
unfoldable pub decimal : ℕ → ℕ → String
decimal zero n = ""
decimal (suc fuel) n =
    let rest = decimal fuel (n / 10) in if ltb n 10 then digit n else rest <> digit (n % 10)

unfoldable pub str : ℕ → String
unfolding decimal
str n = decimal (suc n) n

-- Fuel above the number is enough: more changes nothing.
pub decimal_enough : (f g n : ℕ) → n < f → n < g → decimal f n ≡ decimal g n
unfolding decimal
decimal_enough zero g n h k = absurd (omega arith)
decimal_enough (suc f) zero n h k = absurd (omega arith)
decimal_enough (suc f) (suc g) n h k = ground (arith, decimal_enough f g (n / 10))

str_422 : str 422 ≡ "422"
unfolding str
str_422 = refl
