-- ===== src/Base/Decimal.antt =====
-- Decimal digits, as `fmt.Sprint` and `strconv.Itoa` print a number.
use Prim.Native.Nat.{ℕ, zero, suc, ◌/◌, ◌%◌}
use Prim.Native.String.{String}
use mathlib.Core.List.{List, [], ◌∷◌}
use wekango.Base.Tests.{ltb, if◌then◌else◌}
use wekango.Base.Text.{◌⊕◌}

abbrev digit_texts : List String
digit_texts = "0" ∷ "1" ∷ "2" ∷ "3" ∷ "4" ∷ "5" ∷ "6" ∷ "7" ∷ "8" ∷ "9" ∷ []

abbrev nth : ℕ → List String → String
nth n [] = ""
nth zero (s ∷ more) = s
nth (suc n) (s ∷ more) = nth n more

-- One more than the number is fuel enough: each round divides it by ten.
decimal_from : ℕ → ℕ → String
decimal_from zero n = ""
decimal_from (suc fuel) n =
    let rest = decimal_from fuel (n / 10) in
    if ltb n 10 then nth n digit_texts else rest ⊕ nth (n % 10) digit_texts

unfoldable pub decimal : ℕ → String
unfolding decimal_from
decimal n = decimal_from (suc n) n
