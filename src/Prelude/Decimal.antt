-- ===== src/Prelude/Decimal.antt =====
-- `%d` of package `fmt`: the decimal digits of a number.
use Prim.Native.Nat.{ℕ, zero, suc, ◌/◌, ◌%◌}
use Prim.Native.String.{String, ◌++◌}
use mathlib.Core.Path.{◌≡◌, refl}
use hologram.Prelude.Tests.{ltb, ◌==◌, if◌then◌else◌}

abbrev digit : ℕ → String
digit n =
    if n == 0
    then "0"
    else if n == 1
    then "1"
    else if n == 2
    then "2"
    else if n == 3
    then "3"
    else if n == 4
    then "4"
    else if n == 5
    then "5"
    else if n == 6
    then "6"
    else if n == 7
    then "7"
    else if n == 8
    then "8"
    else "9"

-- Each round takes the last digit off, so the number itself is enough fuel.
digits_of : ℕ → ℕ → String → String
digits_of zero n acc = acc
digits_of (suc fuel) n acc =
    let rest = digits_of fuel (n / 10) (digit (n % 10) ++ acc) in
    if ltb n 10 then digit n ++ acc else rest

unfoldable pub decimal : ℕ → String
unfolding digits_of
decimal n = digits_of (suc n) n ""

decimal_runs : decimal 1048577 ≡ "1048577"
unfolding decimal
decimal_runs = refl
