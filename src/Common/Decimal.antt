-- ===== src/Common/Decimal.antt =====
-- Decimal text: `strconv.Itoa` and the `%d` of `fmt`.
use Prim.Native.Nat.{ℕ, zero, suc, ◌+◌, ◌/◌, ◌%◌}
use Prim.Native.String.{String}
use ride_matching_engine.Common.Tests.{ltb, ◌==◌, if◌then◌else◌}
use ride_matching_engine.Common.Texts.{◌<>◌}
use ride_matching_engine.Common.Int.{ℤ, pos, negsuc}

digit : ℕ → String
digit n =
    if n == 0
    then "0"
    else if n == 1
    then "1"
    else if n == 2
    then "2"
    else if n == 3
    then "3"
    else if n == 4
    then "4"
    else if n == 5
    then "5"
    else if n == 6
    then "6"
    else if n == 7
    then "7"
    else if n == 8
    then "8"
    else "9"

-- `n` is below the fuel.
digits_of : ℕ → ℕ → String
digits_of zero n = ""
digits_of (suc f) n =
    let rest = digits_of f (n / 10) in if ltb n 10 then digit n else rest <> digit (n % 10)

unfoldable pub decimal : ℕ → String
unfolding digit digits_of ◌<>◌
decimal n = digits_of (n + 1) n

unfoldable pub itoa : ℤ → String
unfolding decimal
itoa (pos n) = decimal n
itoa (negsuc n) = "-" <> decimal (n + 1)
