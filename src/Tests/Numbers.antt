-- ===== src/Tests/Numbers.antt =====
-- Numbers for the tests: a float is a whole number here, and a parser of decimal text.
use ride_matching_engine.Common.{
  ℕ, zero, suc, ◌+◌, ◌-◌, ◌*◌, String, none, some, same, ℤ, pos, negsuc, if◌then◌else◌,
}
use ride_matching_engine.Common.Int.{leb_ℤ}
use ride_matching_engine.Common.Decimal.{itoa}
use ride_matching_engine.Floats.{Floats}
use ride_matching_engine.Queue.Codec.{Numerals}
use Prim.Native.String.{len, slice}

digit_value : String → ℕ
digit_value s =
    if same s "1"
    then 1
    else if same s "2"
    then 2
    else if same s "3"
    then 3
    else if same s "4"
    then 4
    else if same s "5"
    then 5
    else if same s "6"
    then 6
    else if same s "7"
    then 7
    else if same s "8"
    then 8
    else if same s "9"
    then 9
    else 0

digits : ℕ → ℕ → String → ℕ
digits zero n s = n
digits (suc f) n s = digits f (n * 10 + digit_value (slice s 0 1)) (slice s 1 (f + 1))

unfoldable pub number : String → ℤ
unfolding digit_value digits same
number s =
    if same (slice s 0 1) "-"
    then negsuc (digits (len s - 1) 0 (slice s 1 (len s)) - 1)
    else pos (digits (len s) 0 s)

abbrev pub whole : Floats
whole = record {
  F = ℤ;
  at_most = leb_ℤ;
  literal = λ n. n;
  format = itoa;
  parse = λ s. if same s "" then none else some (number s);
}

abbrev pub numerals : Numerals
numerals = record { parse_int = λ s. if same s "" then none else some (number s); atoi = number }
