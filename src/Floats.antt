-- ===== src/Floats.antt =====
-- Go's `float64`, of which the modelled code compares values, and prints and parses decimal text.
-- The operations are parameters.
use ride_matching_engine.Common.{Bool, String, Option, ℤ}

pub record Floats : Type 1 where
  pub F : Type 0
  -- `a <= b`, false where one is not a number.
  pub at_most : F → F → Bool
  -- A whole number.
  pub literal : ℤ → F
  -- `strconv.FormatFloat(x, 'f', -1, 64)` and `strconv.ParseFloat(s, 64)`.
  pub format : F → String
  pub parse : String → Option F
