-- ===== src/Time.antt =====
-- Go's `time`: an instant is the number of nanoseconds since the Unix epoch, a duration a number of
-- nanoseconds. The zero instant is the first of January of the year 1.
use ride_matching_engine.Common.{◌+◌, ◌*◌, ◌/◌, ◌≡◌, Bool, arith, ℤ, pos, negsuc, ◌==◌}
use ride_matching_engine.Common.Int.{pos_part, neg_part}

abbrev pub Time : Type 0
Time = ℤ

abbrev pub Duration : Type 0
Duration = ℤ

abbrev pub same_ℤ : ℤ → ℤ → Bool
same_ℤ a b = pos_part a + neg_part b == pos_part b + neg_part a

-- `time.Time{}`.
abbrev pub zero_time : Time
zero_time = negsuc 62135596799999999999

unfoldable pub is_zero : Time → Bool
is_zero t = same_ℤ t zero_time

-- `t.UnixMilli()`: it rounds down.
unfoldable pub unix_milli : Time → ℤ
unix_milli (pos n) = pos (n / 1000000)
unix_milli (negsuc n) = negsuc (n / 1000000)

-- `time.UnixMilli(ms)`.
unfoldable pub from_milli : ℤ → Time
from_milli (pos m) = pos (m * 1000000)
from_milli (negsuc m) = negsuc (m * 1000000 + 999999)

pub unix_milli-from_milli : (m : ℤ) → unix_milli (from_milli m) ≡ m
unfolding unix_milli from_milli
unix_milli-from_milli (pos m) = ground arith
unix_milli-from_milli (negsuc m) = ground arith

-- A nonzero instant of a whole number of milliseconds.
pub from_milli-unix_milli : (m : ℤ) → from_milli (unix_milli (from_milli m)) ≡ from_milli m
from_milli-unix_milli m = rw unix_milli-from_milli
