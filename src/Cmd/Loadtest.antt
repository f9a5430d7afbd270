-- ===== src/Cmd/Loadtest.antt =====
-- The load generator: infrastructure/cmd/loadtest/main.go. Its samples are measured durations, so
-- natural numbers of nanoseconds; `sort.Slice` and the product of a float with a length are
-- parameters.
use ride_matching_engine.Common.{
  ℕ, zero, suc, ◌+◌, ◌-◌, ◌*◌, ◌/◌, ◌%◌, ℤ, pos, negsuc, Bool, true, false, ◌&&◌, String, Option,
  none, some, List, [], ◌∷◌, ◌++◌, ltb, leb, ◌==◌, same, length, if◌then◌else◌,
}
pub mod Samples
pub mod Percentiles
pub mod Sweep

-- `stats`.
pub record Stats : Type 0 where
  pub count : ℕ
  pub min : ℕ
  pub p50 : ℕ
  pub p95 : ℕ
  pub p99 : ℕ
  pub p999 : ℕ
  pub max : ℕ
  pub mean : ℤ

abbrev pub no_stats : Stats
no_stats = record { count = 0; min = 0; p50 = 0; p95 = 0; p99 = 0; p999 = 0; max = 0; mean = pos 0 }

-- The float constants of the report.
pub data Percentile : Type 0 where
  fiftieth ninety_fifth ninety_ninth last_of_thousand : Percentile

-- `s[i]` of a slice that starts with `x`; a read behind the end, which panics, gives the last one.
unfoldable pub sample_at : ℕ → List ℕ → ℕ → ℕ
sample_at x xs zero = x
sample_at x [] (suc i) = x
sample_at x (y ∷ xs) (suc i) = sample_at y xs i

-- `total`, an int64: its 64 bits, and what they stand for.
unfoldable pub sum_bits : List ℕ → ℕ
sum_bits [] = 0
sum_bits (x ∷ xs) = (x + sum_bits xs) % 18446744073709551616

unfoldable pub as_int64 : ℕ → ℤ
as_int64 n = if ltb n 9223372036854775808 then pos n else negsuc (18446744073709551615 - n)

unfoldable pub total : List ℕ → ℤ
total xs = as_int64 (sum_bits xs)

-- The division of an int64 by a positive one drops the rest, towards zero.
abbrev minus : ℕ → ℤ
minus zero = pos 0
minus (suc n) = negsuc n

unfoldable pub divided : ℤ → ℕ → ℤ
divided (pos a) n = pos (a / n)
divided (negsuc a) n = minus (suc a / n)

-- `int(p * float64(len(s)))`, kept within the slice.
unfoldable pub index : (Percentile → ℕ → ℕ) → Percentile → ℕ → ℕ
index rank p n = if leb n (rank p n) then n - 1 else rank p n

-- The figures of a sorted slice.
unfoldable pub stats_of : (Percentile → ℕ → ℕ) → List ℕ → Stats
stats_of rank [] = no_stats
stats_of rank (x ∷ xs) =
    let n = length (x ∷ xs) in
    record {
      count = n;
      min = x;
      p50 = sample_at x xs (index rank fiftieth n);
      p95 = sample_at x xs (index rank ninety_fifth n);
      p99 = sample_at x xs (index rank ninety_ninth n);
      p999 = sample_at x xs (index rank last_of_thousand n);
      max = sample_at x xs (n - 1);
      mean = divided (total (x ∷ xs)) n;
    }

-- `(*recorder).stats`. A recorder with no sample sorts none.
unfoldable pub stats : (List ℕ → List ℕ) → (Percentile → ℕ → ℕ) → List ℕ → Stats
stats sort rank [] = no_stats
stats sort rank (x ∷ xs) = stats_of rank (sort (x ∷ xs))

-- What a dial ends with: a connection after so long, or an error, with the status of a response if
-- there was one.
pub data Dial : Type 0 where
  connected : ℕ → Dial
  failed : Option ℕ → Dial

pub record Ramp : Type 0 where
  pub connected : ℕ
  pub connect_failed : ℕ
  pub refused : ℕ
  pub latency : List ℕ

abbrev is_503 : Option ℕ → Bool
is_503 none = false
is_503 (some code) = code == 503

-- The end of one driver's dial.
unfoldable pub dialled : Dial → Ramp → Ramp
dialled (connected took) r = record r {
  connected = r.connected + 1;
  latency = r.latency ++ took ∷ [];
}
dialled (failed status) r =
    if is_503 status
    then record r { refused = r.refused + 1 }
    else record r { connect_failed = r.connect_failed + 1 }

-- What the submission of a ride request ends with: no request or no response, or a status after so
-- long.
pub data Submission : Type 0 where
  unsent : Submission
  answered : ℕ → ℕ → Submission

pub record Submitted : Type 0 where
  pub accepted : ℕ
  pub rejected : ℕ
  pub failed : ℕ
  pub latency : List ℕ

unfoldable pub submitted : Submission → Submitted → Submitted
submitted unsent r = record r { failed = r.failed + 1 }
submitted (answered status took) r =
    let timed = record r { latency = r.latency ++ took ∷ [] } in
    if status == 202
    then record timed { accepted = r.accepted + 1 }
    else if leb 500 status
    then record timed { failed = r.failed + 1 }
    else record timed { rejected = r.rejected + 1 }

-- The drivers and the riders of `runPipeline`, in the order in which they end.
unfoldable pub ramp : List Dial → Ramp → Ramp
ramp [] r = r
ramp (d ∷ ds) r = ramp ds (dialled d r)

unfoldable pub submit : List Submission → Submitted → Submitted
submit [] r = r
submit (s ∷ ss) r = submit ss (submitted s r)
