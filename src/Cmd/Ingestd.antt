-- ===== src/Cmd/Ingestd.antt =====
-- The ingest service: infrastructure/cmd/ingestd/main.go. Its settings, the one location store that
-- its pipeline writes to, its life from the start to the end of the process, and the printing of
-- counters.
use ride_matching_engine.Common.{
  ℕ, zero, suc, ◌+◌, ◌-◌, ◌/◌, ◌%◌, Bool, true, false, String, Option, none, some, List, [], ◌∷◌,
  ◌++◌, map, ℤ, pos, negsuc, same, ◌==◌, if◌then◌else◌,
}
use ride_matching_engine.Common.Chars.{split}
use ride_matching_engine.Common.Int.{pos_part, neg_part, ltb_ℤ}
use ride_matching_engine.Errors.{Error, Fallible}
use ride_matching_engine.Floats.{Floats}
use ride_matching_engine.Time.{Time, Duration, same_ℤ}
use ride_matching_engine.Locations.{DriverLocation}
use ride_matching_engine.Pipeline.{
  Config, Ping, Pipeline, Stores, Outside, Event, pinged, flush_due, run, new,
}
pub mod Decimals
pub mod Shutdown

-- `*window / 2`, which rounds towards zero.
unfoldable pub half : Duration → Duration
half (pos n) = pos (n / 2)
half (negsuc n) = if n == 0 then pos 0 else negsuc ((n + 1) / 2 - 1)

-- What the flags say of the pipeline.
abbrev pub pipeline_config : Duration → ℤ → Config
pipeline_config window max_buffered = record {
  window = window;
  max_buffered_drivers = max_buffered;
  flush_timeout = half window;
}

pub new_pipeline : (Duration → String) → Duration → ℤ → Fallible Config
new_pipeline show window max_buffered = new show (pipeline_config window max_buffered)

-- `--allowed-origins`.
pub allowed_origins : String → List String
allowed_origins flag = if same flag "" then [] else split b',' flag

-- `pipeline.New(store, …)`: the one store takes the groups of all tenants.
abbrev pub one_store : {F S : Type 0} → (List (DriverLocation F) → S → Option Error × S) → Stores F
one_store {F = F} {S = S} upsert = record { State = S; upsert_many = λ tenant ls s. upsert ls s }

abbrev pub late_event : {F : Type 0} → Time × Ping F → Event F
late_event (now, p) = pinged now p

-- The pipeline's events in a life of the process: those up to the cancellation, the last flush, with
-- which `Run` answers it, and the pings of the connections that are drained behind it.
abbrev pub life : {F : Type 0} → List (Event F) → Outside F → List (Time × Ping F) → List (Event F)
life before last late = before ++ flush_due last ∷ map late_event late

-- `-n` in an int64: the least one is its own negative.
abbrev pub least : ℤ
least = negsuc 9223372036854775807

unfoldable pub negated : ℤ → ℤ
negated n = if same_ℤ n least then n else pos (neg_part n)

-- `for n > 0 { i--; buf[i] = …; n /= 10 }`: the cells of the buffer that are free, and the bytes
-- behind them. With no cell free the write panics.
unfoldable pub fill : ℕ → ℕ → List ℕ → Option (ℕ × List ℕ)
fill zero n out = if n == 0 then some (0, out) else none
fill (suc room) n out =
    let rest = fill room (n / 10) ((b'0' + n % 10) ∷ out) in
    if n == 0 then some (suc room, out) else rest

-- The minus sign, which takes a cell too.
unfoldable pub signed : Bool → Option (ℕ × List ℕ) → Option (List ℕ)
signed neg none = none
signed false (some (room, out)) = some out
signed true (some (zero, out)) = none
signed true (some (suc room, out)) = some (b'-' ∷ out)

-- `itoa`, as bytes; `none` is a panic.
unfoldable pub itoa : ℤ → Option (List ℕ)
itoa n =
    if same_ℤ n (pos 0)
    then some (b'0' ∷ [])
    else let neg = ltb_ℤ n (pos 0) in
      signed neg (fill 20 (pos_part (if neg then negated n else n)) [])
