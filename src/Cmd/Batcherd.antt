-- ===== src/Cmd/Batcherd.antt =====
-- The batcher service: infrastructure/cmd/batcherd/main.go, from its flags to the batcher that it
-- starts. The clock and the engine's answers to the probes are parameters.
use ride_matching_engine.Common.{
  ◌+◌, ℕ, zero, suc, Bool, true, false, not, ◌&&◌, String, ◌<>◌, Option, none, some, List, ◌⊎◌, inl,
  inr, ℤ, pos, same, if◌then◌else◌,
}
use ride_matching_engine.Common.Decimal.{itoa}
use ride_matching_engine.Common.Int.{◌+ℤ◌, ltb_ℤ}
use ride_matching_engine.Errors.{Error, Fallible, ok, err, plain}
use ride_matching_engine.Floats.{Floats}
use ride_matching_engine.Time.{Time, Duration}
use ride_matching_engine.Engine.{Outcome, served}
use ride_matching_engine.Batcher.Config.{Config, default_config, euclidean, travel_time, new}
use ride_matching_engine.Cmd.Ingestd.{half}
pub mod Startup
pub mod Wiring

pub record Flags (F : Type 0) : Type 0 where
  pub consumer : String
  pub window : Duration
  pub max_batch : ℤ
  pub radius : F
  pub candidates : ℤ
  pub use_roads : Bool
  pub graph_id : String

-- The consumer's name, by default the host's with the process id.
pub consumer_name : {F : Type 0} → Flags F → String → ℤ → String
consumer_name f host pid = if same f.consumer "" then host <> ("-" <> itoa pid) else f.consumer

-- What a probe of the engine returns: the loaded graphs, and an error.
abbrev pub Probe : Type 0
Probe = Outcome (List String)

abbrev pub is_reached : Probe → Bool
is_reached (gs, none) = true
is_reached (gs, some e) = false

-- The loop of probes, with fuel: how long each probe takes, with what the sleep behind it takes
-- beyond its two seconds; the answers; the deadline; and `now`, the instant at which the loop's test
-- reads the clock. The result has the number of probes, the instant of the last test, and the last
-- answer; `none` is a loop that has not ended yet.
unfoldable pub warm :
    (ℕ → ℕ) → (ℕ → Probe) → Time → ℕ → ℕ → Time → Probe → Option (ℕ × Time × Probe)
warm took probe deadline zero i now last = none
warm took probe deadline (suc fuel) i now last =
    let slept = now +ℤ pos (took i + 2000000000) in
    let again = warm took probe deadline fuel (suc i) slept (probe i) in
    if not (ltb_ℤ now deadline)
    then some (i, now, last)
    else if is_reached (probe i)
    then some (suc i, now, probe i)
    else again

-- The loop of a process that reads the clock at `started`, and `lag` later for its first test.
unfoldable pub warm_up : (ℕ → ℕ) → (ℕ → Probe) → Time → ℕ → ℕ → Option (ℕ × Time × Probe)
warm_up took probe started lag fuel =
    warm took probe (started +ℤ pos 45000000000) fuel 0 (started +ℤ pos lag) (none, none)

module _ (fl : Floats) where
  open fl use {F}

  unfoldable pub batcher_config : Flags F → Config F
  batcher_config f = record (default_config fl) {
    window = f.window;
    max_batch_size = f.max_batch;
    search_radius_meters = f.radius;
    max_candidates_per_rider = f.candidates;
    cost_metric = if f.use_roads then travel_time else euclidean;
    road_graph_id = f.graph_id;
    solve_timeout = half f.window;
  }

  unfoldable pub configured : Fallible (Config F) → Error ⊎ Config F
  configured (err e) = inl e
  configured (ok c) = inr c

  -- From the last answer of the engine to the batcher: with travel times, an engine that answers has to
  -- have the graph loaded.
  unfoldable pub launch : Flags F → Probe → Error ⊎ Config F
  launch f p =
      if f.use_roads && (is_reached p && not (served f.graph_id p).0)
      then inl (plain "the engine does not have this road graph loaded")
      else configured (new fl (batcher_config f))
