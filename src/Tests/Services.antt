-- ===== src/Tests/Services.antt =====
-- The services at concrete flags, and the theorems on them.
use ride_matching_engine.Common.{
  ℕ, ◌+◌, ◌≤◌, ◌≡◌, ◌↔◌, refl, true, false, none, some, List, [], ◌∷◌, ℤ, pos, inr, same, arith,
  length, ◌⊎◌,
}
use ride_matching_engine.Common.Int.{◌+ℤ◌}
use ride_matching_engine.Errors.{plain, ok}
use ride_matching_engine.Time.{Time, is_zero}
use ride_matching_engine.Auth.{ApiKey, active}
use ride_matching_engine.AuthSetup.{guarded, open_store, reached}
use ride_matching_engine.Api.Handlers.{Depths}
use ride_matching_engine.Api.Laws.{Guarded}
use ride_matching_engine.Auth.Middleware.{any_same}
use ride_matching_engine.Pipeline.{Ping, flush, run}
use ride_matching_engine.Pipeline.Laws.{Ended}
use ride_matching_engine.Queue.Stream.Gauges.{
  Lengths, new_redis_stream, default_stream_options, check_options, checked, ensure_group,
  tolerated,
}
use ride_matching_engine.Batcher.Config.{apply_defaults}
use ride_matching_engine.Cmd.Ingestd.{life}
use ride_matching_engine.Cmd.Ingestd.Shutdown.{life_lem}
use ride_matching_engine.Cmd.Keyadmin.{status}
use ride_matching_engine.Cmd.Keyadmin.Laws.{ListedActive, ListedExpired, ListedRevoked, status_lem}
use ride_matching_engine.Cmd.Batcherd
use ride_matching_engine.Cmd.Batcherd.{Probe, warm_up, batcher_config, launch}
use ride_matching_engine.Cmd.Batcherd.Startup.{Settled, warm_up_ends, MayRun, launch_iff}
use ride_matching_engine.Cmd.Requestd
use ride_matching_engine.Cmd.Requestd.{
  Pings, queue_options, server_config, start, behind_stream, behind_ping, keyed, answer,
  start-Guarded,
}
use ride_matching_engine.Tests.Access.{fleet_key, key_store}
use ride_matching_engine.Tests.Numbers.{whole}
use ride_matching_engine.Tests.Requests.{kept, json, route, call, stats}
use ride_matching_engine.Tests.Windows.{config, idle, ping, stores, outside, events}

abbrev late : List (Time × Ping ℤ)
late = (pos 9, ping "sf") ∷ (pos 10, ping "nyc") ∷ []

life_lem_example :
    let m = run whole stores config events (idle, []) in
    let f = flush stores outside m.0 m.1 in
    let r = run whole stores config (life events outside late) (idle, []) in
    (f.1.buffer ≡ [])
    × Ended stores (length m.0.buffer) m.0 f.0 f.1
    × (r.1 ≡ f.2)
    × (r.0.flushed ≡ f.1.flushed)
    × (r.0.windows ≡ m.0.windows + 1)
    × (r.0.pings + r.0.shed ≡ m.0.pings + m.0.shed + 2)
life_lem_example = life_lem whole stores config events outside late idle []

-- A key that is retired, with its revocation still to come.
abbrev retired : ApiKey
retired = record fleet_key { revoked_at = pos 100 }

status_lem_example :
    ListedActive retired (pos 5) ⊎ (ListedExpired retired (pos 5) ⊎ ListedRevoked retired (pos 5))
status_lem_example = status_lem retired (pos 5)

-- It is in use, and listed as revoked.
retired_in_use : (active retired (pos 5) ≡ true) × (status retired (pos 5) ≡ "revoked")
unfolding active status is_zero
retired_in_use = (refl, refl)

-- An engine that never answers.
abbrev silent : ℕ → Probe
silent i = (none, some (plain "connection refused"))

warm_up_ends_example :
    (n : ℕ) × (t : Time) × (p : Probe) × (warm_up (λ i. 5000000) silent (pos 0) 0 24
      ≡ some (n, t, p))
    × (n ≤ 23)
    × Settled (pos 0 +ℤ pos 45000000000) (n, t, p)
unfolding ◌+ℤ◌
warm_up_ends_example = warm_up_ends (λ i. 5000000) silent (pos 0) 0 24 (omega arith)

abbrev roads : Batcherd.Flags ℤ
roads = record {
  consumer = "";
  window = pos 3000000000;
  max_batch = pos 500;
  radius = pos 5000;
  candidates = pos 8;
  use_roads = true;
  graph_id = "blr-central";
}

abbrev loaded : Probe
loaded = (some ("blr-central" ∷ []), none)

launch_iff_example :
    (launch whole roads loaded ≡ inr (apply_defaults whole (batcher_config whole roads))) ↔ (
      MayRun whole roads loaded
      × (apply_defaults whole (batcher_config whole roads)
          ≡ apply_defaults whole (batcher_config whole roads)))
launch_iff_example =
    launch_iff whole roads loaded (apply_defaults whole (batcher_config whole roads))

-- A server whose consumer group is there, or is created.
abbrev lengths : Lengths
lengths = record {
  Server = ℕ;
  xgroup_create = λ stream group from n. (none, n + 1);
  xinfo_groups = λ stream n. ok [];
  xpending_count = λ stream group n. ok 0;
  xlen = λ stream n. ok 0;
}

abbrev flags : Requestd.Flags
flags = record {
  redis_addr = "localhost:6379";
  tenant = "default";
  max_len = 1000000;
  allow_anonymous = false;
}

abbrev pings : Pings
pings = record { queue_ping = none; keys_ping = none }

abbrev depths_here : Depths whole json kept (server_config flags)
depths_here = record { depth = λ s. ok 0; pending = λ s. ok 0; dead_letter_depth = λ s. ok 0 }

group_there : (new_redis_stream lengths (queue_options flags (pos 0)) 0).0 ≡ none
unfolding new_redis_stream queue_options default_stream_options check_options checked ensure_group
    tolerated same
group_there = refl

started : (start lengths flags (pos 0) pings 0).0 ≡ inr (server_config flags, guarded)
unfolding start behind_stream behind_ping keyed open_store reached new_redis_stream queue_options
    default_stream_options check_options checked ensure_group tolerated same
started = refl

start-Guarded_example :
    ((new_redis_stream lengths (queue_options flags (pos 0)) 0).0 ≡ none)
    × (pings.queue_ping ≡ none)
    × (pings.keys_ping ≡ none)
    × (server_config flags ≡ server_config flags)
    × Guarded whole json kept
        (server_config flags)
        (λ s. s)
        key_store
        route
        depths_here
        call
        stats
        []
        0
        (answer whole json kept
          (λ s. s)
          key_store
          route
          (server_config flags)
          depths_here
          guarded
          call
          stats
          []
          0)
unfolding same any_same
start-Guarded_example =
    start-Guarded lengths flags (pos 0) pings 0 (server_config flags) guarded whole json kept
      (λ s. s) key_store route depths_here call stats [] 0 refl started refl refl
