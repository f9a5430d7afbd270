-- ===== src/Tests/Windows.antt =====
-- A buffer of two drivers, two tenants with the same driver id, and a store that fails for one.
use ride_matching_engine.Common.{
  ◌+◌, ◌≡◌, refl, ◌⊎◌, String, none, some, List, [], ◌∷◌, ◌++◌, pos, All, Memᴰ, arith, same,
  if◌then◌else◌,
}
use ride_matching_engine.Common.Chars.{Lacks}
use ride_matching_engine.Common.Int.{◌≤ℤ◌}
use ride_matching_engine.Errors.{plain}
use ride_matching_engine.Locations.{DriverLocation}
use ride_matching_engine.Pipeline.{
  Config, Ping, Pipeline, Stores, Outside, Groups, Event, pinged, flush_due, buf_key, look_up,
  location, accept, by_tenant, run,
}
use ride_matching_engine.Pipeline.Laws.{accept_lem, IsBounded, ping_count, run_within_room}
use ride_matching_engine.Pipeline.Tenants.{IsOwn, OneGroupEach, IsIn, total, by_tenant_lem}
use ride_matching_engine.Tests.Numbers.{whole}

abbrev pub config : Config
config = record {
  window = pos 3000000000;
  max_buffered_drivers = pos 2;
  flush_timeout = pos 2000000000;
}

abbrev pub idle : Pipeline whole.F
idle = record { buffer = []; pings = 0; shed = 0; flushed = 0; windows = 0; flush_failures = 0 }

abbrev pub ping : String → Ping whole.F
ping tenant = record { tenant_id = tenant; driver_id = "D-001"; lat = pos 37; lng = pos 122 }

abbrev batch : List (DriverLocation whole.F)
batch = location whole (pos 1) (ping "sf") ∷ location whole (pos 2) (ping "nyc") ∷ []

-- The stores record what they are given; the one of "sf" is down.
abbrev pub stores : Stores whole.F
stores = record {
  State = Groups whole.F;
  upsert_many = λ tenant ls w. (
    if same tenant "sf" then some (plain "connection refused") else none,
    w ++ (tenant, ls) ∷ [],
  );
}

abbrev pub outside : Outside whole.F
outside = record { range_buffer = λ ls. ls; range_groups = λ gs. gs; took = pos 1000000 }

abbrev pub events : List (Event whole.F)
events =
    pinged (pos 1) (ping "sf")
    ∷ pinged (pos 2) (ping "nyc")
    ∷ pinged (pos 3) (ping "la")
    ∷ flush_due outside
    ∷ pinged (pos 4) (ping "la")
    ∷ []

accept_lem_example :
    ((look_up (buf_key "sf" "D-001") idle.buffer ≡ none)
      × (pos 2 ≤ℤ pos 0)
      × ((accept whole config (pos 1) (ping "sf") idle).buffer ≡ [])
      × ((accept whole config (pos 1) (ping "sf") idle).shed ≡ 0 + 1)
      × ((accept whole config (pos 1) (ping "sf") idle).pings ≡ 0))
    ⊎ ((look_up (buf_key "sf" "D-001") (accept whole config (pos 1) (ping "sf") idle).buffer
          ≡ some (location whole (pos 1) (ping "sf")))
        × ¬ ((look_up (buf_key "sf" "D-001") idle.buffer ≡ none) × (pos 2 ≤ℤ pos 0))
        × ((tenant driver : String)
            → Lacks 0 tenant
            → ¬ ((tenant ≡ "sf") × (driver ≡ "D-001"))
            → look_up (buf_key tenant driver) (accept whole config (pos 1) (ping "sf") idle).buffer
              ≡ look_up (buf_key tenant driver) idle.buffer)
        × ((accept whole config (pos 1) (ping "sf") idle).shed ≡ 0)
        × ((accept whole config (pos 1) (ping "sf") idle).pings ≡ 0 + 1))
accept_lem_example = accept_lem whole config (pos 1) (ping "sf") idle (refl, (refl, tt))

by_tenant_lem_example :
    All IsOwn (by_tenant batch)
    × OneGroupEach (by_tenant batch)
    × ((l : DriverLocation whole.F) → Memᴰ l batch → IsIn l (by_tenant batch))
    × (total (by_tenant batch) ≡ 2)
by_tenant_lem_example = by_tenant_lem batch

abbrev filled : Pipeline whole.F
filled = record idle { buffer = (buf_key "sf" "D-001", location whole (pos 1) (ping "sf")) ∷ [] }

run_within_room_example :
    IsBounded whole config (run whole stores config events (idle, [])).0
    × ((run whole stores config events (idle, [])).0.pings
          + (run whole stores config events (idle, [])).0.shed
        ≡ 0 + 0 + ping_count whole stores config events)
run_within_room_example =
    run_within_room whole stores config events idle [] (omega arith) (omega arith)
