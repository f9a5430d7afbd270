-- ===== src/AdminServer.antt =====
-- The admin server: infrastructure/internal/adminserver/server.go, its configuration, its routes and
-- its index page. The handlers of net/http/pprof and the figures of the runtime are not modelled.
use ride_matching_engine.Common.{
  ◌≡◌, refl, Bool, false, String, ◌<>◌, List, [], ◌∷◌, ℤ, pos, same, if◌then◌else◌,
}
use ride_matching_engine.Common.Int.{leb_ℤ}

pub record Config : Type 0 where
  pub addr : String
  pub disable_profiling : Bool
  pub service_name : String

-- `DefaultConfig`.
pub default_config : String → Config
default_config service = record {
  addr = ":6060";
  disable_profiling = false;
  service_name = service;
}

-- The default of `New`.
unfoldable pub apply_defaults : Config → Config
unfolding default_config
apply_defaults c = record c {
  addr = if same c.addr "" then (default_config c.service_name).addr else c.addr;
}

abbrev pub profiling_routes : List String
profiling_routes =
    "GET /debug/pprof/" ∷ "GET /debug/pprof/cmdline" ∷ "GET /debug/pprof/profile"
    ∷ "GET /debug/pprof/symbol" ∷ "GET /debug/pprof/trace" ∷ []

-- The patterns that `New` registers on its own mux.
unfoldable pub routes : Config → List String
routes c =
    "GET /"
    ∷ "GET /healthz"
    ∷ "GET /debug/runtime"
    ∷ (if c.disable_profiling then [] else profiling_routes)

abbrev pub profiling_lines : List String
profiling_lines =
    "  /debug/pprof/\n" ∷ "  /debug/pprof/profile?seconds=30   CPU\n"
    ∷ "  /debug/pprof/heap                 in-use memory\n"
    ∷ "  /debug/pprof/allocs               total allocations\n"
    ∷ "  /debug/pprof/goroutine            stacks (leak hunting)\n"
    ∷ "  /debug/pprof/block                blocking profile*\n"
    ∷ "  /debug/pprof/mutex                contention profile*\n\n"
    ∷ "  * block and mutex need SetBlockProfileRate / SetMutexProfileFraction; see EnableContentionProfiling.\n"
    ∷ []

-- The lines of `index`, as they are written.
unfoldable pub index : Config → List String
index c =
    (c.service_name <> " — admin\n\n")
    ∷ "  /healthz\n  /debug/runtime\n"
    ∷ (if c.disable_profiling then [] else profiling_lines)

-- `EnableContentionProfiling`: the rate that both profilers are set to.
pub contention_rate : ℤ → ℤ
contention_rate rate = if leb_ℤ rate (pos 0) then pos 1 else rate

-- A configuration that says nothing of profiling has it, on the default address.
zero_value_profiles :
    (service : String)
    → let c =
        apply_defaults (record { addr = ""; disable_profiling = false; service_name = service }) in
      (c.addr ≡ ":6060")
      × (routes c ≡ "GET /" ∷ "GET /healthz" ∷ "GET /debug/runtime" ∷ profiling_routes)
unfolding apply_defaults routes same
zero_value_profiles service = (refl, refl)
