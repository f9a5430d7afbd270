-- ===== src/Engine/Connection.antt =====
-- The client of the engine: `Dial` and `WithTimeout` of infrastructure/internal/engine/client.go. What
-- grpc.NewClient returns is a parameter; it connects to nothing.
use ride_matching_engine.Common.{String, ◌<>◌, Option, none, some, List, [], ◌∷◌, pos}
use ride_matching_engine.Errors.{Error, Fallible, ok, err, wrap}
use ride_matching_engine.Time.{Duration}

abbrev pub default_timeout : Duration
default_timeout = pos 2000000000

-- The options, of which each overrides the timeout, in their order.
unfoldable pub timeout_of : Duration → List Duration → Duration
timeout_of t [] = t
timeout_of t (d ∷ ds) = timeout_of d ds

-- `Dial`: the timeout of the client's calls.
unfoldable pub dial : String → Option Error → List Duration → Fallible Duration
dial target (some e) opts = err (wrap ("dial " <> (target <> ": ")) e "")
dial target none opts = ok (timeout_of default_timeout opts)
