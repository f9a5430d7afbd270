-- ===== src/Tests/Requests.antt =====
-- A ride request over HTTP, and the theorem on it.
use ride_matching_engine.Common.{
  inl, inr, refl, true, String, none, some, List, [], ◌∷◌, ℤ, pos, same, if◌then◌else◌,
}
use ride_matching_engine.Errors.{ok}
use ride_matching_engine.Queue.{RideRequest, Queue}
use ride_matching_engine.Api.{Config, Stats, DecodeError, Json}
use ride_matching_engine.Api.Handlers.{
  Route, create_ride_request, not_found, Call, Depths, serve_http,
}
use ride_matching_engine.Api.Laws.{Guarded, serve_http-Guarded}
use ride_matching_engine.Auth.Middleware.{any_same}
use ride_matching_engine.Tests.Access.{key_store, call_with}
use ride_matching_engine.Tests.Numbers.{whole}

-- A queue that keeps the requests.
abbrev pub kept : Queue ℤ
kept = record {
  State = List (RideRequest ℤ);
  publish = λ r s. (ok "1-0", r ∷ s);
  consume = λ n d s. (ok [], s);
  ack = λ ids s. (none, s);
  reclaim = λ d n s. ([], none, s);
  republish = λ m s. (none, s);
  dead_letter = λ m why s. (none, s);
}

-- A decoder that reads one body.
abbrev pub json : Json ℤ
json = record {
  Text = String;
  decode = λ max t.
      if same t "a ride"
      then inr (record {
        rider_id = "r1";
        pickup = some (record { lat = some (pos 12); lng = some (pos 77) });
      })
      else inl DecodeError.body_empty;
  at_end = λ t. true;
  quote = λ s. s;
  is_finite = λ x. true;
}

abbrev config : Config
config = record {
  tenant_id = "default";
  max_body_bytes = pos 16384;
  publish_timeout = pos 2000000000;
}

abbrev pub route : String → String → Route
route method path = if same path "/v1/ride-requests" then create_ride_request else not_found

abbrev pub depths : Depths whole json kept config
depths = record { depth = λ s. ok 0; pending = λ s. ok 0; dead_letter_depth = λ s. ok 0 }

abbrev pub stats : Stats
stats = record { accepted = 0; rejected = 0; failed = 0; panics = 0 }

abbrev pub call : Call String
call = record {
  method = "POST";
  request = call_with "rmk_01_ab";
  text = "a ride";
  now = pos 5;
  bytes = some (7 ∷ []);
  nanos = pos 5;
}

serve_http-Guarded_example :
    Guarded whole json kept config
      (λ s. s)
      key_store
      route
      depths
      call
      stats
      []
      0
      (serve_http whole json kept config (λ s. s) key_store route depths call stats [] 0)
unfolding same any_same
serve_http-Guarded_example =
    serve_http-Guarded whole json kept config (λ s. s) key_store route depths call stats [] 0 refl
      refl
