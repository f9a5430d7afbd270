-- ===== src/Api/Handlers.antt =====
-- The handlers of the HTTP API, and their composition with the authentication:
-- infrastructure/internal/api/server.go.
use ride_matching_engine.Common.{
  ℕ, ◌+◌, Bool, true, false, String, ◌<>◌, Option, none, some, List, [], ◌∷◌, ◌⊎◌, inl, inr, ℤ, pos,
  same, if◌then◌else◌,
}
use ride_matching_engine.Errors.{Fallible, ok, err}
use ride_matching_engine.Floats.{Floats}
use ride_matching_engine.Time.{Time}
use ride_matching_engine.Queue.{RideRequest, Queue}
use ride_matching_engine.Auth.{ApiKey, Store}
use ride_matching_engine.Auth.Middleware.{Request, Decision, serve, refuse, middleware}
use ride_matching_engine.Api.{
  Config, Stats, RideRequestInput, accepted_body, status_body, stats_body, Response, write_error,
  write_json, DecodeError, Json, Complaint, describe_decode_error, Fault, validate, request_id_of,
}

-- `TenantFromContext`, or the configured tenant.
unfoldable pub tenant_of : Config → Option ApiKey → String
tenant_of c none = c.tenant_id
tenant_of c (some k) = k.tenant_id

-- The handler that the router finds for a method and a path: one for each pattern of `Routes`.
pub data Route : Type 0 where
  create_ride_request health ready stats not_found : Route

-- What one request brings: its method, path and headers, its body, the instant that the server's clock
-- shows, and what `newRequestID` would draw.
pub record Call (T : Type 0) : Type 0 where
  pub method : String
  pub request : Request
  pub text : T
  pub now : Time
  pub bytes : Option (List ℕ)
  pub nanos : ℤ

abbrev pub failure_status : String → ℕ
failure_status code = if same code "payload_too_large" then 413 else 400

module _ (fl : Floats) (json : Json fl.F) (queue : Queue fl.F) (c : Config) where
  open fl use {F, literal}

  -- A response, the counters, and the queue.
  abbrev pub Served : Type 0
  Served = Response × Stats × queue.State

  unfoldable pub turn_down : ℕ → Complaint → String → Stats → queue.State → Served
  turn_down status (code, message, field) id st s =
      (write_error [] status code message field id, record st { rejected = st.rejected + 1 }, s)

  unfoldable pub ride_request : String → String → String → Time → F × F → RideRequest F
  ride_request id tenant rider now (lat, lng) = record {
    request_id = id;
    tenant_id = tenant;
    rider_id = rider;
    lat = lat;
    lng = lng;
    requested_at = now;
    match_attempts = pos 0;
  }

  unfoldable pub published : String → Stats → Fallible String × queue.State → Served
  published id st (err e, s) = (
    write_error (("Retry-After", "1") ∷ []) 503 "unavailable"
        "could not accept the request right now; please retry" "" id,
    record st { failed = st.failed + 1 },
    s,
  )
  published id st (ok entry, s) =
      (write_json 202 id (accepted_body id "PENDING"), record st { accepted = st.accepted + 1 }, s)

  unfoldable pub validated :
      String
      → Option ApiKey
      → Time
      → RideRequestInput F
      → Fault ⊎ (F × F)
      → Stats
      → queue.State
      → Served
  validated id key now i (inl (field, message)) st s =
      turn_down 400 ("invalid_argument", message, field) id st s
  validated id key now i (inr place) st s =
      published id st (queue.publish (ride_request id (tenant_of c key) i.rider_id now place) s)

  unfoldable pub decoded :
      String
      → Option ApiKey
      → Time
      → Bool
      → DecodeError ⊎ RideRequestInput F
      → Stats
      → queue.State
      → Served
  decoded id key now at_end (inl e) st s =
      let complaint = describe_decode_error json.quote c.max_body_bytes e in
      turn_down (failure_status complaint.0) complaint id st s
  decoded id key now false (inr i) st s =
      turn_down 400 ("malformed_json", "body must contain exactly one JSON object", "") id st s
  decoded id key now true (inr i) st s = validated id key now i (validate fl json i) st s

  -- `handleCreateRideRequest`, for the request's id and the key attached to it.
  unfoldable pub handle_create_ride_request :
      String → Option ApiKey → Time → json.Text → Stats → queue.State → Served
  handle_create_ride_request id key now text st s =
      decoded id key now (json.at_end text) (json.decode c.max_body_bytes text) st s

  -- The queue's lengths, which the probes and the statistics ask for.
  pub record Depths : Type 0 where
    pub depth : queue.State → Fallible ℕ
    pub pending : queue.State → Fallible ℕ
    pub dead_letter_depth : queue.State → Fallible ℕ

  -- The length that comes with an error is 0.
  or_zero : Fallible ℕ → ℕ
  or_zero (ok n) = n
  or_zero (err e) = 0

  reachable : String → Fallible ℕ → Response
  reachable id (err e) = write_error [] 503 "unavailable" "queue is not reachable" "" id
  reachable id (ok n) = write_json 200 id (status_body "ready")

  -- `handleHealth`, `handleReady`, `handleStats`, `handleNotFound`, and the route to them.
  unfoldable pub handle :
      Depths → Call json.Text → String → Option ApiKey → Route → Stats → queue.State → Served
  unfolding reachable or_zero
  handle d call id key create_ride_request st s =
      handle_create_ride_request id key call.now call.text st s
  handle d call id key health st s = (write_json 200 id (status_body "ok"), st, s)
  handle d call id key ready st s = (reachable id (d.depth s), st, s)
  handle d call id key stats st s = (
    write_json 200 id (
        stats_body st (or_zero (d.depth s)) (or_zero (d.pending s))
          (or_zero (d.dead_letter_depth s))),
    st,
    s,
  )
  handle d call id key not_found st s = (
    write_error [] 404 "not_found" ("no route for " <> (call.method <> (" " <> call.request.path)))
        "" id,
    st,
    s,
  )

  module _ (hash_secret : String → String) (keys : Store) (route : String → String → Route)
      (d : Depths) where
    -- What the handlers and the key store leave.
    abbrev pub Answered : Type 0
    Answered = Response × Stats × queue.State × keys.State

    unfoldable pub authenticated :
        Call json.Text → String → Decision × keys.State → Stats → queue.State → Answered
    authenticated call id (serve key, ks) st s =
        let (r, st', s') = handle d call id key (route call.method call.request.path) st s in
        (r, st', s', ks)
    authenticated call id (refuse status headers code message, ks) st s =
        (write_error headers status code message "" id, st, s, ks)

    unfoldable pub call_id : Call json.Text → String
    call_id call = request_id_of (call.request.headers "X-Request-ID") call.bytes call.nanos

    -- `Routes` of a server with a key store: the request gets its id, and is authenticated, and then
    -- handled.
    unfoldable pub serve_http : Call json.Text → Stats → queue.State → keys.State → Answered
    serve_http call st s ks =
        authenticated call (call_id call)
          (middleware hash_secret keys ("/healthz" ∷ "/readyz" ∷ []) call.request call.now ks) st s
