-- ===== src/Api/Laws.antt =====
-- What becomes of a ride request, and of one that reaches a server with a key store.
use ride_matching_engine.Common.{
  ℕ, ◌+◌, ◌≤◌, ◌≡◌, ◌≢◌, refl, sym, ap, Bool, true, false, String, Option, some, [], ◌∷◌, ◌⊎◌, inl,
  inr, pos, same, Bool-cases,
}
use ride_matching_engine.Common.Chars.{byte_length}
use ride_matching_engine.Errors.{Error, Fallible, ok, err}
use ride_matching_engine.Floats.{Floats}
use ride_matching_engine.Time.{Time}
use ride_matching_engine.Queue.{RideRequest, Queue}
use ride_matching_engine.Auth.{ApiKey, Store}
use ride_matching_engine.Auth.Laws.{IsGranted}
use ride_matching_engine.Auth.Middleware.{Decision, serve, refuse, presented_key, any_same}
use ride_matching_engine.Auth.Middleware.Laws.{IsRefusal, Meaning, middleware-Meaning}
use ride_matching_engine.Api.{
  Config, Stats, RideRequestInput, accepted_body, write_error, write_json, DecodeError, Json,
  describe_decode_error, Fault, validate,
}
use ride_matching_engine.Api.Places.{IsPlace, validate_ok}
use ride_matching_engine.Api.Handlers.{
  Route, create_ride_request, Call, tenant_of, failure_status, Served, turn_down, ride_request,
  published, validated, decoded, handle_create_ride_request, Depths, handle, Answered,
  authenticated, call_id, serve_http,
}

module _ (fl : Floats) (json : Json fl.F) (queue : Queue fl.F) (c : Config) where
  open fl use {F, literal}

  -- What a published request is: of a valid input, which is all that the body holds, under the id of
  -- the HTTP request and the tenant of its key.
  pub record IsAcceptable (id tenant : String) (now : Time) (text : json.Text) (r : RideRequest F)
      : Type 0 where
    pub input : RideRequestInput F
    pub sent : json.decode c.max_body_bytes text ≡ inr input
    pub alone : json.at_end text ≡ true
    pub rider : r.rider_id ≡ input.rider_id
    pub rider_named : r.rider_id ≢ ""
    pub rider_short : byte_length r.rider_id ≤ 128
    pub pickup : input.pickup ≡ some (record { lat = some r.lat; lng = some r.lng })
    pub place : IsPlace fl json r.lat r.lng
    pub own_id : r.request_id ≡ id
    pub own_tenant : r.tenant_id ≡ tenant
    pub first_attempt : (r.match_attempts ≡ pos 0) × (r.requested_at ≡ now)

  -- What becomes of a request: it is turned down as the client's fault, or published; and the publish
  -- fails or not. One counter counts it.
  pub data Outcome (id tenant : String) (now : Time) (text : json.Text) (st : Stats)
      (s : queue.State) (out : Served fl json queue c) : Type 0 where
    turned_down :
        (status : ℕ) (code message field : String)
        → (status ≡ 400) ⊎ (status ≡ 413)
        → out ≡ (
          write_error [] status code message field id,
          record st { rejected = st.rejected + 1 },
          s,
        )
        → Outcome id tenant now text st s out
    unavailable :
        (r : RideRequest F) (e : Error)
        → IsAcceptable id tenant now text r
        → (queue.publish r s).0 ≡ err e
        → out.0.status ≡ 503
        → (out.1 ≡ record st { failed = st.failed + 1 }) × (out.2 ≡ (queue.publish r s).1)
        → Outcome id tenant now text st s out
    taken :
        (r : RideRequest F) (entry : String)
        → IsAcceptable id tenant now text r
        → (queue.publish r s).0 ≡ ok entry
        → out ≡ (
          write_json 202 id (accepted_body id "PENDING"),
          record st { accepted = st.accepted + 1 },
          (queue.publish r s).1,
        )
        → Outcome id tenant now text st s out

  published-Outcome :
      (id tenant : String) (now : Time) (text : json.Text) (st : Stats) (s : queue.State)
      (r : RideRequest F) (p : Fallible String × queue.State)
      → IsAcceptable id tenant now text r
      → queue.publish r s ≡ p
      → Outcome id tenant now text st s (published fl json queue c id st p)
  unfolding published write_error
  published-Outcome id tenant now text st s r (err e, s') good h =
      unavailable r e good (ap (λ p. p.0) h) refl (refl, sym (ap (λ p. p.1) h))
  published-Outcome id tenant now text st s r (ok entry, s') good h =
      taken r entry good (ap (λ p. p.0) h) (
        ap
          (λ (t : queue.State). (
            write_json 202 id (accepted_body id "PENDING"),
            record st { accepted = st.accepted + 1 },
            t,
          ))
          (sym (ap (λ p. p.1) h)))

  failure_status_lem : (code : String) → (failure_status code ≡ 400) ⊎ (failure_status code ≡ 413)
  failure_status_lem code = elim (Bool-cases (same code "payload_too_large")) [
    | inl e ↦ rw e (inr refl)
    | inr e ↦ rw e (inl refl)
  ]

  validated-Outcome :
      (id : String) (key : Option ApiKey) (now : Time) (text : json.Text) (st : Stats)
      (s : queue.State) (i : RideRequestInput F) (v : Fault ⊎ (F × F))
      → json.decode c.max_body_bytes text ≡ inr i
      → json.at_end text ≡ true
      → validate fl json i ≡ v
      → Outcome id (tenant_of c key) now text st s (validated fl json queue c id key now i v st s)
  unfolding validated turn_down ride_request
  validated-Outcome id key now text st s i (inl (field, message)) sent alone h =
      turned_down 400 "invalid_argument" message field (inl refl) refl
  validated-Outcome id key now text st s i (inr place) sent alone h =
      let (named, short, pickup, on_globe) = validate_ok fl json i place h in
      published-Outcome id (tenant_of c key) now text st s _ _
        (record {
          input = i;
          sent = sent;
          alone = alone;
          rider = refl;
          rider_named = named;
          rider_short = short;
          pickup = pickup;
          place = on_globe;
          own_id = refl;
          own_tenant = refl;
          first_attempt = (refl, refl);
        })
        refl

  decoded-Outcome :
      (id : String) (key : Option ApiKey) (now : Time) (text : json.Text) (st : Stats)
      (s : queue.State) (at_end : Bool) (d : DecodeError ⊎ RideRequestInput F)
      → json.at_end text ≡ at_end
      → json.decode c.max_body_bytes text ≡ d
      → Outcome id
          (tenant_of c key)
          now
          text
          st
          s
          (decoded fl json queue c id key now at_end d st s)
  unfolding decoded turn_down
  decoded-Outcome id key now text st s at_end (inl e) alone sent =
      turned_down _ _ _ _
        (failure_status_lem (describe_decode_error json.quote c.max_body_bytes e).0) refl
  decoded-Outcome id key now text st s false (inr i) alone sent =
      turned_down 400 _ _ _ (inl refl) refl
  decoded-Outcome id key now text st s true (inr i) alone sent =
      validated-Outcome id key now text st s i (validate fl json i) sent alone refl

  -- Every call of the handler has one of the outcomes.
  handle-Outcome :
      (id : String) (key : Option ApiKey) (now : Time) (text : json.Text) (st : Stats)
      (s : queue.State)
      → Outcome id
          (tenant_of c key)
          now
          text
          st
          s
          (handle_create_ride_request fl json queue c id key now text st s)
  unfolding handle_create_ride_request
  handle-Outcome id key now text st s = decoded-Outcome id key now text st s _ _ refl refl

  module _ (hash_secret : String → String) (keys : Store) (route : String → String → Route)
      (d : Depths fl json queue c) where
    -- A call is refused before any handler, and changes neither the counters nor the queue; or it has
    -- an outcome under the tenant of the granted key that it presents.
    pub data Guarded (call : Call json.Text) (st : Stats) (s : queue.State) (ks : keys.State)
        (out : Answered fl json queue c hash_secret keys route d) : Type 0 where
      refused :
          IsRefusal hash_secret keys out.0.status
          → out.1 ≡ st
          → out.2 ≡ s
          → Guarded call st s ks out
      admitted :
          (k : ApiKey)
          → IsGranted hash_secret keys (presented_key call.request.headers) call.now ks k
          → Outcome
              (call_id fl json queue c hash_secret keys route d call)
              k.tenant_id
              call.now
              call.text
              st
              s
              (out.0, out.1, out.2)
          → Guarded call st s ks out

    authenticated-Guarded :
        (call : Call json.Text) (st : Stats) (s : queue.State) (ks : keys.State)
        (p : Decision × keys.State)
        → route call.method call.request.path ≡ create_ride_request
        → Meaning hash_secret keys (presented_key call.request.headers) call.now ks p.0
        → Guarded call st s ks (
            authenticated fl json queue c hash_secret keys route d call
              (call_id fl json queue c hash_secret keys route d call)
              p
              st
              s)
    unfolding authenticated handle write_error tenant_of
    authenticated-Guarded call st s ks (refuse status headers code message, ks') e m =
        refused m refl refl
    authenticated-Guarded call st s ks (serve key, ks') e (k, granted, same_key) =
        rw (e, same_key) (admitted k granted (handle-Outcome _ (some k) call.now call.text st s))

    -- On a server with a key store, whose router sends a call to `handleCreateRideRequest`: the call is
    -- refused with 401, 429 or 503, and neither a counter nor the queue changes; or its key is
    -- granted, one counter counts it, and it is turned down, or published as the one valid request
    -- that its body holds, under the tenant of that key. The response is 202 exactly if the publish
    -- succeeds.
    pub serve_http-Guarded :
        (call : Call json.Text) (st : Stats) (s : queue.State) (ks : keys.State)
        → route call.method call.request.path ≡ create_ride_request
        → any_same call.request.path ("/healthz" ∷ "/readyz" ∷ []) ≡ false
        → Guarded call st s ks (serve_http fl json queue c hash_secret keys route d call st s ks)
    unfolding serve_http
    serve_http-Guarded call st s ks e guarded = authenticated-Guarded call st s ks _ e (
        middleware-Meaning hash_secret keys ("/healthz" ∷ "/readyz" ∷ []) call.request call.now ks
          guarded)
