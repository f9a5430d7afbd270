-- ===== src/Cmd/Requestd.antt =====
-- The rider-facing service: infrastructure/cmd/requestd/main.go, from its flags to the handler that it
-- mounts. What Redis answers to the two pings is a parameter.
use ride_matching_engine.Common.{
  ℕ, ◌≡◌, refl, Bool, true, false, String, Option, none, some, [], ◌∷◌, ◌⊎◌, inl, inr, arith,
}
use ride_matching_engine.Errors.{Error, Fallible, ok, err}
use ride_matching_engine.Floats.{Floats}
use ride_matching_engine.Time.{Time}
use ride_matching_engine.Queue.{Queue}
use ride_matching_engine.Queue.Stream.{StreamOptions}
use ride_matching_engine.Queue.Stream.Gauges.{Lengths, default_stream_options, new_redis_stream}
use ride_matching_engine.Auth.{Store}
use ride_matching_engine.Auth.Middleware.{any_same}
use ride_matching_engine.AuthSetup.{Keying, guarded, anonymous, open_store, reached}
use ride_matching_engine.Api.{Config, Stats, Json, default_config, apply_defaults}
use ride_matching_engine.Api.Handlers.{
  Route, create_ride_request, Call, Depths, handle, Answered, call_id, serve_http,
}
use ride_matching_engine.Api.Laws.{Guarded, serve_http-Guarded}

pub record Flags : Type 0 where
  pub redis_addr : String
  pub tenant : String
  pub max_len : ℕ
  pub allow_anonymous : Bool

-- What the server answers to the pings of the queue and of the key store.
pub record Pings : Type 0 where
  pub queue_ping : Option Error
  pub keys_ping : Option Error

-- The options of the queue.
unfoldable pub queue_options : Flags → Time → StreamOptions
queue_options f now = record (default_stream_options now) {
  tenant_id = f.tenant;
  max_len = f.max_len;
  consumer = "requestd-producer";
}

-- `api.NewServer` of the configuration.
unfoldable pub server_config : Flags → Config
server_config f = apply_defaults (record default_config { tenant_id = f.tenant })

-- A process that has exited with an error, or one that serves.
abbrev pub Started : Type 0
Started = Error ⊎ (Config × Keying)

unfoldable pub keyed : Flags → Fallible Keying → Started
keyed f (err e) = inl e
keyed f (ok k) = inr (server_config f, k)

unfoldable pub behind_ping : Flags → Pings → Option Error → Started
behind_ping f p (some e) = inl e
behind_ping f p none = keyed f (open_store f.allow_anonymous f.redis_addr none p.keys_ping)

unfoldable pub behind_stream : Flags → Pings → Option Error → Started
behind_stream f p (some e) = inl e
behind_stream f p none = behind_ping f p p.queue_ping

-- `main` up to the listener: the queue is set up and pinged, and then the key store.
unfoldable pub start :
    (redis : Lengths) → Flags → Time → Pings → redis.Server → Started × redis.Server
start redis f now p s =
    let (e, s') = new_redis_stream redis (queue_options f now) s in (behind_stream f p e, s')

module _ (fl : Floats) (json : Json fl.F) (queue : Queue fl.F) (hash_secret : String → String)
    (keys : Store) (route : String → String → Route) (c : Config) (d : Depths fl json queue c) where
  -- `srv.Routes()`: with no key store the handlers stand behind no authentication.
  unfoldable pub answer :
      Keying
      → Call json.Text
      → Stats
      → queue.State
      → keys.State
      → Answered fl json queue c hash_secret keys route d
  answer guarded call st s ks = serve_http fl json queue c hash_secret keys route d call st s ks
  answer anonymous call st s ks =
      let (r, st', s') =
        handle fl json queue c d call (call_id fl json queue c hash_secret keys route d call) none
          (route call.method call.request.path) st s in
      (r, st', s', ks)

opened_guarded :
    (f : Flags) (anyone : Bool) (r : Option Error) (c : Config) (k : Keying)
    → anyone ≡ false
    → keyed f (open_store anyone f.redis_addr none r) ≡ inr (c, k)
    → (r ≡ none) × (k ≡ guarded) × (c ≡ server_config f)
unfolding keyed open_store reached
opened_guarded f true r c k on h = cc
opened_guarded f false (some e) c k on h = cc
opened_guarded f false none c k on h = (refl, ground (arith, h), ground (arith, h))

behind_ping_lem :
    (f : Flags) (p : Pings) (c : Config) (k : Keying) (q : Option Error)
    → f.allow_anonymous ≡ false
    → behind_ping f p q ≡ inr (c, k)
    → (q ≡ none) × (p.keys_ping ≡ none) × (k ≡ guarded) × (c ≡ server_config f)
unfolding behind_ping
behind_ping_lem f p c k (some e) on h = cc
behind_ping_lem f p c k none on h =
    let (a, b, d) = opened_guarded f f.allow_anonymous p.keys_ping c k on h in (refl, a, b, d)

behind_stream_lem :
    (f : Flags) (p : Pings) (c : Config) (k : Keying) (q : Option Error)
    → f.allow_anonymous ≡ false
    → behind_stream f p q ≡ inr (c, k)
    → (q ≡ none)
      × (p.queue_ping ≡ none)
      × (p.keys_ping ≡ none)
      × (k ≡ guarded)
      × (c ≡ server_config f)
unfolding behind_stream
behind_stream_lem f p c k (some e) on h = cc
behind_stream_lem f p c k none on h =
    let (a, b, d, e) = behind_ping_lem f p c k p.queue_ping on h in (refl, a, b, d, e)

-- Fail closed. A process that is started without `--allow-anonymous` serves only if its queue was set
-- up and both pings succeeded, and then under the configured tenant; and each ride request that it
-- answers is refused without effect, or has one of the three outcomes under the tenant of a granted
-- key.
pub start-Guarded :
    (redis : Lengths) (f : Flags) (now : Time) (p : Pings) (rs : redis.Server) (c : Config)
    (k : Keying) (fl : Floats) (json : Json fl.F) (queue : Queue fl.F)
    (hash_secret : String → String) (keys : Store) (route : String → String → Route)
    (d : Depths fl json queue c) (call : Call json.Text) (st : Stats) (s : queue.State)
    (ks : keys.State)
    → f.allow_anonymous ≡ false
    → (start redis f now p rs).0 ≡ inr (c, k)
    → route call.method call.request.path ≡ create_ride_request
    → any_same call.request.path ("/healthz" ∷ "/readyz" ∷ []) ≡ false
    → ((new_redis_stream redis (queue_options f now) rs).0 ≡ none)
      × (p.queue_ping ≡ none)
      × (p.keys_ping ≡ none)
      × (c ≡ server_config f)
      × Guarded fl json queue c hash_secret keys route d call st s ks
          (answer fl json queue hash_secret keys route c d k call st s ks)
unfolding start answer
start-Guarded redis f now p rs c k fl json queue hash_secret keys route d call st s ks on ran routed
      behind =
    let (set_up, queue_up, keys_up, closed, own) = behind_stream_lem f p c k _ on ran in
    (
      set_up,
      queue_up,
      keys_up,
      own,
      rw closed
          (serve_http-Guarded fl json queue c hash_secret keys route d call st s ks routed behind),
    )
