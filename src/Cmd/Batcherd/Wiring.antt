-- ===== src/Cmd/Batcherd/Wiring.antt =====
-- The start of the batcher service: infrastructure/cmd/batcherd/main.go, from the set-up of the queue
-- to the batcher. What Redis answers to the ping, and what the engine's client and its last probe come
-- to, are parameters.
use ride_matching_engine.Common.{◌≡◌, refl, String, Option, none, some, [], ◌∷◌, pos, ◌⊎◌, inl, inr}
use ride_matching_engine.Errors.{Error, Fallible, ok, err}
use ride_matching_engine.Floats.{Floats}
use ride_matching_engine.Time.{Time, Duration}
use ride_matching_engine.Engine.Connection.{dial}
use ride_matching_engine.Queue.Stream.{StreamOptions}
use ride_matching_engine.Queue.Stream.Gauges.{Lengths, default_stream_options, new_redis_stream}
use ride_matching_engine.Locations.Redis.{Options, default_options, new_redis}
use ride_matching_engine.Batcher.Config.{Config}
use ride_matching_engine.Cmd.Batcherd.{Flags, Probe, launch}

-- What the set-up meets: the ping of the driver store, the error of grpc.NewClient, and the last
-- probe.
pub record Dependencies : Type 0 where
  pub store_ping : Option Error
  pub engine_addr : String
  pub client : Option Error
  pub last_probe : Probe

-- The options of the queue and of the driver store, under the tenant of the flags.
pub queue_options : String → String → Time → StreamOptions
queue_options tenant name now = record (default_stream_options now) {
  tenant_id = tenant;
  consumer = name;
}

unfoldable pub store_options : String → Options
store_options tenant = record default_options { tenant_id = tenant }

module _ (fl : Floats) where
  open fl use {F}

  abbrev pub Started : Type 0
  Started = Error ⊎ Config F

  unfoldable pub behind_dial : Flags F → Probe → Fallible Duration → Started
  behind_dial f p (err e) = inl e
  behind_dial f p (ok timeout) = launch fl f p

  unfoldable pub behind_ping : Flags F → Dependencies → Option Error → Started
  behind_ping f d (some e) = inl e
  behind_ping f d none =
      behind_dial f d.last_probe (dial d.engine_addr d.client (pos 10000000000 ∷ []))

  unfoldable pub behind_store : Flags F → Dependencies → Fallible Options → Started
  behind_store f d (err e) = inl e
  behind_store f d (ok o) = behind_ping f d d.store_ping

  unfoldable pub behind_queue : Flags F → String → Dependencies → Option Error → Started
  behind_queue f tenant d (some e) = inl e
  behind_queue f tenant d none = behind_store f d (new_redis (store_options tenant))

  -- `main` up to the batcher.
  unfoldable pub start :
      (redis : Lengths)
      → Flags F
      → String
      → String
      → Time
      → Dependencies
      → redis.Server
      → Started × redis.Server
  start redis f tenant name now d s =
      let (e, s') = new_redis_stream redis (queue_options tenant name now) s in
      (behind_queue f tenant d e, s')

  behind_dial_lem :
      (f : Flags F) (p : Probe) (addr : String) (e : Option Error) (c : Config F)
      → behind_dial f p (dial addr e (pos 10000000000 ∷ [])) ≡ inr c
      → (e ≡ none) × (launch fl f p ≡ inr c)
  unfolding behind_dial dial
  behind_dial_lem f p addr (some e) c h = cc
  behind_dial_lem f p addr none c h = (refl, h)

  behind_ping_lem :
      (f : Flags F) (d : Dependencies) (e : Option Error) (c : Config F)
      → behind_ping f d e ≡ inr c
      → (e ≡ none) × (d.client ≡ none) × (launch fl f d.last_probe ≡ inr c)
  unfolding behind_ping
  behind_ping_lem f d (some e) c h = cc
  behind_ping_lem f d none c h =
      let (a, b) = behind_dial_lem f d.last_probe d.engine_addr d.client c h in (refl, a, b)

  behind_store_lem :
      (f : Flags F) (d : Dependencies) (r : Fallible Options) (c : Config F)
      → behind_store f d r ≡ inr c
      → (d.store_ping ≡ none) × (d.client ≡ none) × (launch fl f d.last_probe ≡ inr c)
  unfolding behind_store
  behind_store_lem f d (err e) c h = cc
  behind_store_lem f d (ok o) c h = behind_ping_lem f d d.store_ping c h

  behind_queue_lem :
      (f : Flags F) (tenant : String) (d : Dependencies) (e : Option Error) (c : Config F)
      → behind_queue f tenant d e ≡ inr c
      → (e ≡ none) × (d.store_ping ≡ none) × (d.client ≡ none) × (launch fl f d.last_probe ≡ inr c)
  unfolding behind_queue
  behind_queue_lem f tenant d (some e) c h = cc
  behind_queue_lem f tenant d none c h =
      let (a, b, e) = behind_store_lem f d (new_redis (store_options tenant)) c h in (refl, a, b, e)

  -- A batcher that starts has a queue that was set up, a driver store that answered its ping, a client
  -- of the engine, and the configuration that `launch` made of the last probe, whether or not the
  -- engine answered it.
  start_lem :
      (redis : Lengths) (f : Flags F) (tenant name : String) (now : Time) (d : Dependencies)
      (s : redis.Server) (c : Config F)
      → (start redis f tenant name now d s).0 ≡ inr c
      → ((new_redis_stream redis (queue_options tenant name now) s).0 ≡ none)
        × (d.store_ping ≡ none)
        × (d.client ≡ none)
        × (launch fl f d.last_probe ≡ inr c)
  unfolding start
  start_lem redis f tenant name now d s c h = behind_queue_lem f tenant d _ c h
