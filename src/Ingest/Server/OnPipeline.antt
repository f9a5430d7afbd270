-- ===== src/Ingest/Server/OnPipeline.antt =====
-- The WebSocket server on the ingest pipeline, which is its sink: infrastructure/internal/ingest/server.go
-- on infrastructure/internal/pipeline/pipeline.go.
use ride_matching_engine.Common.{
  ◌≡◌, refl, ◌∙◌, String, none, [], ◌∷◌, All, Bool-cases, inl, inr, same, ◌&&◌, not, length, pos,
}
use ride_matching_engine.Common.Int.{leb_ℤ}
use ride_matching_engine.Floats.{Floats}
use ride_matching_engine.Time.{Time}
use ride_matching_engine.Locations.{DriverLocation}
use ride_matching_engine.Pipeline.{
  Ping, Pipeline, Buffer, look_up, is_some, put, buf_key, location, accept,
}
use ride_matching_engine.Pipeline
use ride_matching_engine.Ingest.{Config, Sink, validate}
use ride_matching_engine.Ingest.Server.{System}
use ride_matching_engine.Ingest.Server.Stamped.{Runs, Runs-sink}

module _ (fl : Floats) (show : fl.F → fl.F → String) (pc : Pipeline.Config)
    (clock : Pipeline fl.F → Time) where
  open fl use {F}

  -- `var _ ingest.Sink = (*Pipeline)(nil)`.
  abbrev pub pipeline_sink : Sink F
  pipeline_sink = record { State = Pipeline F; accept = λ p s. (none, accept fl pc (clock s) p s) }

  -- The ping that a buffered location tells of.
  abbrev pub ping_of : DriverLocation F → Ping F
  ping_of l = record { tenant_id = l.tenant_id; driver_id = l.driver_id; lat = l.lat; lng = l.lng }

  module _ (Admitted : String → Type 0) where
    -- A buffered location is of an admitted tenant and of a valid ping.
    abbrev pub IsSound : String × DriverLocation F → Type 0
    IsSound (k, l) = Admitted l.tenant_id × (validate fl show (ping_of l) ≡ none)

    put-IsSound :
        (k : String) (l : DriverLocation F) (b : Buffer F)
        → Admitted l.tenant_id
        → validate fl show (ping_of l) ≡ none
        → All IsSound b
        → All IsSound (put k l b)
    unfolding put
    put-IsSound k l [] a v h = ((a, v), tt)
    put-IsSound k l ((j, m) ∷ b) a v h = elim (Bool-cases (same j k)) [
      | inl e ↦ rw e ((a, v), h.1)
      | inr e ↦ rw e (h.0, put-IsSound k l b a v h.1)
    ]

    stamp-validate :
        (t : String) (p : Ping F)
        → validate fl show (record p { tenant_id = t }) ≡ validate fl show p
    unfolding validate
    stamp-validate t p = refl

    accept-IsSound :
        (now : Time) (p : Ping F) (s : Pipeline F)
        → Admitted p.tenant_id
        → validate fl show p ≡ none
        → All IsSound s.buffer
        → All IsSound (accept fl pc now p s).buffer
    unfolding accept location
    accept-IsSound now p s a v h =
        elim (Bool-cases (
          not (is_some (look_up (buf_key p.tenant_id p.driver_id) s.buffer))
          && leb_ℤ pc.max_buffered_drivers (pos (length s.buffer)))) [
            | inl full ↦ rw full h
            | inr room ↦
                rw room
                  (put-IsSound (buf_key p.tenant_id p.driver_id) (location fl now p) s.buffer a v h)
          ]

    -- Let the pipeline be the sink of the WebSocket server, with nothing buffered at the start, and let
    -- each handshake that is let through be of an admitted tenant. Whatever the order in which requests,
    -- frames and a shutdown come, each location that is buffered is of an admitted tenant, and of a
    -- ping that `validate` accepts.
    pub Runs-IsSound :
        (c : Config) (s : Pipeline F) (x : System (Pipeline F))
        → Runs fl pipeline_sink show c Admitted s x
        → s.buffer ≡ []
        → All IsSound x.server.sink.buffer
    Runs-IsSound c s x r empty =
        Runs-sink fl pipeline_sink show c Admitted (λ t. All IsSound t.buffer)
          (λ t p w a v h.
            accept-IsSound (clock w) (record p { tenant_id = t }) w a (stamp-validate t p ∙ v) h)
          r (rw empty tt)
