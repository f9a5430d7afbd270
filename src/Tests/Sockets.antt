-- ===== src/Tests/Sockets.antt =====
-- A WebSocket server with room for one connection, and the theorems on it after a few steps.
use ride_matching_engine.Common.{
  ℕ, ◌+◌, ◌≤◌, ◌≡◌, refl, true, false, String, ◌<>◌, none, some, [], ◌∷◌, ℤ, pos, inr, All, same,
}
use ride_matching_engine.Common.Chars.{byte_length, byte_width}
use ride_matching_engine.Pipeline.{Pipeline, accept, location, look_up, put, buf_key}
use ride_matching_engine.Ingest.{Config, default_config, Sink, validate, Frame, message}
use ride_matching_engine.Ingest.Server.{
  Routine, arrived, admitted, go, waiting, System, fresh, arrive, turn, shut, Reach, here,
  then_step, advance, admit, reserve, read_frame, accept_valid, verified, upgraded, frame,
  authenticating, upgrading, starting, serving, leaving, running,
}
use ride_matching_engine.Ingest.Server.Accounts.{total}
use ride_matching_engine.Ingest.Server.Invariant.{Inv, Reach-Inv}
use ride_matching_engine.Ingest.Server.Shutdown.{work, moved, arrivals, GoesOn, shutdown_drains}
use ride_matching_engine.Ingest.Server.Stamped.{Runs, begin, next, Genuine}
use ride_matching_engine.Ingest.Server.OnPipeline.{pipeline_sink, IsSound, Runs-IsSound}
use ride_matching_engine.Tests.Windows
use ride_matching_engine.Tests.Windows.{idle}
use ride_matching_engine.Tests.Numbers.{whole}

abbrev sink : Sink ℤ
sink = record { State = ℕ; accept = λ p n. (none, n + 1) }

abbrev show : ℤ → ℤ → String
show a b = ""

abbrev config : Config
config = record default_config { max_connections = pos 1 }

-- Two requests come, both are admitted, one gets the slot, and `Shutdown` is called.
abbrev busy : System ℕ
busy = record {
  server = record {
    active_conns = 1;
    total_conns = 0;
    rejected = 0;
    pings = 0;
    pings_bad = 0;
    tokens = 2;
    closed = true;
    sink = 0;
  };
  routines = Routine.authenticating ∷ admitted ∷ [];
  stopping = waiting;
}

busy_reached : Reach whole sink show config (fresh 0) busy
unfolding advance admit reserve
busy_reached =
    then_step
      (then_step
        (then_step
          (then_step (then_step (then_step here arrive) arrive) (turn [] arrived (arrived ∷ []) go))
          (turn (admitted ∷ []) arrived [] go))
        (turn [] admitted (admitted ∷ []) go))
      shut

Reach-Inv_example : Inv 1 busy
Reach-Inv_example = Reach-Inv whole sink show 1 config 0 busy refl busy_reached

-- A third request comes while `Shutdown` waits, and the first connection is authenticated.
abbrev busier : System ℕ
busier = record busy { routines = arrived ∷ upgrading "fleet" ∷ admitted ∷ [] }

busier_run : Reach whole sink show config busy busier
unfolding advance
busier_run =
    then_step (then_step here (turn [] authenticating (admitted ∷ []) (verified (inr "fleet"))))
      arrive

shutdown_drains_example :
    (total work busier.routines + moved whole sink show config busier_run
      ≤ total work busy.routines + arrivals whole sink show config busier_run)
    × GoesOn whole sink show config busier
shutdown_drains_example =
    shutdown_drains whole sink show config 1 0 busy busier busier_run refl busy_reached refl refl

-- The pipeline as the sink, and a connection of the tenant "fleet" that is authenticated.
abbrev buffered : Sink ℤ
buffered = pipeline_sink whole show Windows.config (λ s. pos 7)

abbrev OnlyFleet : String → Type 0
OnlyFleet t = t ≡ "fleet"

abbrev a_ping : Frame ℤ
a_ping =
    message (some (record { tenant_id = "rival"; driver_id = "D-1"; lat = pos 12; lng = pos 77 }))

abbrev streaming : System (Pipeline ℤ)
streaming = record {
  server = record {
    active_conns = 1;
    total_conns = 1;
    rejected = 0;
    pings = 1;
    pings_bad = 0;
    tokens = 2;
    closed = false;
    sink = record idle {
      buffer =
          (
            "fleet\0D-1",
            record {
              tenant_id = "fleet";
              driver_id = "D-1";
              lat = pos 12;
              lng = pos 77;
              distance_meters = pos 0;
              last_seen = pos 7;
            },
          )
          ∷ [];
      pings = 1;
    };
  };
  routines = leaving ∷ serving "fleet" ∷ [];
  stopping = running;
}

streaming_run : Runs whole buffered show config OnlyFleet idle streaming
unfolding advance admit reserve read_frame accept_valid validate byte_length byte_width same accept
    location look_up put buf_key ◌<>◌ Genuine
streaming_run =
    next
      (next
        (next
          (next
            (next (next (next begin arrive tt) (turn [] arrived [] go) tt) (turn [] admitted [] go)
              tt)
            (turn [] authenticating [] (verified (inr "fleet"))) refl)
          (turn [] (upgrading "fleet") [] (upgraded true)) tt)
        (turn [] (starting "fleet") [] go) tt)
      (turn (leaving ∷ []) (serving "fleet") [] (frame a_ping)) tt

Runs-IsSound_example :
    All (IsSound whole show Windows.config (λ s. pos 7) OnlyFleet) streaming.server.sink.buffer
Runs-IsSound_example =
    Runs-IsSound whole show Windows.config (λ s. pos 7) OnlyFleet config idle streaming
      streaming_run refl
