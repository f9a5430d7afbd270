-- ===== src/Ingest/Server.antt =====
-- The handlers, the connections and the shutdown of the WebSocket server, as routines that take turns:
-- infrastructure/internal/ingest/server.go.
use ride_matching_engine.Common.{
  ℕ, zero, suc, ◌+◌, ◌-◌, ◌≡◌, Bool, true, false, String, Option, none, some, List, [], ◌∷◌, ◌++◌,
  ◌⊎◌, inl, inr, ℤ, pos, if◌then◌else◌,
}
use ride_matching_engine.Common.Int.{ltb_ℤ}
use ride_matching_engine.Errors.{Error}
use ride_matching_engine.Floats.{Floats}
use ride_matching_engine.Pipeline.{Ping}
use ride_matching_engine.Ingest.{Config, Admission, Sink, validate, Frame, message, other_frame}
pub mod Accounts
mod Steps
pub mod Invariant
pub mod Stamped
pub mod OnPipeline
pub mod Shutdown

-- `Server`: its counters, the count of its wait group, whether it is closed, and the sink's state.
pub record Server (S : Type 0) : Type 0 where
  pub active_conns : ℕ
  pub total_conns : ℕ
  pub rejected : ℕ
  pub pings : ℕ
  pub pings_bad : ℕ
  pub tokens : ℕ
  pub closed : Bool
  pub sink : S

abbrev pub new_server : {S : Type 0} → S → Server S
new_server s = record {
  active_conns = 0;
  total_conns = 0;
  rejected = 0;
  pings = 0;
  pings_bad = 0;
  tokens = 0;
  closed = false;
  sink = s;
}

-- Where a handler stands, or the goroutine of a connection: before `admit`, and before the slot is
-- reserved; before it gives up a slot beyond the limit, or of a handshake that is refused, and before
-- it counts that; before the authentication, the upgrade, and the start of the connection's goroutine;
-- in the pumps; and before it gives up its slot, and its token.
pub data Routine : Type 0 where
  arrived admitted turned_away counting authenticating : Routine
  upgrading starting serving : String → Routine
  releasing leaving : Routine

-- What a routine waits for, if anything: what the authentication decides, whether the upgrade
-- succeeds, a frame, or the end of both pumps.
pub data Event (F : Type 0) : Type 0 where
  go : Event F
  verified : Admission → Event F
  upgraded : Bool → Event F
  frame : Frame F → Event F
  pumps_done : Event F

-- Where a call of `Shutdown` stands: not made, waiting, or back with an error or without one.
pub data Stopping : Type 0 where
  running waiting stopped timed_out : Stopping

pub record System (S : Type 0) : Type 0 where
  pub server : Server S
  pub routines : List Routine
  pub stopping : Stopping

abbrev pub fresh : {S : Type 0} → S → System S
fresh s = record { server = new_server s; routines = []; stopping = running }

module _ (fl : Floats) (sink : Sink fl.F) (show : fl.F → fl.F → String) where
  open fl use {F}
  open sink use {State, accept}

  unfoldable pub accept_valid : String → Ping F → Option Error → Server State → Server State
  accept_valid tenant p (some e) s = record s { pings_bad = s.pings_bad + 1 }
  accept_valid tenant p none s = record s {
    pings = s.pings + 1;
    sink = (accept (record p { tenant_id = tenant }) s.sink).1;
  }

  -- The body of the loop of `readPump`: the tenant is stamped on a ping that decodes and is valid.
  unfoldable pub read_frame : String → Frame F → Server State → Server State
  read_frame tenant (message none) s = record s { pings_bad = s.pings_bad + 1 }
  read_frame tenant (message (some p)) s = accept_valid tenant p (validate fl show p) s
  read_frame tenant other_frame s = s

  -- `admit`.
  unfoldable pub admit : Server State → Server State × List Routine
  admit s = if s.closed then (s, []) else (record s { tokens = s.tokens + 1 }, admitted ∷ [])

  -- The slot, reserved before the upgrade.
  unfoldable pub reserve : Config → Server State → Server State × List Routine
  reserve c s =
      if ltb_ℤ c.max_connections (pos (s.active_conns + 1))
      then (record s { active_conns = s.active_conns + 1 }, turned_away ∷ [])
      else (record s { active_conns = s.active_conns + 1 }, authenticating ∷ [])

  -- One step of a routine: `Handler`, and `serve` from its start. A routine that waits for another
  -- event stays where it is.
  unfoldable pub advance : Config → Event F → Routine → Server State → Server State × List Routine
  advance c e arrived s = admit s
  advance c e admitted s = reserve c s
  advance c e turned_away s = (record s { active_conns = s.active_conns - 1 }, counting ∷ [])
  advance c e counting s = (record s { rejected = s.rejected + 1 }, leaving ∷ [])
  advance c (verified (inl status)) authenticating s = (s, turned_away ∷ [])
  advance c (verified (inr tenant)) authenticating s = (s, upgrading tenant ∷ [])
  advance c e authenticating s = (s, authenticating ∷ [])
  advance c (upgraded false) (upgrading t) s = (s, releasing ∷ [])
  advance c (upgraded true) (upgrading t) s =
      (record s { total_conns = s.total_conns + 1 }, starting t ∷ [])
  advance c e (upgrading t) s = (s, upgrading t ∷ [])
  advance c e (starting t) s = (record s { tokens = s.tokens + 1 }, leaving ∷ serving t ∷ [])
  advance c (frame f) (serving t) s = (read_frame t f s, serving t ∷ [])
  advance c pumps_done (serving t) s = (s, releasing ∷ [])
  advance c e (serving t) s = (s, serving t ∷ [])
  advance c e releasing s = (record s { active_conns = s.active_conns - 1 }, leaving ∷ [])
  advance c e leaving s = (record s { tokens = s.tokens - 1 }, [])

  -- The steps of the system: a request comes, one routine advances, and `Shutdown` is called, and
  -- returns when the wait group is empty or its context is done.
  pub data Step (c : Config) : System State → System State → Type 0 where
    arrive :
        {s : Server State} {rs : List Routine} {w : Stopping}
        → Step c
            (record { server = s; routines = rs; stopping = w })
            (record { server = s; routines = arrived ∷ rs; stopping = w })
    turn :
        {s : Server State} {w : Stopping} (before : List Routine) (r : Routine)
        (after : List Routine) (e : Event F)
        → Step c
            (record { server = s; routines = before ++ r ∷ after; stopping = w })
            (record {
              server = (advance c e r s).0;
              routines = before ++ ((advance c e r s).1 ++ after);
              stopping = w;
            })
    shut :
        {s : Server State} {rs : List Routine}
        → Step c
            (record { server = s; routines = rs; stopping = running })
            (record { server = record s { closed = true }; routines = rs; stopping = waiting })
    drained :
        {s : Server State} {rs : List Routine}
        → s.tokens ≡ 0
        → Step c
            (record { server = s; routines = rs; stopping = waiting })
            (record { server = s; routines = rs; stopping = stopped })
    expired :
        {s : Server State} {rs : List Routine}
        → Step c
            (record { server = s; routines = rs; stopping = waiting })
            (record { server = s; routines = rs; stopping = timed_out })

  pub data Reach (c : Config) : System State → System State → Type 0 where
    here : {x : System State} → Reach c x x
    then_step : {x y z : System State} → Reach c x y → Step c y z → Reach c x z
