-- ===== src/Ingest/Server/Shutdown.antt =====
-- How the WebSocket server drains once it is closed.
use ride_matching_engine.Common.{
  ℕ, ◌+◌, ◌≤◌, ◌≡◌, refl, Bool, true, false, Option, none, some, List, [], ◌∷◌, ◌++◌, ◌⊎◌, inl, inr,
  String, pos, Bool-cases, arith,
}
use ride_matching_engine.Common.Int.{ltb_ℤ}
use ride_matching_engine.Errors.{Error}
use ride_matching_engine.Floats.{Floats}
use ride_matching_engine.Pipeline.{Ping}
use ride_matching_engine.Ingest.{Config, Sink, Frame, message, other_frame, validate}
use ride_matching_engine.Ingest.Server.{
  Server, Routine, arrived, admitted, turned_away, counting, authenticating, upgrading, starting,
  serving, releasing, leaving, Event, go, verified, upgraded, frame, pumps_done, accept_valid,
  read_frame, admit, reserve, advance, Stopping, running, timed_out, waiting, stopped, System,
  fresh, Step, arrive, turn, shut, drained, expired, Reach, here, then_step,
}
use ride_matching_engine.Ingest.Server.Accounts.{total, total-append}
use ride_matching_engine.Ingest.Server.Invariant.{Inv, Reach-Inv, run-Inv}

-- How many moves a routine of a closed server makes at most, with those of the routines that it
-- starts. A request that arrives makes one, since it is turned away at once.
abbrev pub work : Routine → ℕ
work arrived = 1
work leaving = 1
work counting = 2
work releasing = 2
work turned_away = 3
work (serving t) = 3
work (starting t) = 5
work (upgrading t) = 6
work authenticating = 7
work admitted = 8

abbrev pub one_if : Bool → ℕ
one_if true = 1
one_if false = 0

-- Whether the event is the one that a routine waits for, if it waits for one: the authentication's
-- decision, the outcome of the upgrade, the end of the connection's pumps.
abbrev is_verified : {F : Type 0} → Event F → Bool
is_verified (verified a) = true
is_verified go = false
is_verified (upgraded b) = false
is_verified (frame f) = false
is_verified pumps_done = false

abbrev is_upgraded : {F : Type 0} → Event F → Bool
is_upgraded (upgraded b) = true
is_upgraded go = false
is_upgraded (verified a) = false
is_upgraded (frame f) = false
is_upgraded pumps_done = false

abbrev is_done : {F : Type 0} → Event F → Bool
is_done pumps_done = true
is_done go = false
is_done (verified a) = false
is_done (upgraded b) = false
is_done (frame f) = false

abbrev pub moves : {F : Type 0} → Routine → Event F → Bool
moves authenticating e = is_verified e
moves (upgrading t) e = is_upgraded e
moves (serving t) e = is_done e
moves arrived e = true
moves admitted e = true
moves turned_away e = true
moves counting e = true
moves (starting t) e = true
moves releasing e = true
moves leaving e = true

-- An event that a routine waits for.
awaited : {F : Type 0} (r : Routine) → (e : Event F) × (moves r e ≡ true)
awaited authenticating = (verified (inl 401), refl)
awaited (upgrading t) = (upgraded true, refl)
awaited (serving t) = (pumps_done, refl)
awaited arrived = (go, refl)
awaited admitted = (go, refl)
awaited turned_away = (go, refl)
awaited counting = (go, refl)
awaited (starting t) = (go, refl)
awaited releasing = (go, refl)
awaited leaving = (go, refl)

module _ (fl : Floats) (sink : Sink fl.F) (show : fl.F → fl.F → String) (c : Config) where
  open fl use {F}
  open sink use {State}

  -- The moves and the arrivals of a run.
  abbrev pub moves_of : {x y : System State} → Step fl sink show c x y → ℕ
  moves_of arrive = 0
  moves_of (turn before r after e) = one_if (moves r e)
  moves_of shut = 0
  moves_of (drained h) = 0
  moves_of expired = 0

  abbrev pub arrivals_of : {x y : System State} → Step fl sink show c x y → ℕ
  arrivals_of arrive = 1
  arrivals_of (turn before r after e) = 0
  arrivals_of shut = 0
  arrivals_of (drained h) = 0
  arrivals_of expired = 0

  abbrev pub moved : {x y : System State} → Reach fl sink show c x y → ℕ
  moved here = 0
  moved (then_step run st) = moved run + moves_of st

  abbrev pub arrivals : {x y : System State} → Reach fl sink show c x y → ℕ
  arrivals here = 0
  arrivals (then_step run st) = arrivals run + arrivals_of st

  accept_valid-closed :
      (t : String) (p : Ping F) (e : Option Error) (s : Server State)
      → (accept_valid fl sink show t p e s).closed ≡ s.closed
  unfolding accept_valid
  accept_valid-closed t p (some e) s = refl
  accept_valid-closed t p none s = refl

  read_frame-closed :
      (t : String) (f : Frame F) (s : Server State)
      → (read_frame fl sink show t f s).closed ≡ s.closed
  unfolding read_frame
  read_frame-closed t (message none) s = refl
  read_frame-closed t (message (some p)) s = accept_valid-closed t p (validate fl show p) s
  read_frame-closed t other_frame s = refl

  -- What a step of a routine does to a closed server: it stays closed, and the work gets less by one
  -- if the routine moves.
  abbrev Works : Routine → Event F → Server State × List Routine → Type 0
  Works r e (s, rs) = (s.closed ≡ true) × (total work rs + one_if (moves r e) ≤ work r)

  advance-Works :
      (e : Event F) (r : Routine) (s : Server State)
      → s.closed ≡ true
      → Works r e (advance fl sink show c e r s)
  unfolding advance admit reserve
  advance-Works e arrived s off = rw off (refl, omega arith)
  advance-Works e admitted s off =
      elim (Bool-cases (ltb_ℤ c.max_connections (pos (s.active_conns + 1)))) [
        | inl h ↦ rw h (off, omega arith)
        | inr h ↦ rw h (off, omega arith)
      ]
  advance-Works e turned_away s off = (off, omega arith)
  advance-Works e counting s off = (off, omega arith)
  advance-Works go authenticating s off = (off, omega arith)
  advance-Works (verified (inl status)) authenticating s off = (off, omega arith)
  advance-Works (verified (inr t)) authenticating s off = (off, omega arith)
  advance-Works (upgraded b) authenticating s off = (off, omega arith)
  advance-Works (frame f) authenticating s off = (off, omega arith)
  advance-Works pumps_done authenticating s off = (off, omega arith)
  advance-Works go (upgrading t) s off = (off, omega arith)
  advance-Works (verified a) (upgrading t) s off = (off, omega arith)
  advance-Works (upgraded true) (upgrading t) s off = (off, omega arith)
  advance-Works (upgraded false) (upgrading t) s off = (off, omega arith)
  advance-Works (frame f) (upgrading t) s off = (off, omega arith)
  advance-Works pumps_done (upgrading t) s off = (off, omega arith)
  advance-Works e (starting t) s off = (off, omega arith)
  advance-Works go (serving t) s off = (off, omega arith)
  advance-Works (verified a) (serving t) s off = (off, omega arith)
  advance-Works (upgraded b) (serving t) s off = (off, omega arith)
  advance-Works (frame f) (serving t) s off = (rw (read_frame-closed t f s) off, omega arith)
  advance-Works pumps_done (serving t) s off = (off, omega arith)
  advance-Works e releasing s off = (off, omega arith)
  advance-Works e leaving s off = (off, omega arith)

  step_works :
      (x y : System State) (st : Step fl sink show c x y)
      → x.server.closed ≡ true
      → (y.server.closed ≡ true)
        × (total work y.routines + moves_of st ≤ total work x.routines + arrivals_of st)
  step_works x y arrive off = (off, omega arith)
  step_works x y (turn {s = s} before r after e) off =
      let out = advance fl sink show c e r s in
      let (k, h) = advance-Works e r s off in
      (
        k,
        omega (
          arith,
          h,
          total-append work before (r ∷ after),
          total-append work before (out.1 ++ after),
          total-append work out.1 after,
        ),
      )
  step_works x y shut off = (refl, omega arith)
  step_works x y (drained h) off = (off, omega arith)
  step_works x y expired off = (off, omega arith)

  run_works :
      (x y : System State) (run : Reach fl sink show c x y)
      → x.server.closed ≡ true
      → (y.server.closed ≡ true)
        × (total work y.routines + moved run ≤ total work x.routines + arrivals run)
  run_works x y here off = (off, omega arith)
  run_works x z (then_step {y = y} run st) off =
      let (k, h) = run_works x y run off in
      let (l, i) = step_works y z st k in (l, omega (arith, h, i))

  -- A routine that can move, or the end.
  abbrev pub GoesOn : System State → Type 0
  GoesOn y =
      ((r : Routine) × (rest : List Routine) × (e : Event F) × ((y.routines ≡ r ∷ rest)
          × (moves r e ≡ true)))
      ⊎ ((y.routines ≡ [])
          × (y.server.active_conns ≡ 0)
          × (y.server.tokens ≡ 0)
          × Step fl sink show c y (record y { stopping = stopped }))

  goes_on : (n : ℕ) (y : System State) → Inv n y → y.stopping ≡ waiting → GoesOn y
  goes_on n y i e = go_on y.server y.routines y.stopping e i
    where
      go_on :
          (s : Server State) (rs : List Routine) (w : Stopping)
          → w ≡ waiting
          → Inv n (record { server = s; routines = rs; stopping = w })
          → GoesOn (record { server = s; routines = rs; stopping = w })
      go_on s (r ∷ rs) w e i = let (ev, h) = awaited r in inl (r, rs, ev, (refl, h))
      go_on s [] waiting e i = inr (refl, i.slots_count, i.tokens_count, drained i.tokens_count)
      go_on s [] running e i = cc
      go_on s [] stopped e i = cc
      go_on s [] timed_out e i = cc

  closed_while_waiting :
      (n : ℕ) (x : System State) → Inv n x → x.stopping ≡ waiting → x.server.closed ≡ true
  closed_while_waiting n x i e = closed_at x.server x.routines x.stopping e i
    where
      closed_at :
          (s : Server State) (rs : List Routine) (w : Stopping)
          → w ≡ waiting
          → Inv n (record { server = s; routines = rs; stopping = w })
          → s.closed ≡ true
      closed_at s rs waiting e i = i.stops
      closed_at s rs running e i = cc
      closed_at s rs stopped e i = cc
      closed_at s rs timed_out e i = cc

  -- Where `MaxConnections` is not negative: take a state that the server reaches, in which a
  -- `Shutdown` waits, and any run on from there, in whatever interleaving, until which it waits still.
  -- A move is a step of a routine that does not wait, or is told what it waits for. The moves of the
  -- run, and the work of the routines that are left behind it, are together at most the work of those
  -- in front of it and one for each request that arrived meanwhile. And behind the run either a
  -- routine is left, which can move, or none is, and no slot and no token, and `Shutdown` can return
  -- without an error.
  pub shutdown_drains :
      (n : ℕ) (s : State) (x y : System State) (run : Reach fl sink show c x y)
      → c.max_connections ≡ pos n
      → Reach fl sink show c (fresh s) x
      → x.stopping ≡ waiting
      → y.stopping ≡ waiting
      → (total work y.routines + moved run ≤ total work x.routines + arrivals run) × GoesOn y
  shutdown_drains n s x y run m r w w' =
      let i = Reach-Inv fl sink show n c s x m r in
      (
        (run_works x y run (closed_while_waiting n x i w)).1,
        goes_on n y (run-Inv fl sink show n c m run i) w',
      )
