-- ===== src/Ingest/Server/Invariant.antt =====
-- The accounts of the WebSocket server, over all that it reaches.
use ride_matching_engine.Common.{
  ℕ, ◌≤◌, ◌≡◌, refl, ◌∙◌, true, String, List, ◌∷◌, ◌++◌, inl, inr, pos, arith,
}
use ride_matching_engine.Floats.{Floats}
use ride_matching_engine.Ingest.{Config, Sink}
use ride_matching_engine.Ingest.Server.{
  Server, Routine, Stopping, running, waiting, stopped, timed_out, System, fresh, Step, arrive,
  turn, shut, drained, expired, Reach, here, then_step,
}
use ride_matching_engine.Ingest.Server.Accounts.{
  tokens_of, slots_of, places_of, total, total-append, total_places, IsFair,
}
use ride_matching_engine.Ingest.Server.Steps.{advance-Fair}

module _ {S : Type 0} where
  -- What `Shutdown` has done where it stands.
  abbrev pub StopsAt : Stopping → Server S → Type 0
  StopsAt running s = Unit
  StopsAt waiting s = s.closed ≡ true
  StopsAt stopped s = (s.closed ≡ true) × (s.tokens ≡ 0)
  StopsAt timed_out s = s.closed ≡ true

  -- The counters are the routines' tokens and slots, the slots within the limit are no more than it,
  -- and a `Shutdown` that has returned without an error has left no token.
  pub record Inv (n : ℕ) (x : System S) : Type 0 where
    pub tokens_count : x.server.tokens ≡ total tokens_of x.routines
    pub slots_count : x.server.active_conns ≡ total slots_of x.routines
    pub limit_kept : total places_of x.routines ≤ n
    pub stops : StopsAt x.stopping x.server

  turn_stops :
      (n : ℕ) (w : Stopping) (r : Routine) (s s' : Server S) (rs : List Routine)
      → IsFair n r s s' rs
      → tokens_of r ≤ s.tokens
      → StopsAt w s
      → StopsAt w s'
  turn_stops n running r s s' rs f h i = tt
  turn_stops n waiting r s s' rs f h i = f.closed_kept ∙ i
  turn_stops n timed_out r s s' rs f h i = f.closed_kept ∙ i
  turn_stops n stopped r s s' rs f h i =
      (f.closed_kept ∙ i.0, omega (arith, f.tokens_kept, f.closed_off i.0, i.1, h))

  turn-Inv :
      (n : ℕ) (w : Stopping) (before : List Routine) (r : Routine) (after : List Routine)
      (s s' : Server S) (rs : List Routine)
      → IsFair n r s s' rs
      → Inv n (record { server = s; routines = before ++ r ∷ after; stopping = w })
      → Inv n (record { server = s'; routines = before ++ (rs ++ after); stopping = w })
  turn-Inv n w before r after s s' rs f i = record {
    tokens_count = omega (
      arith,
      i.tokens_count,
      f.tokens_kept,
      total-append tokens_of before (r ∷ after),
      total-append tokens_of before (rs ++ after),
      total-append tokens_of rs after,
    );
    slots_count = omega (
      arith,
      i.slots_count,
      f.slots_kept,
      total-append slots_of before (r ∷ after),
      total-append slots_of before (rs ++ after),
      total-append slots_of rs after,
    );
    limit_kept = elim f.placed [
      | inl h ↦ omega (
        arith,
        h,
        i.limit_kept,
        total-append places_of before (r ∷ after),
        total-append places_of before (rs ++ after),
        total-append places_of rs after,
      )
      | inr (one, room, none_held) ↦ omega (
        arith,
        one,
        room,
        none_held,
        i.slots_count,
        total-append slots_of before (r ∷ after),
        total-append places_of before (rs ++ after),
        total-append places_of rs after,
        total_places before,
        total_places after,
      )
    ];
    stops =
        turn_stops n w r s s' rs f
          (omega (arith, i.tokens_count, total-append tokens_of before (r ∷ after))) i.stops;
  }

module _ (fl : Floats) (sink : Sink fl.F) (show : fl.F → fl.F → String) where
  open fl use {F}
  open sink use {State, accept}

  step-Inv :
      (n : ℕ) (c : Config) (x y : System State)
      → c.max_connections ≡ pos n
      → Step fl sink show c x y
      → Inv n x
      → Inv n y
  step-Inv n c x y m arrive i = record {
    tokens_count = omega (arith, i.tokens_count);
    slots_count = omega (arith, i.slots_count);
    limit_kept = omega (arith, i.limit_kept);
    stops = i.stops;
  }
  step-Inv n c x y m (turn {s = s} before r after e) i =
      turn-Inv n _ before r after s _ _
        (advance-Fair fl sink show n c e r s m
          (omega (arith, i.tokens_count, total-append tokens_of before (r ∷ after)))
          (omega (arith, i.slots_count, total-append slots_of before (r ∷ after))))
        i
  step-Inv n c x y m shut i = record {
    tokens_count = i.tokens_count;
    slots_count = i.slots_count;
    limit_kept = i.limit_kept;
    stops = refl;
  }
  step-Inv n c x y m (drained empty) i = record {
    tokens_count = i.tokens_count;
    slots_count = i.slots_count;
    limit_kept = i.limit_kept;
    stops = (i.stops, empty);
  }
  step-Inv n c x y m expired i = record {
    tokens_count = i.tokens_count;
    slots_count = i.slots_count;
    limit_kept = i.limit_kept;
    stops = i.stops;
  }

  fresh-Inv : (n : ℕ) (s : State) → Inv n (fresh s)
  fresh-Inv n s = record {
    tokens_count = refl;
    slots_count = refl;
    limit_kept = omega arith;
    stops = tt;
  }

  pub run-Inv :
      (n : ℕ) (c : Config) {x y : System State}
      → c.max_connections ≡ pos n
      → Reach fl sink show c x y
      → Inv n x
      → Inv n y
  run-Inv n c m here i = i
  run-Inv n c m (then_step r q) i = step-Inv n c _ _ m q (run-Inv n c m r i)

  -- Where `MaxConnections` is not negative: in every state that the server reaches, over any order
  -- of arrivals, steps, frames and shutdown, the wait group counts the tokens of the handlers and
  -- the connections, and `activeConns` their slots; the slots that were not beyond the limit are no
  -- more than `MaxConnections`; and once `Shutdown` has returned without an error, the server is
  -- closed and no token is left.
  pub Reach-Inv :
      (n : ℕ) (c : Config) (s : State) (y : System State)
      → c.max_connections ≡ pos n
      → Reach fl sink show c (fresh s) y
      → Inv n y
  Reach-Inv n c s y m r = run-Inv n c m r (fresh-Inv n s)
