-- ===== src/Ingest/Server/Stamped.antt =====
-- Which pings reach the sink of the WebSocket server, whatever order its routines take turns in.
use ride_matching_engine.Common.{
  ◌≡◌, refl, String, Option, none, some, List, [], ◌∷◌, ◌++◌, inl, inr, All, All-append, true,
  false, Bool-cases, pos, ◌+◌,
}
use ride_matching_engine.Common.Int.{ltb_ℤ}
use ride_matching_engine.Errors.{Error}
use ride_matching_engine.Floats.{Floats}
use ride_matching_engine.Pipeline.{Ping}
use ride_matching_engine.Ingest.{Config, Sink, validate, Frame, message, other_frame}
use ride_matching_engine.Ingest.Server.{
  Server, Routine, Event, go, verified, upgraded, frame, pumps_done, System, fresh, arrived,
  admitted, turned_away, counting, authenticating, upgrading, starting, serving, releasing, leaving,
  accept_valid, read_frame, admit, reserve, advance, Step, arrive, turn, shut, drained, expired,
}

module _ (fl : Floats) (sink : Sink fl.F) (show : fl.F → fl.F → String) (c : Config)
    (Admitted : String → Type 0) where
  open fl use {F}
  open sink use {State, accept}

  -- What the authentication decides is the tenant of an admitted connection, or a refusal.
  abbrev pub IsGenuine : Event F → Type 0
  IsGenuine (verified (inr tenant)) = Admitted tenant
  IsGenuine _ = Unit

  abbrev Carries : Routine → Type 0
  Carries (upgrading t) = Admitted t
  Carries (starting t) = Admitted t
  Carries (serving t) = Admitted t
  Carries _ = Unit

  -- A step whose event is genuine.
  unfoldable pub Genuine : {x y : System State} → Step fl sink show c x y → Type 0
  Genuine (turn before r after e) = IsGenuine e
  Genuine _ = Unit

  pub data Runs (s : State) : System State → Type 0 where
    begin : Runs s (fresh s)
    next : {x y : System State} → Runs s x → (st : Step fl sink show c x y) → Genuine st → Runs s y

  -- What a valid ping that is stamped with an admitted tenant keeps.
  abbrev pub IsKept : (State → Type 0) → Type 0
  IsKept P =
      (tenant : String) (p : Ping F) (s : State)
      → Admitted tenant
      → validate fl show p ≡ none
      → P s
      → P (accept (record p { tenant_id = tenant }) s).1

  All-parts :
      (before : List Routine) (r : Routine) (after : List Routine)
      → All Carries (before ++ r ∷ after)
      → All Carries before × Carries r × All Carries after
  All-parts [] r after h = (tt, h.0, h.1)
  All-parts (b ∷ before) r after h =
      let (front, carried, back) = All-parts before r after h.1 in ((h.0, front), carried, back)

  module _ (P : State → Type 0) (kept : IsKept P) where
    accept_valid_kept :
        (t : String) (p : Ping F) (e : Option Error) (s : Server State)
        → validate fl show p ≡ e
        → Admitted t
        → P s.sink
        → P (accept_valid fl sink show t p e s).sink
    unfolding accept_valid
    accept_valid_kept t p (some e) s v a h = h
    accept_valid_kept t p none s v a h = kept t p s.sink a v h

    read_frame_kept :
        (t : String) (f : Frame F) (s : Server State)
        → Admitted t
        → P s.sink
        → P (read_frame fl sink show t f s).sink
    unfolding read_frame
    read_frame_kept t (message none) s a h = h
    read_frame_kept t (message (some p)) s a h = accept_valid_kept t p _ s refl a h
    read_frame_kept t other_frame s a h = h

    advance_kept :
        (e : Event F) (r : Routine) (s : Server State)
        → IsGenuine e
        → Carries r
        → P s.sink
        → All Carries (advance fl sink show c e r s).1 × P (advance fl sink show c e r s).0.sink
    unfolding advance admit reserve
    advance_kept e arrived s g a h = elim (Bool-cases s.closed) [
      | inl shut_down ↦ rw shut_down (tt, h)
      | inr serving_on ↦ rw serving_on ((tt, tt), h)
    ]
    advance_kept e admitted s g a h =
        elim (Bool-cases (ltb_ℤ c.max_connections (pos (s.active_conns + 1)))) [
          | inl beyond ↦ rw beyond ((tt, tt), h)
          | inr within ↦ rw within ((tt, tt), h)
        ]
    advance_kept e turned_away s g a h = ((tt, tt), h)
    advance_kept e counting s g a h = ((tt, tt), h)
    advance_kept (verified (inl status)) authenticating s g a h = ((tt, tt), h)
    advance_kept (verified (inr t)) authenticating s g a h = ((g, tt), h)
    advance_kept go authenticating s g a h = ((tt, tt), h)
    advance_kept (upgraded b) authenticating s g a h = ((tt, tt), h)
    advance_kept (frame f) authenticating s g a h = ((tt, tt), h)
    advance_kept pumps_done authenticating s g a h = ((tt, tt), h)
    advance_kept (upgraded false) (upgrading t) s g a h = ((tt, tt), h)
    advance_kept (upgraded true) (upgrading t) s g a h = ((a, tt), h)
    advance_kept go (upgrading t) s g a h = ((a, tt), h)
    advance_kept (verified v) (upgrading t) s g a h = ((a, tt), h)
    advance_kept (frame f) (upgrading t) s g a h = ((a, tt), h)
    advance_kept pumps_done (upgrading t) s g a h = ((a, tt), h)
    advance_kept e (starting t) s g a h = ((tt, (a, tt)), h)
    advance_kept (frame f) (serving t) s g a h = ((a, tt), read_frame_kept t f s a h)
    advance_kept pumps_done (serving t) s g a h = ((tt, tt), h)
    advance_kept go (serving t) s g a h = ((a, tt), h)
    advance_kept (verified v) (serving t) s g a h = ((a, tt), h)
    advance_kept (upgraded b) (serving t) s g a h = ((a, tt), h)
    advance_kept e releasing s g a h = ((tt, tt), h)
    advance_kept e leaving s g a h = (tt, h)

    abbrev Kept : System State → Type 0
    Kept x = All Carries x.routines × P x.server.sink

    Step-Kept : {x y : System State} (st : Step fl sink show c x y) → Genuine st → Kept x → Kept y
    unfolding Genuine
    Step-Kept arrive g (a, h) = ((tt, a), h)
    Step-Kept (turn before r after e) g (a, h) =
        let (front, carried, back) = All-parts before r after a in
        let (moved, sunk) = advance_kept e r _ g carried h in
        (All-append Carries before _ front (All-append Carries _ after moved back), sunk)
    Step-Kept shut g (a, h) = (a, h)
    Step-Kept (drained e) g (a, h) = (a, h)
    Step-Kept expired g (a, h) = (a, h)

    Runs-Kept : {s : State} {x : System State} → Runs s x → P s → Kept x
    Runs-Kept begin h = (tt, h)
    Runs-Kept (next r st g) h = Step-Kept st g (Runs-Kept r h)

    -- Let each handshake that is let through be of an admitted tenant. Whatever the order in which
    -- requests, frames and a shutdown come, the sink is only ever given pings that are valid, each under
    -- an admitted tenant: what holds of the sink at the start, and is kept by such pings, holds at each
    -- point.
    pub Runs-sink : {s : State} {x : System State} → Runs s x → P s → P x.server.sink
    Runs-sink r h = (Runs-Kept r h).1
