-- ===== src/Cmd/Ingestd/Shutdown.antt =====
-- What becomes of driver pings when the ingest service is shut down.
use ride_matching_engine.Common.{◌+◌, ◌≡◌, refl, ◌∙◌, List, [], ◌∷◌, ◌++◌, map, length, arith}
use ride_matching_engine.Floats.{Floats}
use ride_matching_engine.Time.{Time}
use ride_matching_engine.Pipeline.{
  Config, Ping, Pipeline, Stores, Outside, accept, flush, Event, flush_due, handle, run,
}
use ride_matching_engine.Pipeline.Laws.{Ended, flush_lem, accept_counts}
use ride_matching_engine.Cmd.Ingestd.{late_event, life}

module _ (fl : Floats) (stores : Stores fl.F) (c : Config) where
  open fl use {F}
  open stores use {State}

  run-append :
      (xs ys : List (Event F)) (s : Pipeline F × State)
      → run fl stores c (xs ++ ys) s ≡ run fl stores c ys (run fl stores c xs s)
  unfolding run
  run-append [] ys s = refl
  run-append (x ∷ xs) ys s = run-append xs ys (handle fl stores c x s)

  accept_keeps :
      (now : Time) (p : Ping F) (s : Pipeline F)
      → ((accept fl c now p s).flushed ≡ s.flushed) × ((accept fl c now p s).windows ≡ s.windows)
  unfolding accept
  accept_keeps now p s = ground arith

  -- Pings behind the last flush are counted, and reach no store.
  late_lem :
      (late : List (Time × Ping F)) (s : Pipeline F) (w : State)
      → let r = run fl stores c (map late_event late) (s, w) in
        (r.1 ≡ w)
        × (r.0.flushed ≡ s.flushed)
        × (r.0.windows ≡ s.windows)
        × (r.0.pings + r.0.shed ≡ s.pings + s.shed + length late)
  unfolding run handle
  late_lem [] s w = (refl, refl, refl, omega arith)
  late_lem ((now, p) ∷ late) s w =
      let (a, b, d, e) = late_lem late (accept fl c now p s) w in
      let (f, g) = accept_keeps now p s in
      (a, b ∙ f, d ∙ g, omega (arith, e, accept_counts fl stores c now p s))

  last_flush :
      (last : Outside F) (late : List (Time × Ping F)) (s : Pipeline F) (w : State)
      → let f = flush stores last s w in
        let r = run fl stores c (flush_due last ∷ map late_event late) (s, w) in
        (f.1.buffer ≡ [])
        × Ended stores (length s.buffer) s f.0 f.1
        × (r.1 ≡ f.2)
        × (r.0.flushed ≡ f.1.flushed)
        × (r.0.windows ≡ s.windows + 1)
        × (r.0.pings + r.0.shed ≡ s.pings + s.shed + length late)
  unfolding run handle
  last_flush last late s w =
      let (empty, windows, pings, shed, ended) = flush_lem stores last s w in
      let f = flush stores last s w in
      let (a, b, d, e) = late_lem late f.1 f.2 in
      (empty, ended, a, b, d ∙ windows, omega (arith, e, pings, shed))

  -- Let the process be cancelled after any pings and flushes. The last flush then empties the buffer:
  -- what was buffered is flushed, or counts as one failed window. The pings that the connections still
  -- deliver while they are drained come behind that flush: each is counted as taken or as shed, but
  -- none of them changes the stores or the drivers that count as flushed, and no further window is
  -- begun.
  pub life_lem :
      (before : List (Event F)) (last : Outside F) (late : List (Time × Ping F)) (s : Pipeline F)
      (w : State)
      → let m = run fl stores c before (s, w) in
        let f = flush stores last m.0 m.1 in
        let r = run fl stores c (life before last late) (s, w) in
        (f.1.buffer ≡ [])
        × Ended stores (length m.0.buffer) m.0 f.0 f.1
        × (r.1 ≡ f.2)
        × (r.0.flushed ≡ f.1.flushed)
        × (r.0.windows ≡ m.0.windows + 1)
        × (r.0.pings + r.0.shed ≡ m.0.pings + m.0.shed + length late)
  life_lem before last late s w =
      let m = run fl stores c before (s, w) in
      rw (run-append before (flush_due last ∷ map late_event late) (s, w))
        (last_flush last late m.0 m.1)
