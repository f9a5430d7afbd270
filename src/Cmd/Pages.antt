-- ===== src/Cmd/Pages.antt =====
-- The counters that ingestd and batcherd publish under /stats: infrastructure/cmd/ingestd/main.go and
-- infrastructure/cmd/batcherd/main.go. A line is its name and its number.
use ride_matching_engine.Common.{String, List, [], ◌∷◌, ℤ, pos}
use ride_matching_engine.Pipeline
use ride_matching_engine.Ingest.Server.{Server}
use ride_matching_engine.Batcher.Batch

abbrev pub Line : Type 0
Line = String × ℤ

-- The page of ingestd, of the WebSocket server's counters, the pipeline's, and the number of drivers in
-- the index, which is 0 if it cannot be read.
pub ingest_page : {S : Type 0} → Server S → Pipeline.Stats → ℤ → List Line
ingest_page ws ps count =
    ("connections_active", pos ws.active_conns)
    ∷ ("connections_total", pos ws.total_conns)
    ∷ ("connections_rejected", pos ws.rejected)
    ∷ ("pings_received", pos ws.pings)
    ∷ ("pings_malformed", pos ws.pings_bad)
    ∷ ("pipeline_shed", pos ps.total_shed)
    ∷ ("pipeline_flushed", pos ps.total_flushed)
    ∷ ("pipeline_windows", pos ps.total_windows)
    ∷ ("pipeline_flush_failures", pos ps.flush_failures)
    ∷ ("pipeline_buffered", pos ps.buffered)
    ∷ ("drivers_indexed", count)
    ∷ []

-- The page of batcherd, of its counters and the three lengths of the queue.
pub batch_page : Batch.Stats → ℤ → ℤ → ℤ → List Line
batch_page st depth pending dead =
    ("batches", pos st.batches)
    ∷ ("requests", pos st.requests)
    ∷ ("matched", pos st.matched)
    ∷ ("unmatched", pos st.unmatched)
    ∷ ("requeued", pos st.requeued)
    ∷ ("dead_lettered", pos st.dead_lettered)
    ∷ ("solve_errors", pos st.solve_errors)
    ∷ ("queue_depth", depth)
    ∷ ("queue_pending", pending)
    ∷ ("queue_dead_letter", dead)
    ∷ []
