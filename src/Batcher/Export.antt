-- ===== src/Batcher/Export.antt =====
-- The id of a batch, and what it exports to Prometheus: processBatch and `emit` of
-- infrastructure/internal/batcher/batcher.go. A duration is observed in seconds there, and as it is
-- here.
use ride_matching_engine.Common.{
  ℕ, ◌≡◌, refl, Bool, true, false, String, Option, none, some, List, [], ◌∷◌, ◌++◌, pos, same, Memᴰ,
  if◌then◌else◌, ltb, ◌<>◌,
}
use ride_matching_engine.Common.Int.{ltb_ℤ}
use ride_matching_engine.Common.Decimal.{itoa}
use ride_matching_engine.Errors.{Error}
use ride_matching_engine.Floats.{Floats}
use ride_matching_engine.Time.{Time, Duration}
use ride_matching_engine.Engine.{retryable}
use ride_matching_engine.Batcher.Config.{CostMetric, unspecified, euclidean, travel_time}
use ride_matching_engine.Batcher.Batch.{BatchMetrics, FlushReason}

-- `string(m.Reason)`.
abbrev pub reason_text : FlushReason → String
reason_text FlushReason.timer = "timer"
reason_text FlushReason.full = "size"
reason_text FlushReason.shutdown = "shutdown"

-- `b.cfg.CostMetric.String()`.
abbrev pub metric_text : CostMetric → String
metric_text unspecified = "COST_METRIC_UNSPECIFIED"
metric_text euclidean = "COST_METRIC_EUCLIDEAN"
metric_text travel_time = "COST_METRIC_TRAVEL_TIME"

-- One update: an amount that is added to a counter, or an observation of a number or of a duration, each
-- under the name and the labels of its metric.
pub data Update : Type 0 where
  add : String → List String → ℕ → Update
  observe : String → List String → ℕ → Update
  observe_time : String → List String → Duration → Update

-- `strconv.FormatBool`.
abbrev pub bool_text : Bool → String
bool_text true = "true"
bool_text false = "false"

abbrev pub latency : String → Duration → List Update
latency tenant wait =
    if ltb_ℤ (pos 0) wait
    then observe_time "ridematch_match_latency_seconds" (tenant ∷ []) wait ∷ []
    else []

abbrev pub failure : Option Error → List Update
failure none = []
failure (some e) =
    add "ridematch_dependency_errors_total" ("engine" ∷ bool_text (retryable (some e)) ∷ []) 1 ∷ []

-- The tenant's label.
abbrev pub label : String → String
label tenant = if same tenant "" then "default" else tenant

-- The id of a batch that starts at this instant.
pub batch_id : Time → String
batch_id started = "batch-" <> itoa started

-- `MatchRate`: `ratio` is the quotient of two counts as floats, and zero the value of no riders.
unfoldable pub match_rate : (fl : Floats) → (ℕ → ℕ → fl.F) → BatchMetrics → fl.F
match_rate fl ratio m = if ltb 0 m.riders then ratio m.matched m.riders else fl.literal (pos 0)

-- The updates for the metrics of one batch.
unfoldable pub export : String → CostMetric → BatchMetrics → List Update
export tenant_label metric m =
    let tenant = label tenant_label in
    add "ridematch_batches_total" (tenant ∷ reason_text m.reason ∷ []) 1
    ∷ observe "ridematch_batch_size_riders" (tenant ∷ []) m.riders
    ∷ observe_time "ridematch_solve_seconds" (tenant ∷ metric_text metric ∷ []) m.solve_duration
    ∷ add "ridematch_riders_total" (tenant ∷ "matched" ∷ []) m.matched
    ∷ add "ridematch_riders_total" (tenant ∷ "requeued" ∷ []) m.requeued
    ∷ add "ridematch_riders_total" (tenant ∷ "exhausted" ∷ []) m.exhausted
    ∷ add "ridematch_riders_total" (tenant ∷ "dead_lettered" ∷ []) m.dead_lettered
    ∷ (latency tenant m.queue_wait ++ failure m.error)

-- Each error of a batch is exported as one of the engine, also that of the driver lookup or of an ack.
export_failure :
    (tenant : String) (metric : CostMetric) (m : BatchMetrics) (e : Error)
    → m.error ≡ some e
    → Memᴰ
        (add "ridematch_dependency_errors_total" ("engine" ∷ bool_text (retryable (some e)) ∷ []) 1)
        (export tenant metric m)
unfolding export
export_failure tenant metric m e h = rw h (
    Memᴰ.tail (
      Memᴰ.tail (
        Memᴰ.tail (
          Memᴰ.tail (
            Memᴰ.tail
              (Memᴰ.tail (Memᴰ.tail (mem-last (latency (label tenant) m.queue_wait) _))))))))
  where
    mem-last : (xs : List Update) (u : Update) → Memᴰ u (xs ++ u ∷ [])
    mem-last [] u = Memᴰ.head refl
    mem-last (x ∷ xs) u = Memᴰ.tail (mem-last xs u)
