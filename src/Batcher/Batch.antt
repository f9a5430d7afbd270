-- ===== src/Batcher/Batch.antt =====
-- `processBatch` up to the settling of its messages: the candidate lookup, the deduplicated driver
-- set, the engine's batch, and what is counted and reported on every branch.
pub mod Drivers
use ride_matching_engine.Common.{
  ℕ, String, Option, List, [], ◌∷◌, ◌++◌, map, ℤ, pos, same, if◌then◌else◌,
}
use ride_matching_engine.Common.Int.{◌*ℤ◌, ◌-ℤ◌, int32}
use ride_matching_engine.Errors.{Error, Fallible}
use ride_matching_engine.Time.{Time, Duration}
use ride_matching_engine.Locations.{DriverLocation, Query}
use ride_matching_engine.Queue.{Message}
use ride_matching_engine.Engine.{Outcome}
use ride_matching_engine.Batcher.Config.{Config, CostMetric}

pub data FlushReason : Type 0 where
  timer full shutdown : FlushReason

-- `Stats`, and the atomic counters that it snapshots.
pub record Stats : Type 0 where
  pub batches : ℕ
  pub requests : ℕ
  pub matched : ℕ
  pub unmatched : ℕ
  pub requeued : ℕ
  pub exhausted : ℕ
  pub dead_lettered : ℕ
  pub solve_errors : ℕ

-- `BatchMetrics`, but for the batch's id and the quotient `MatchRate`, which Batcher.Export has.
pub record BatchMetrics : Type 0 where
  pub reason : FlushReason
  pub riders : ℕ
  pub drivers : ℕ
  pub matched : ℕ
  pub unmatched : ℕ
  pub requeued : ℕ
  pub exhausted : ℕ
  pub dead_lettered : ℕ
  pub queue_wait : Duration
  pub solve_duration : Duration
  pub total_duration : Duration
  pub error : Option Error

-- A rider and a candidate driver of the engine's batch: an id and a place.
pub record Place (F : Type 0) : Type 0 where
  pub id : String
  pub lat : F
  pub lng : F

pub record MatchBatchRequest (F : Type 0) : Type 0 where
  pub tenant_id : String
  pub started : Time
  pub cost_metric : CostMetric
  pub road_graph_id : String
  pub max_candidates_per_rider : ℤ
  pub riders : List (Place F)
  pub candidate_drivers : List (Place F)

-- The pairs of rider and driver that the engine matched.
abbrev pub MatchBatchResponse : Type 0
MatchBatchResponse = List (String × String)

-- `driverSet[d.DriverID] = d`.
pub put_driver : {F : Type 0} → DriverLocation F → List (DriverLocation F) → List (DriverLocation F)
put_driver d [] = d ∷ []
put_driver d (e ∷ es) = if same e.driver_id d.driver_id then d ∷ es else e ∷ put_driver d es

pub put_all :
    {F : Type 0} → List (DriverLocation F) → List (DriverLocation F) → List (DriverLocation F)
put_all [] set = set
put_all (d ∷ ds) set = put_all ds (put_driver d set)

pub put_lists :
    {F : Type 0}
    → List (List (DriverLocation F))
    → List (DriverLocation F)
    → List (DriverLocation F)
put_lists [] set = set
put_lists (near ∷ rest) set = put_lists rest (put_all near set)

-- The union of the riders' shortlists, each driver once.
pub driver_set : {F : Type 0} → List (List (DriverLocation F)) → List (DriverLocation F)
unfolding put_driver put_all put_lists
driver_set results = put_lists results []

pub query : {F : Type 0} → Config F → Message F → Query F
query c m = record {
  lat = m.request.lat;
  lng = m.request.lng;
  radius = c.search_radius_meters;
  limit = c.max_candidates_per_rider *ℤ pos 4;
}

abbrev pub first_tenant : {F : Type 0} → List (Message F) → String
first_tenant [] = ""
first_tenant (m ∷ ms) = m.request.tenant_id

pub match_request :
    {F : Type 0}
    → Config F
    → Time
    → List (Message F)
    → List (DriverLocation F)
    → MatchBatchRequest F
match_request c started ms drivers = record {
  tenant_id = first_tenant ms;
  started = started;
  cost_metric = c.cost_metric;
  road_graph_id = c.road_graph_id;
  max_candidates_per_rider = int32 c.max_candidates_per_rider;
  riders =
      map (λ m. record { id = m.request.request_id; lat = m.request.lat; lng = m.request.lng }) ms;
  candidate_drivers = map (λ d. record { id = d.driver_id; lat = d.lat; lng = d.lng }) drivers;
}

-- What a batch meets outside of the queue: the driver store, the engine's client under the solve
-- timeout, the order in which Go ranges over the driver set, and the clock.
pub record Outside (F : Type 0) : Type 0 where
  pub nearby_many : List (Query F) → Fallible (List (List (DriverLocation F)))
  pub solve : MatchBatchRequest F → Outcome MatchBatchResponse
  pub range : List (DriverLocation F) → List (DriverLocation F)
  pub started : Time
  pub solve_took : Duration
  pub finished : Time

-- The batcher's state: the queue's, the counters, and what `OnBatch` has been given.
pub record World (State : Type 0) : Type 0 where
  pub queue : State
  pub stats : Stats
  pub emitted : List BatchMetrics

abbrev pub emit : {F State : Type 0} → Outside F → BatchMetrics → World State → World State
emit o m w = record w {
  emitted = w.emitted ++ (record m { total_duration = o.finished -ℤ o.started }) ∷ [];
}
