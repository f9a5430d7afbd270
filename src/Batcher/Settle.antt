-- ===== src/Batcher/Settle.antt =====
-- `processBatch`: the settling of a solved batch, and the whole handler.
pub mod Keeps
pub mod NoLoss
pub mod Accounts
pub mod OnStream
pub mod OnLocations
use ride_matching_engine.Common.{
  ℕ, ◌+◌, Bool, String, ◌<>◌, Option, none, some, List, [], ◌∷◌, ◌++◌, map, pos, if◌then◌else◌,
  length,
}
use ride_matching_engine.Common.Int.{◌+ℤ◌, leb_ℤ}
use ride_matching_engine.Common.Decimal.{itoa}
use ride_matching_engine.Errors.{Error, Fallible, ok, err, text}
use ride_matching_engine.Locations.{DriverLocation}
use ride_matching_engine.Queue.{Message, Queue}
use ride_matching_engine.Engine.{any_same, retryable, Outcome}
use ride_matching_engine.Batcher.Config.{Config}
use ride_matching_engine.Batcher.Wait.{median_wait}
use ride_matching_engine.Batcher.Batch.{
  FlushReason, BatchMetrics, MatchBatchResponse, driver_set, query, match_request, Outside, World,
  emit,
}

-- `matchedRequests`: the set of the riders in the engine's answer.
pub matched_requests : MatchBatchResponse → List String
matched_requests [] = []
matched_requests ((rider, driver) ∷ rest) =
    let tail = matched_requests rest in if any_same rider tail then tail else rider ∷ tail

-- The variables of the settling loop, and the queue.
pub record Settling (State : Type 0) : Type 0 where
  pub queue : State
  pub ack_ids : List String
  pub requeue : ℕ
  pub exhausted : ℕ

pub is_exhausted : {F : Type 0} → Config F → Message F → Bool
is_exhausted c m = leb_ℤ c.max_match_attempts (m.request.match_attempts +ℤ pos 1)

pub out_of_attempts : {F : Type 0} → Message F → String
out_of_attempts m =
    "no driver found after " <> itoa (m.request.match_attempts +ℤ pos 1) <> " match attempts"

module _ {F : Type 0} (api : Queue F) where
  open api use {State, ack, republish, dead_letter}

  give_up : Message F → Settling State → Settling State
  give_up m s =
      let (e, q) = dead_letter m (out_of_attempts m) s.queue in
      elim e [
        | some _ ↦ record s { queue = q }
        | none ↦ record s { queue = q; exhausted = s.exhausted + 1 }
      ]

  put_back : Message F → Settling State → Settling State
  put_back m s = record s { queue = (republish m s.queue).1; requeue = s.requeue + 1 }

  -- One round of the settling loop, `matched` the matched request ids.
  pub settle_one : Config F → List String → Message F → Settling State → Settling State
  settle_one c matched m s =
      if any_same m.request.request_id matched
      then record s { ack_ids = s.ack_ids ++ m.id ∷ [] }
      else if is_exhausted c m
      then give_up m s
      else put_back m s

  pub settle_all : Config F → List String → List (Message F) → Settling State → Settling State
  settle_all c matched [] s = s
  settle_all c matched (m ∷ ms) s = settle_all c matched ms (settle_one c matched m s)

  ack_matched : List String → State → Option Error × State
  ack_matched [] q = (none, q)
  ack_matched (i ∷ ids) q = ack (i ∷ ids) q

  pub settle :
      Config F
      → Outside F
      → BatchMetrics
      → MatchBatchResponse
      → List (Message F)
      → World State
      → World State
  settle c o m resp ms w =
      let matched = matched_requests resp in
      let s =
        settle_all c matched ms
          (record { queue = w.queue; ack_ids = []; requeue = 0; exhausted = 0 }) in
      let (e, q) = ack_matched s.ack_ids s.queue in
      emit o
        (record m {
          matched = length matched;
          unmatched = s.requeue + s.exhausted;
          requeued = s.requeue;
          exhausted = s.exhausted;
          error = e;
        })
        (record w {
          queue = q;
          stats = record stats {
            matched = stats.matched + length matched;
            unmatched = stats.unmatched + (s.requeue + s.exhausted);
            requeued = stats.requeued + s.requeue;
            exhausted = stats.exhausted + s.exhausted;
          };
        })
    where
      open w use {stats}

  -- Every message stays pending, and is counted as requeued.
  leave_pending :
      Outside F → BatchMetrics → Option Error → List (Message F) → World State → World State
  leave_pending o m e ms w =
      emit o (record m { error = e; requeued = length ms })
        (record w { stats = record stats { requeued = stats.requeued + length ms } })
    where
      open w use {stats}

  pub dead_letter_all : String → List (Message F) → State → State
  dead_letter_all why [] q = q
  dead_letter_all why (m ∷ ms) q = dead_letter_all why ms (dead_letter m why q).1

  set_aside : Outside F → BatchMetrics → Error → List (Message F) → World State → World State
  set_aside o m e ms w =
      emit o (record m { error = some e; dead_lettered = length ms })
        (record w {
          queue = dead_letter_all (text e) ms w.queue;
          stats = record stats { dead_lettered = stats.dead_lettered + length ms };
        })
    where
      open w use {stats}

  solve_failed : Outside F → BatchMetrics → Error → List (Message F) → World State → World State
  solve_failed o m e ms w =
      let w' = record w { stats = record w.stats { solve_errors = w.stats.solve_errors + 1 } } in
      if retryable (some e) then leave_pending o m (some e) ms w' else set_aside o m e ms w'

  -- A missing response has no matches, as the getters of the generated type have it.
  answered : Option MatchBatchResponse → MatchBatchResponse
  answered none = []
  answered (some r) = r

  after_solve :
      Config F
      → Outside F
      → BatchMetrics
      → List (Message F)
      → World State
      → Outcome MatchBatchResponse
      → World State
  after_solve c o m ms w (resp, some e) = solve_failed o m e ms w
  after_solve c o m ms w (resp, none) = settle c o m (answered resp) ms w

  solve_batch :
      Config F
      → Outside F
      → BatchMetrics
      → List (DriverLocation F)
      → List (Message F)
      → World State
      → World State
  solve_batch c o m drivers ms w =
      after_solve c o (record m { solve_duration = o.solve_took }) ms w
        (o.solve (match_request c o.started ms (o.range drivers)))

  with_drivers :
      Config F
      → Outside F
      → BatchMetrics
      → List (DriverLocation F)
      → List (Message F)
      → World State
      → World State
  with_drivers c o m [] ms w = leave_pending o m none ms w
  with_drivers c o m (d ∷ ds) ms w =
      solve_batch c o (record m { drivers = length (d ∷ ds) }) (d ∷ ds) ms w

  fresh_metrics : Outside F → FlushReason → List (Message F) → BatchMetrics
  fresh_metrics o reason ms = record {
    reason = reason;
    riders = length ms;
    drivers = 0;
    matched = 0;
    unmatched = 0;
    requeued = 0;
    exhausted = 0;
    dead_lettered = 0;
    queue_wait = median_wait ms o.started;
    solve_duration = pos 0;
    total_duration = pos 0;
    error = none;
  }

  batch_started : List (Message F) → World State → World State
  batch_started ms w = record w {
    stats = record stats { batches = stats.batches + 1; requests = stats.requests + length ms };
  }
    where
      open w use {stats}

  after_lookup :
      Config F
      → Outside F
      → BatchMetrics
      → List (Message F)
      → World State
      → Fallible (List (List (DriverLocation F)))
      → World State
  after_lookup c o m ms w (err e) = leave_pending o m (some e) ms w
  after_lookup c o m ms w (ok results) = with_drivers c o m (driver_set results) ms w

  look_up : Config F → Outside F → BatchMetrics → List (Message F) → World State → World State
  look_up c o m ms w = after_lookup c o m ms w (o.nearby_many (map (query c) ms))

  -- `processBatch`.
  pub process_batch :
      Config F → Outside F → List (Message F) → FlushReason → World State → World State
  process_batch c o [] reason w = w
  process_batch c o (m ∷ ms) reason w =
      look_up c o (fresh_metrics o reason (m ∷ ms)) (m ∷ ms) (batch_started (m ∷ ms) w)
