-- ===== src/Batcher/Settle/NoLoss.antt =====
-- What becomes of a message on each branch of `processBatch`.
use ride_matching_engine.Common.{
  ◌≡◌, refl, sym, ◌≢◌, ◌⊎◌, inl, inr, true, none, some, List, [], ◌∷◌, map, arith, Memᴰ, All,
  All-map, All-mem, Bool-cases, length, ◌+◌,
}
use ride_matching_engine.Errors.{Error, Fallible, ok, err, text}
use ride_matching_engine.Locations.{DriverLocation}
use ride_matching_engine.Queue.{Message, Queue, Promises}
use ride_matching_engine.Engine.{any_same, Outcome, retryable}
use ride_matching_engine.Batcher.Config.{Config}
use ride_matching_engine.Batcher.Batch.{
  FlushReason, BatchMetrics, MatchBatchResponse, driver_set, query, match_request, Outside, World,
}
use ride_matching_engine.Batcher.Settle.{
  matched_requests, leave_pending, set_aside, solve_failed, answered, after_solve, solve_batch,
  with_drivers, batch_started, after_lookup, look_up, process_batch,
}
use ride_matching_engine.Batcher.Settle.Keeps.{Distinct, Kept, settle-Kept, dead_letter_all-Kept}

Distinct-Same :
    {F : Type 0} (x : Message F) (ms : List (Message F))
    → Distinct ms
    → Memᴰ x ms
    → All (λ m. (x ≡ m) ⊎ (x.id ≢ m.id)) ms
Distinct-Same x [] d m = tt
Distinct-Same x (y ∷ ms) d (Memᴰ.head e) =
    (inl e, All-map (λ z h. inr (λ k. h (rw (← e) (sym k)))) ms d.0)
Distinct-Same x (y ∷ ms) d (Memᴰ.tail m) =
    (inr (All-mem (λ z. z.id ≢ y.id) d.0 m), Distinct-Same x ms d.1 m)

-- The lookup succeeded, and the engine's answer to the batch names the message's rider.
pub record WasMatched {F : Type 0} (c : Config F) (o : Outside F) (ms : List (Message F))
    (x : Message F) : Type 0 where
  pub results : List (List (DriverLocation F))
  pub looked_up : o.nearby_many (map (query c) ms) ≡ ok results
  pub response : MatchBatchResponse
  pub solved :
      o.solve (match_request c o.started ms (o.range (driver_set results))) ≡ (some response, none)
  pub named : any_same x.request.request_id (matched_requests response) ≡ true

module _ {F : Type 0} (api : Queue F) (p : Promises F api) (c : Config F) (o : Outside F) where
  open api use {State}

  module _ (ms : List (Message F)) (x : Message F) (d : Distinct ms) (m : Memᴰ x ms) where
    solve_failed-Kept :
        (b : BatchMetrics) (e : Error) (w : World State)
        → Kept api p w.queue x
        → Kept api p (solve_failed api o b e ms w).queue x
    unfolding solve_failed leave_pending set_aside
    solve_failed-Kept b e w k = elim (Bool-cases (retryable (some e))) [
      | inl again ↦ rw again k
      | inr final ↦
          rw final (dead_letter_all-Kept api p (text e) ms w.queue x (Distinct-Same x ms d m) k)
    ]

    after_solve-Kept :
        (b : BatchMetrics) (w : World State) (r : Outcome MatchBatchResponse)
        → Kept api p w.queue x
        → ((resp : MatchBatchResponse) × (r ≡ (some resp, none))
            × (any_same x.request.request_id (matched_requests resp) ≡ true))
          ⊎ Kept api p (after_solve api c o b ms w r).queue x
    unfolding after_solve answered matched_requests any_same
    after_solve-Kept b w (resp, some e) k = inr (solve_failed-Kept b e w k)
    after_solve-Kept b w (none, none) k = inr (settle-Kept api p c o b [] ms w x d m refl k)
    after_solve-Kept b w (some resp, none) k =
        elim (Bool-cases (any_same x.request.request_id (matched_requests resp))) [
          | inl hit ↦ inl (resp, refl, hit)
          | inr miss ↦ inr (settle-Kept api p c o b resp ms w x d m miss k)
        ]

    with_drivers-Kept :
        (b : BatchMetrics) (w : World State) (drivers : List (DriverLocation F))
        → Kept api p w.queue x
        → ((resp : MatchBatchResponse) × (o.solve (match_request c o.started ms (o.range drivers))
              ≡ (some resp, none))
            × (any_same x.request.request_id (matched_requests resp) ≡ true))
          ⊎ Kept api p (with_drivers api c o b drivers ms w).queue x
    unfolding with_drivers solve_batch leave_pending
    with_drivers-Kept b w [] k = inr k
    with_drivers-Kept b w (y ∷ ys) k = after_solve-Kept _ w _ k

    after_lookup-Kept :
        (b : BatchMetrics) (w : World State) (r : Fallible (List (List (DriverLocation F))))
        → o.nearby_many (map (query c) ms) ≡ r
        → Kept api p w.queue x
        → WasMatched c o ms x ⊎ Kept api p (after_lookup api c o b ms w r).queue x
    unfolding after_lookup leave_pending
    after_lookup-Kept b w (err e) found k = inr k
    after_lookup-Kept b w (ok results) found k =
        elim (with_drivers-Kept b w (driver_set results) k) [
          | inl (resp, solved, named) ↦ inl (record {
            results = results;
            looked_up = found;
            response = resp;
            solved = solved;
            named = named;
          })
          | inr kept ↦ inr kept
        ]

  -- Let the messages of a batch be pending, each under its own broker id. After `processBatch`, on
  -- every branch and whichever of the queue's operations fail, each of them was matched by the
  -- engine, or is pending still, or is queued with one more match attempt, or is a dead letter.
  pub process_batch-keeps :
      (ms : List (Message F)) (reason : FlushReason) (w : World State)
      → Distinct ms
      → All (λ m. p.Pending w.queue m.id) ms
      → (x : Message F) → Memᴰ x ms
      → WasMatched c o ms x ⊎ Kept api p (process_batch api c o ms reason w).queue x
  unfolding process_batch look_up batch_started
  process_batch-keeps [] reason w d pending x m = elim m [ ]
  process_batch-keeps (y ∷ ys) reason w d pending x m =
      after_lookup-Kept (y ∷ ys) x d m _ _ _ refl
        (inl (All-mem (λ m. p.Pending w.queue m.id) pending m))

  -- A batch whose lookup finds no driver leaves the queue as it was, every rider counts as requeued,
  -- and none as unmatched.
  pub process_batch_no_drivers :
      (ms : List (Message F)) (reason : FlushReason) (w : World State)
      (results : List (List (DriverLocation F)))
      → o.nearby_many (map (query c) ms) ≡ ok results
      → driver_set results ≡ []
      → ((process_batch api c o ms reason w).queue ≡ w.queue)
        × ((process_batch api c o ms reason w).stats.requeued ≡ w.stats.requeued + length ms)
        × ((process_batch api c o ms reason w).stats.unmatched ≡ w.stats.unmatched)
  unfolding process_batch look_up batch_started after_lookup with_drivers leave_pending
  process_batch_no_drivers [] reason w results found e = (refl, omega arith, refl)
  process_batch_no_drivers (y ∷ ys) reason w results found e =
      rw (found, after_lookup) (rw (e, with_drivers) (refl, refl, refl))
