-- ===== src/Batcher/Settle/OnLocations.antt =====
-- `processBatch` on the Redis location store: the batcher and the index of drivers put together.
use ride_matching_engine.Common.{
  ◌≡◌, refl, sym, String, none, some, List, [], ◌∷◌, Memᴰ, All, All-mem, map,
}
use ride_matching_engine.Errors.{Fallible, ok, err}
use ride_matching_engine.Floats.{Floats}
use ride_matching_engine.Time.{Time}
use ride_matching_engine.Locations.{DriverLocation}
use ride_matching_engine.Locations.Retry.{Weather}
use ride_matching_engine.Locations.Redis.{Options, Commands, cutoff}
use ride_matching_engine.Locations.Redis.Searches.{nearby_many}
use ride_matching_engine.Locations.Redis.Fresh.{
  Scores, IsRecent, IsFresh, AllFresh, score_of, nearby_many-AllFresh,
}
use ride_matching_engine.Queue.{Message, Queue}
use ride_matching_engine.Engine.{Outcome}
use ride_matching_engine.Batcher.Config.{Config}
use ride_matching_engine.Batcher.Batch.{
  FlushReason, BatchMetrics, MatchBatchRequest, MatchBatchResponse, driver_set, query,
  match_request, Outside, World,
}
use ride_matching_engine.Batcher.Batch.Drivers.{All-driver_set, Offered, match_request-Offered}
use ride_matching_engine.Batcher.Settle.{
  process_batch, fresh_metrics, look_up, after_lookup, with_drivers, solve_batch, after_solve,
  solve_failed, leave_pending, set_aside, settle,
}

module _ {fl : Floats} (api : Queue fl.F) (redis : Commands fl) (o : Options)
    (scores : Scores redis) (w : Weather) (now : Time) (s : redis.Server) where
  open fl use {F}
  open api use {State}

  -- The batcher's outside with the index on the Redis server for its driver store.
  abbrev pub on_locations : Outside F → Outside F
  on_locations out = record out { nearby_many = λ qs. (nearby_many redis o w now qs s).0 }

  abbrev score : String → F
  score = score_of redis o scores w now s

  -- An engine's batch whose candidates have pinged within the TTL, as the server has it.
  abbrev pub FreshRequest : MatchBatchRequest F → Type 0
  FreshRequest = Offered (IsRecent redis o (cutoff o now) score)

  abbrev pub Engine : Type 0
  Engine = MatchBatchRequest F → Outcome MatchBatchResponse

  -- An order of a map's elements has no others.
  abbrev pub Ranges : (List (DriverLocation F) → List (DriverLocation F)) → Type 0
  Ranges range =
      (ds : List (DriverLocation F)) (d : DriverLocation F) → Memᴰ d (range ds) → Memᴰ d ds

  module _ (c : Config F) (out : Outside F) (other : Engine) (ranges : Ranges out.range)
      (agree : (r : MatchBatchRequest F) → FreshRequest r → out.solve r ≡ other r) where
    abbrev swapped : Outside F
    swapped = record out { solve = other }

    after_solve_same :
        (m : BatchMetrics) (ms : List (Message F)) (x : World State)
        (r : Outcome MatchBatchResponse)
        → after_solve api c out m ms x r ≡ after_solve api c swapped m ms x r
    unfolding after_solve solve_failed leave_pending set_aside settle
    after_solve_same m ms x (resp, some e) = refl
    after_solve_same m ms x (resp, none) = refl

    with_drivers_same :
        (m : BatchMetrics) (ds : List (DriverLocation F)) (ms : List (Message F)) (x : World State)
        → All (IsFresh redis o (cutoff o now) score) ds
        → with_drivers api c out m ds ms x ≡ with_drivers api c swapped m ds ms x
    unfolding with_drivers solve_batch leave_pending
    with_drivers_same m [] ms x h = refl
    with_drivers_same m (d ∷ ds) ms x h =
        let asked = match_request c out.started ms (out.range (d ∷ ds)) in
        let fresh =
          match_request-Offered (IsRecent redis o (cutoff o now) score) c out.started ms
            (out.range (d ∷ ds))
            (λ e k. (All-mem (IsFresh redis o (cutoff o now) score) h (ranges (d ∷ ds) e k)).1.1) in
        rw (sym (agree asked fresh)) (after_solve_same _ ms x (out.solve asked))

    after_lookup_same :
        (m : BatchMetrics) (ms : List (Message F)) (x : World State)
        (r : Fallible (List (List (DriverLocation F))))
        → AllFresh redis o scores w now s r
        → after_lookup api c out m ms x r ≡ after_lookup api c swapped m ms x r
    unfolding after_lookup leave_pending
    after_lookup_same m ms x (err e) h = refl
    after_lookup_same m ms x (ok rs) h =
        with_drivers_same m (driver_set rs) ms x
          (All-driver_set (IsFresh redis o (cutoff o now) score) rs h)

  -- Let searches and reads of scores change no score, and a read that succeeds give the scores; and let
  -- the order in which Go ranges over a map have its elements only. Whatever the searches find and
  -- whichever commands fail, `processBatch` offers the engine no driver whose last ping is behind the
  -- cutoff of the TTL: an engine that differs only on batches with such a driver makes it do the same.
  pub process_batch_fresh :
      (c : Config F) (out : Outside F) (other : Engine) (ms : List (Message F))
      (reason : FlushReason) (x : World State)
      → Ranges out.range
      → ((r : MatchBatchRequest F) → FreshRequest r → out.solve r ≡ other r)
      → process_batch api c (on_locations out) ms reason x
        ≡ process_batch api c (on_locations (record out { solve = other })) ms reason x
  unfolding process_batch fresh_metrics look_up
  process_batch_fresh c out other [] reason x ranges agree = refl
  process_batch_fresh c out other (m ∷ ms) reason x ranges agree =
      after_lookup_same c (on_locations out) other ranges agree _ (m ∷ ms) _ _
        (nearby_many-AllFresh redis o scores w now s (map (query c) (m ∷ ms)))
