-- ===== src/Tests/Offers.antt =====
-- A batch behind the location index, one of whose drivers has not pinged for long.
use ride_matching_engine.Common.{
  ◌≡◌, refl, subst, Bool, true, false, ◌||◌, String, none, some, List, [], ◌∷◌, pos, inl, inr,
  Bool-cases, same, same→eq, if◌then◌else◌, All,
}
use ride_matching_engine.Common.Int.{leb_ℤ, ◌-ℤ◌}
use ride_matching_engine.Errors.{Fallible, ok, plain}
use ride_matching_engine.Locations.Redis.{default_options, cutoff}
use ride_matching_engine.Time.{unix_milli}
use ride_matching_engine.Locations.Redis.Fresh.{Scores}
use ride_matching_engine.Queue.Stream.{stream_queue}
use ride_matching_engine.Engine.{Outcome}
use ride_matching_engine.Batcher.Config.{default_config}
use ride_matching_engine.Batcher.Batch
use ride_matching_engine.Batcher.Batch.{full, Outside, MatchBatchRequest, MatchBatchResponse}
use ride_matching_engine.Batcher.Settle.{process_batch}
use ride_matching_engine.Batcher.Settle.OnLocations.{on_locations, process_batch_fresh}
use ride_matching_engine.Tests.Numbers.{whole, numerals}
use ride_matching_engine.Tests.Servers.{memory}
use ride_matching_engine.Tests.Batches.{two, options, outside, world}
use ride_matching_engine.Tests.Nearby.{places, weather}

ok_eq : {A : Type 0} (a b : A) → ◌≡◌ {A = Fallible A} (ok a) (ok b) → b ≡ a
ok_eq a b h = cc

abbrev scores : Scores places
scores = record {
  score = λ k m s. if same m "d1" then pos 100000 else pos 10000;
  geo_search_keeps = λ k q s j m. refl;
  zmscore_keeps = λ k ms s j m. refl;
  zmscore_scores = λ k ms s xs h. ok_eq _ xs h;
}

abbrev has_stale : List (Batch.Place whole.F) → Bool
has_stale [] = false
has_stale (p ∷ ps) = same p.id "d2" || has_stale ps

-- It fails on a batch with the driver that was seen at second 10.
abbrev choosy : MatchBatchRequest whole.F → Outcome MatchBatchResponse
choosy r =
    if has_stale r.candidate_drivers
    then (none, some (plain "stale"))
    else (some (("r1", "d1") ∷ []), none)

abbrev IsKnown : String → Type 0
IsKnown id = leb_ℤ (pos 80000) (if same id "d1" then pos 100000 else pos 10000) ≡ true

never_d2 : IsKnown "d2" → ⊥
unfolding same
never_d2 f = cc

fresh-choosy : (ps : List (Batch.Place whole.F)) → All (λ p. IsKnown p.id) ps → has_stale ps ≡ false
fresh-choosy [] h = refl
fresh-choosy (p ∷ ps) (e, h) = elim (Bool-cases (same p.id "d2")) [
  | inr other ↦ rw (other, fresh-choosy ps h) refl
  | inl stale ↦ absurd (never_d2 (subst IsKnown (same→eq p.id "d2" stale) e))
]

process_batch_fresh_example :
    process_batch
      (stream_queue whole numerals (memory false) options)
      (default_config whole)
      (on_locations
        (stream_queue whole numerals (memory false) options)
        places
        default_options
        scores
        weather
        (pos 110000000000)
        0
        (record (outside []) { solve = choosy }))
      two
      full
      world
    ≡ process_batch
        (stream_queue whole numerals (memory false) options)
        (default_config whole)
        (on_locations
          (stream_queue whole numerals (memory false) options)
          places
          default_options
          scores
          weather
          (pos 110000000000)
          0
          (outside []))
        two
        full
        world
unfolding same cutoff unix_milli ◌-ℤ◌
process_batch_fresh_example =
    process_batch_fresh (stream_queue whole numerals (memory false) options) places default_options
      scores weather (pos 110000000000) 0 (default_config whole)
      (record (outside []) { solve = choosy }) (outside []).solve two full world (λ ds d m. m)
      (λ r h. rw (fresh-choosy r.candidate_drivers h) refl)
