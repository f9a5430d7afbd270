-- ===== src/Tests/Nearby.antt =====
-- Driver locations in memory, and the theorems on their searches and retries at concrete queries.
use ride_matching_engine.Common.{
  ℕ, zero, suc, ◌+◌, ◌≤◌, ◌≡◌, refl, true, false, String, none, List, [], ◌∷◌, map, ℤ, pos, same,
  if◌then◌else◌, All,
}
use ride_matching_engine.Errors.{Fallible, ok, err, plain}
use ride_matching_engine.Locations.{Query}
use ride_matching_engine.Locations.Retry.{
  Weather, with_retry, with_retry_ends, counted, runs, is_settled,
}
use ride_matching_engine.Locations.Redis.{Place, Commands, default_options}
use ride_matching_engine.Locations.Redis.Searches.{nearby, nearby_many}
use ride_matching_engine.Locations.Redis.Same.{Answers, nearby_many_same, held, stamp}
use ride_matching_engine.Tests.Numbers.{whole}

abbrev pub weather : Weather
weather = record { is_redis_error = λ e. false; wait = λ i b. none }

-- It fails twice.
abbrev flaky : ℕ → Fallible String × ℕ
flaky zero = (err (plain "connection refused"), 1)
flaky (suc zero) = (err (plain "connection refused"), 2)
flaky n = (ok "pong", n + 1)

with_retry_ends_example :
    (1 ≤ runs (with_retry weather (pos 3) (counted flaky) (0, 0)))
    × (runs (with_retry weather (pos 3) (counted flaky) (0, 0)) ≤ 3 + 1)
    × (is_settled weather (flaky 0).0 ≡ true → with_retry weather (pos 3) flaky 0 ≡ flaky 0)
with_retry_ends_example = with_retry_ends weather 3 flaky 0

abbrev place : String → ℤ → Place ℤ
place name dist = record { name = name; lat = pos 1; lng = pos 2; dist = dist }

-- Two drivers, of whom one was last seen at second 100, and the other at second 10.
abbrev pub places : Commands whole
places = record {
  Server = ℕ;
  geo_search = λ k q s. (ok (place "d1" (pos 10) ∷ place "d2" (pos 20) ∷ []), s);
  zmscore = λ k ms s. (ok (map (λ m. if same m "d1" then pos 100000 else pos 10000) ms), s);
  geo_add = λ k ps s. (none, s);
  zadd = λ k zs s. (none, s);
  zrem = λ k ids s. (none, s);
  zrange_below = λ k c n s. (ok [], s);
  zcard = λ k s. (ok (pos 2), s);
  to_int64 = λ x. x;
  show_place = λ a b. "";
  south = ℤ.negsuc 84;
  north = pos 85;
}

places-Answers : Answers places
places-Answers = record {
  found = λ k q s. place "d1" (pos 10) ∷ place "d2" (pos 20) ∷ [];
  score = λ k m s. if same m "d1" then pos 100000 else pos 10000;
  geo_search_answers = λ k q s. refl;
  zmscore_answers = λ k ms s. refl;
}

abbrev queries : List (Query ℤ)
queries =
    record { lat = pos 1; lng = pos 2; radius = pos 500; limit = pos 1 }
    ∷ record { lat = pos 1; lng = pos 3; radius = pos 900; limit = pos 0 }
    ∷ []

nearby_many_same_example :
    All
      (λ q.
        nearby places default_options weather (pos 110000000000) q 0
        ≡ (ok (held (nearby places default_options weather (pos 110000000000) q 0).0), 0))
      queries
    × (nearby_many places default_options weather (pos 110000000000) queries 0 ≡ (
      ok (
          map
            (λ q.
              map
                (stamp "default")
                (held (nearby places default_options weather (pos 110000000000) q 0).0))
            queries),
      0,
    ))
nearby_many_same_example =
    nearby_many_same places default_options places-Answers 0 weather (pos 110000000000) 3 refl
      queries (refl, (refl, tt))
