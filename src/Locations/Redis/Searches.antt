-- ===== src/Locations/Redis/Searches.antt =====
-- The two searches of the Redis location store: Nearby and NearbyMany of
-- infrastructure/internal/locations/redis.go.
use ride_matching_engine.Common.{
  ℕ, zero, suc, String, ◌<>◌, Option, none, some, List, [], ◌∷◌, ℤ, pos, if◌then◌else◌,
}
use ride_matching_engine.Common.Decimal.{decimal}
use ride_matching_engine.Common.Int.{leb_ℤ}
use ride_matching_engine.Errors.{Error, Fallible, ok, err, plain, wrap, has, redis_nil}
use ride_matching_engine.Floats.{Floats}
use ride_matching_engine.Time.{Time, from_milli}
use ride_matching_engine.Locations.{DriverLocation, Query}
use ride_matching_engine.Locations.Retry.{Weather, with_retry}
use ride_matching_engine.Locations.Redis.{
  Options, Place, Commands, geo_key, seen_key, cutoff, limit_of, search_for, names, with_scores,
  union, seen_at,
}

module _ {fl : Floats} (redis : Commands fl) (o : Options) where
  open fl use {F, at_most, literal}
  open redis use {
    Server, geo_search, zmscore, geo_add, zadd, zrem, zrange_below, zcard, to_int64, show_place,
    south, north,
  }

  unfoldable pub located : String → Place F → Time → DriverLocation F
  located tenant p t = record {
    tenant_id = tenant;
    driver_id = p.name;
    lat = p.lat;
    lng = p.lng;
    distance_meters = p.dist;
    last_seen = t;
  }

  -- The loop of `Nearby` over the candidates, with the room that is left: it breaks when there is none.
  unfoldable pub fresh_up_to : ℤ → ℕ → List (Place F × Option F) → List (DriverLocation F)
  fresh_up_to c zero ps = []
  fresh_up_to c (suc n) [] = []
  fresh_up_to c (suc n) ((p, none) ∷ ps) = fresh_up_to c (suc n) ps
  fresh_up_to c (suc n) ((p, some x) ∷ ps) =
      if leb_ℤ c (to_int64 x)
      then located "" p (from_milli (to_int64 x)) ∷ fresh_up_to c n ps
      else fresh_up_to c (suc n) ps

  -- `fresh`: the members whose score is not behind the cutoff.
  unfoldable pub fresh_of : ℤ → List String → List F → List (String × Time)
  fresh_of c [] xs = []
  fresh_of c (m ∷ ms) [] = []
  fresh_of c (m ∷ ms) (x ∷ xs) =
      let rest = fresh_of c ms xs in
      if leb_ℤ c (to_int64 x) then (m, from_milli (to_int64 x)) ∷ rest else rest

  -- A candidate that is fresh takes one place of the limit.
  unfoldable pub on_seen :
      Place F
      → Option Time
      → List (DriverLocation F)
      → List (DriverLocation F)
      → List (DriverLocation F)
  on_seen p none taken skipped = skipped
  on_seen p (some t) taken skipped = located o.tenant_id p t ∷ taken

  -- The loop of `NearbyMany` over the candidates of one query.
  unfoldable pub known_up_to : List (String × Time) → ℕ → List (Place F) → List (DriverLocation F)
  known_up_to fs zero ps = []
  known_up_to fs (suc n) [] = []
  known_up_to fs (suc n) (p ∷ ps) =
      on_seen p (seen_at p.name fs) (known_up_to fs n ps) (known_up_to fs (suc n) ps)

  unfoldable pub answers :
      List (String × Time) → List (Query F) → List (List (Place F)) → List (List (DriverLocation F))
  answers fs [] raw = []
  answers fs (q ∷ qs) [] = []
  answers fs (q ∷ qs) (ps ∷ raw) = known_up_to fs (limit_of q.limit) ps ∷ answers fs qs raw

  -- The pipelined searches, each with its result, and the error of the pipeline.
  unfoldable pub search_all : List (Query F) → Server → List (Fallible (List (Place F))) × Server
  search_all [] s = ([], s)
  search_all (q ∷ qs) s =
      let (r, s1) = geo_search (geo_key o) (search_for q) s in
      let (rs, s2) = search_all qs s1 in (r ∷ rs, s2)

  unfoldable pub exec_error : List (Fallible (List (Place F))) → Option Error
  exec_error [] = none
  exec_error (ok ps ∷ rs) = exec_error rs
  exec_error (err e ∷ rs) = some e

  -- What the operation returns to `withRetry`: `redis.Nil` is no failure of the pipeline.
  unfoldable pub executed :
      List (Fallible (List (Place F))) → Option Error → Fallible (List (Fallible (List (Place F))))
  executed rs none = ok rs
  executed rs (some e) = if has e redis_nil then ok rs else err e

  unfoldable pub search_op :
      List (Query F) → Server → Fallible (List (Fallible (List (Place F)))) × Server
  search_op qs s = let (rs, s') = search_all qs s in (executed rs (exec_error rs), s')

  unfoldable pub keep_raw :
      List (Place F) → Fallible (List (List (Place F))) → Fallible (List (List (Place F)))
  keep_raw ps (ok raw) = ok (ps ∷ raw)
  keep_raw ps (err e) = err e

  -- The results of the commands, from the one of this index on.
  unfoldable pub collect : ℕ → List (Fallible (List (Place F))) → Fallible (List (List (Place F)))
  collect i [] = ok []
  collect i (ok ps ∷ rs) = keep_raw ps (collect (suc i) rs)
  collect i (err e ∷ rs) =
      let rest = collect (suc i) rs in
      if has e redis_nil
      then keep_raw [] rest
      else err (wrap ("geosearch result " <> (decimal i <> ": ")) e "")

  module _ (w : Weather) (now : Time) where
    abbrev pub Nearby : Type 0
    Nearby = Fallible (List (DriverLocation F)) × Server

    unfoldable pub filtered : ℕ → List (Place F) → Fallible (List F) × Server → Nearby
    filtered limit ps (err e, s) = (err (wrap "zmscore: " e ""), s)
    filtered limit ps (ok xs, s) = (ok (fresh_up_to (cutoff o now) limit (with_scores ps xs)), s)

    unfoldable pub searched : ℕ → Fallible (List (Place F)) × Server → Nearby
    searched limit (err e, s) = (err (wrap "geosearch: " e ""), s)
    searched limit (ok [], s) = (ok [], s)
    searched limit (ok (p ∷ ps), s) =
        filtered limit (p ∷ ps)
          (with_retry w o.max_retries (zmscore (seen_key o) (names (p ∷ ps))) s)

    -- `Nearby`.
    unfoldable pub nearby : Query F → Server → Nearby
    nearby q s =
        if at_most q.radius (literal (pos 0))
        then (err (plain "locations: radius must be positive"), s)
        else searched (limit_of q.limit)
            (with_retry w o.max_retries (geo_search (geo_key o) (search_for q)) s)

    abbrev pub NearbyMany : Type 0
    NearbyMany = Fallible (List (List (DriverLocation F))) × Server

    unfoldable pub judged :
        List (Query F)
        → List (List (Place F))
        → List String
        → Fallible (List F) × Server
        → NearbyMany
    judged qs raw ms (err e, s) = (err (wrap "zmscore: " e ""), s)
    judged qs raw ms (ok xs, s) = (ok (answers (fresh_of (cutoff o now) ms xs) qs raw), s)

    -- The scores of the members, who are asked for only if there are any.
    unfoldable pub score_all :
        List (Query F) → List (List (Place F)) → List String → Server → NearbyMany
    score_all qs raw [] s = (ok (answers [] qs raw), s)
    score_all qs raw (m ∷ ms) s =
        judged qs raw (m ∷ ms) (with_retry w o.max_retries (zmscore (seen_key o) (m ∷ ms)) s)

    unfoldable pub collected :
        List (Query F) → Fallible (List (List (Place F))) → Server → NearbyMany
    collected qs (err e) s = (err e, s)
    collected qs (ok raw) s = score_all qs raw (union raw []) s

    unfoldable pub pipelined :
        List (Query F) → Fallible (List (Fallible (List (Place F)))) × Server → NearbyMany
    pipelined qs (err e, s) = (err (wrap "geosearch pipeline: " e ""), s)
    pipelined qs (ok rs, s) = collected qs (collect 0 rs) s

    -- `NearbyMany`.
    unfoldable pub nearby_many : List (Query F) → Server → NearbyMany
    nearby_many [] s = (ok [], s)
    nearby_many (q ∷ qs) s = pipelined (q ∷ qs) (with_retry w o.max_retries (search_op (q ∷ qs)) s)
