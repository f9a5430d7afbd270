-- ===== src/Locations/Redis.antt =====
-- The driver locations in Redis: infrastructure/internal/locations/redis.go. The Redis commands are
-- parameters. A pipeline is its commands in their order, and its error the first of theirs.
use ride_matching_engine.Common.{
  ℕ, zero, suc, ◌+◌, ◌*◌, Bool, true, false, not, ◌&&◌, ◌||◌, String, ◌<>◌, Option, none, some,
  List, [], ◌∷◌, ◌++◌, map, ℤ, pos, negsuc, same, if◌then◌else◌, ltb,
}
use ride_matching_engine.Common.Decimal.{decimal}
use ride_matching_engine.Common.Int.{◌-ℤ◌, leb_ℤ}
use ride_matching_engine.Errors.{Error, Fallible, ok, err, plain, wrap, has, redis_nil}
use ride_matching_engine.Floats.{Floats}
use ride_matching_engine.Time.{Time, Duration, is_zero, unix_milli, from_milli}
use ride_matching_engine.Locations.{DriverLocation, Query}
use ride_matching_engine.Locations.Retry.{Weather, with_retry}
mod Union
pub mod Searches
pub mod Same
pub mod Fresh
pub mod Reaper
pub mod Writes

-- The zero value is no configuration: `new_redis` refuses it.
pub record Options : Type 0 where
  pub tenant_id : String
  pub ttl : Duration
  pub max_retries : ℤ
  pub pool_size : ℤ

-- `DefaultOptions`, but for the clock.
abbrev pub default_options : Options
default_options = record {
  tenant_id = "default";
  ttl = pos 30000000000;
  max_retries = pos 3;
  pool_size = pos 50;
}

-- The checks of `NewRedis`.
pub new_redis : Options → Fallible Options
new_redis o =
    if leb_ℤ o.ttl (pos 0)
    then err (plain "locations: TTL must be positive")
    else if same o.tenant_id ""
    then err (plain "locations: TenantID must be set")
    else ok o

-- A driver of the geo index, with its distance from the centre of a search.
pub record Place (F : Type 0) : Type 0 where
  pub name : String
  pub lat : F
  pub lng : F
  pub dist : F

-- GEOSEARCH BYRADIUS ... ASC COUNT, with the coordinates and the distance.
pub record Search (F : Type 0) : Type 0 where
  pub lat : F
  pub lng : F
  pub radius : F
  pub count : ℕ

-- GEOSEARCH, ZMSCORE, GEOADD, ZADD, ZREM, ZCARD, and ZRANGE BYSCORE from -inf to below a bound, for so
-- many members. `to_int64` is the conversion of a float, `show_place` the text of two, and the two
-- latitudes those that the source writes with decimals.
pub record Commands (fl : Floats) : Type 1 where
  pub Server : Type 0
  pub geo_search : String → Search fl.F → Server → Fallible (List (Place fl.F)) × Server
  pub zmscore : String → List String → Server → Fallible (List fl.F) × Server
  pub geo_add : String → List (Place fl.F) → Server → Option Error × Server
  pub zadd : String → List (fl.F × String) → Server → Option Error × Server
  pub zrem : String → List String → Server → Option Error × Server
  pub zrange_below : String → ℤ → ℕ → Server → Fallible (List String) × Server
  pub zcard : String → Server → Fallible ℤ × Server
  pub to_int64 : fl.F → ℤ
  pub show_place : fl.F → fl.F → String
  pub south : fl.F
  pub north : fl.F

unfoldable pub geo_key : Options → String
geo_key o = "drivers:geo:" <> o.tenant_id

unfoldable pub seen_key : Options → String
seen_key o = "drivers:seen:" <> o.tenant_id

-- The earliest last ping that is fresh.
unfoldable pub cutoff : Options → Time → ℤ
cutoff o now = unix_milli (now -ℤ o.ttl)

unfoldable pub limit_of : ℤ → ℕ
limit_of (pos zero) = 100
limit_of (pos (suc n)) = suc n
limit_of (negsuc n) = 100

unfoldable pub fetch_of : ℕ → ℕ
fetch_of limit = if ltb 1000 (limit * 3) then 1000 else limit * 3

unfoldable pub search_for : {F : Type 0} → Query F → Search F
search_for q = record {
  lat = q.lat;
  lng = q.lng;
  radius = q.radius;
  count = fetch_of (limit_of q.limit);
}

abbrev pub to_fallible : Option Error → Fallible {0} Unit
to_fallible none = ok tt
to_fallible (some e) = err e

abbrev pub first_error : Option Error → Option Error → Option Error
first_error none f = f
first_error (some e) f = some e

-- `errors.New` around an error, as `fmt.Errorf` does it.
abbrev pub within {ℓ} : {A : Type ℓ} → String → Fallible A → Fallible A
within context (ok a) = ok a
within context (err e) = err (wrap context e "")

abbrev pub is_in : String → List String → Bool
is_in k [] = false
is_in k (j ∷ js) = same j k || is_in k js

-- `members[i] = loc.Name`.
abbrev pub names : {F : Type 0} → List (Place F) → List String
names ps = map (λ p. p.name) ps

-- Each place with the score of its index, if there is one.
abbrev pub with_scores : {F : Type 0} → List (Place F) → List F → List (Place F × Option F)
with_scores [] xs = []
with_scores (p ∷ ps) [] = (p, none) ∷ with_scores ps []
with_scores (p ∷ ps) (x ∷ xs) = (p, some x) ∷ with_scores ps xs

-- `append(members, l.Name)` for the names that are not there yet.
unfoldable pub add_names : {F : Type 0} → List (Place F) → List String → List String
add_names [] ms = ms
add_names (p ∷ ps) ms =
    if is_in p.name ms then add_names ps ms else add_names ps (ms ++ p.name ∷ [])

-- The union of the candidates.
unfoldable pub union : {F : Type 0} → List (List (Place F)) → List String → List String
union [] ms = ms
union (ps ∷ raw) ms = union raw (add_names ps ms)

-- `fresh[m]`.
unfoldable pub seen_at : String → List (String × Time) → Option Time
seen_at m [] = none
seen_at m ((j, t) ∷ fs) = let rest = seen_at m fs in if same j m then some t else rest
