-- ===== src/Locations/Redis/Writes.antt =====
-- What the Redis location store writes: UpsertDriver, UpsertMany, RemoveDriver, Reap, and Count, of
-- infrastructure/internal/locations/redis.go.
use ride_matching_engine.Common.{
  ℕ, Bool, not, ◌&&◌, ◌||◌, String, ◌<>◌, List, [], ◌∷◌, ℤ, pos, same, if◌then◌else◌, length,
}
use ride_matching_engine.Errors.{Fallible, ok, err, plain, wrap}
use ride_matching_engine.Floats.{Floats}
use ride_matching_engine.Time.{Time, is_zero, unix_milli, zero_time}
use ride_matching_engine.Locations.{DriverLocation}
use ride_matching_engine.Locations.Retry.{Weather, with_retry}
use ride_matching_engine.Locations.Redis.{
  Options, Place, Commands, geo_key, seen_key, cutoff, to_fallible, first_error,
}

module _ {fl : Floats} (redis : Commands fl) (o : Options) where
  open fl use {F, at_most, literal}
  open redis use {Server, geo_add, zadd, zrem, zrange_below, zcard, show_place, south, north}

  less : F → F → Bool
  less a b = at_most a b && not (at_most b a)

  off_map : DriverLocation F → Bool
  off_map l =
      less l.lat south
      || less north l.lat
      || less l.lng (literal (ℤ.negsuc 179))
      || less (literal (pos 180)) l.lng

  -- What GEOADD and ZADD are given of the locations.
  abbrev Batch : Type 0
  Batch = List (Place F) × List (F × String)

  add_place : Time → DriverLocation F → Fallible Batch → Fallible Batch
  add_place ts l (err e) = err e
  add_place ts l (ok (ps, zs)) = ok (
    record { name = l.driver_id; lat = l.lat; lng = l.lng; dist = literal (pos 0) } ∷ ps,
    (literal (unix_milli ts), l.driver_id) ∷ zs,
  )

  -- The loop of `UpsertMany`, which returns at the first location that is no good.
  prepare : Time → List (DriverLocation F) → Fallible Batch
  prepare now [] = ok ([], [])
  prepare now (l ∷ ls) =
      let rest = prepare now ls in
      if same l.driver_id ""
      then err (plain "locations: empty driver id")
      else if off_map l
      then err (
          plain (
            "locations: driver "
            <> (l.driver_id <> (" has out-of-range coordinates " <> show_place l.lat l.lng))))
      else add_place (if is_zero l.last_seen then now else l.last_seen) l rest

  add_both : Batch → Server → Fallible {0} Unit × Server
  add_both (ps, zs) s =
      let (e, s1) = geo_add (geo_key o) ps s in
      let (f, s2) = zadd (seen_key o) zs s1 in (to_fallible (first_error e f), s2)

  remove_both : List String → Server → Fallible {0} Unit × Server
  remove_both ids s =
      let (e, s1) = zrem (geo_key o) ids s in
      let (f, s2) = zrem (seen_key o) ids s1 in (to_fallible (first_error e f), s2)

  module _ (w : Weather) (now : Time) where
    upsert_prepared : Fallible Batch → Server → Fallible {0} Unit × Server
    upsert_prepared (err e) s = (err e, s)
    upsert_prepared (ok b) s = with_retry w o.max_retries (add_both b) s

    -- `UpsertMany`.
    pub upsert_many : List (DriverLocation F) → Server → Fallible {0} Unit × Server
    upsert_many [] s = (ok tt, s)
    upsert_many (l ∷ ls) s = upsert_prepared (prepare now (l ∷ ls)) s

    -- `UpsertDriver`.
    pub upsert_driver : String → F → F → Server → Fallible {0} Unit × Server
    upsert_driver id lat lng s =
        upsert_many
          (record {
            tenant_id = "";
            driver_id = id;
            lat = lat;
            lng = lng;
            distance_meters = literal (pos 0);
            last_seen = zero_time;
          }
            ∷ [])
          s

    -- `RemoveDriver`.
    pub remove_driver : String → Server → Fallible {0} Unit × Server
    remove_driver id s = with_retry w o.max_retries (remove_both (id ∷ [])) s

    reaped : ℕ → Fallible {0} Unit × Server → Fallible ℕ × Server
    reaped n (err e, s) = (err (wrap "reap delete: " e ""), s)
    reaped n (ok u, s) = (ok n, s)

    reap_stale : Fallible (List String) × Server → Fallible ℕ × Server
    reap_stale (err e, s) = (err (wrap "reap scan: " e ""), s)
    reap_stale (ok [], s) = (ok 0, s)
    reap_stale (ok (i ∷ ids), s) =
        reaped (length (i ∷ ids)) (with_retry w o.max_retries (remove_both (i ∷ ids)) s)

    -- `Reap`: at most 10000 drivers in one sweep.
    pub reap : Server → Fallible ℕ × Server
    reap s =
        reap_stale (with_retry w o.max_retries (zrange_below (seen_key o) (cutoff o now) 10000) s)

    -- `Count`.
    pub count : Server → Fallible ℤ × Server
    count s = with_retry w o.max_retries (zcard (geo_key o)) s
