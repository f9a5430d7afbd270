-- ===== src/Locations/Redis/Reaper.antt =====
-- The goroutine of StartReaper of infrastructure/internal/locations/redis.go.
use ride_matching_engine.Common.{ℕ, ◌≡◌, refl, ap, List, [], ◌∷◌, ◌++◌}
use ride_matching_engine.Errors.{Fallible}
use ride_matching_engine.Floats.{Floats}
use ride_matching_engine.Time.{Time}
use ride_matching_engine.Locations.Retry.{Weather}
use ride_matching_engine.Locations.Redis.{Options, Commands}
use ride_matching_engine.Locations.Redis.Writes.{reap}

-- One turn of its select: the ticker, at an instant and in a weather, or the end of the context.
pub data Turn : Type 0 where
  tick : Weather → Time → Turn
  cancelled : Turn

module _ {fl : Floats} (redis : Commands fl) (o : Options) where
  open redis use {Server}

  -- What `onReap` is given, and the server. A list that ends is a reaper that goes on.
  unfoldable pub reaper : List Turn → Server → List (Fallible ℕ) × Server
  reaper [] s = ([], s)
  reaper (cancelled ∷ ts) s = ([], s)
  reaper (tick w now ∷ ts) s =
      let (r, s1) = reap redis o w now s in let (rs, s2) = reaper ts s1 in (r ∷ rs, s2)

  -- Behind the end of the context nothing is reaped any more: the server stays as it is, and nothing
  -- is reported.
  reaper_stops :
      (before after : List Turn) (s : Server)
      → reaper (before ++ cancelled ∷ after) s ≡ reaper before s
  unfolding reaper
  reaper_stops [] after s = refl
  reaper_stops (cancelled ∷ before) after s = refl
  reaper_stops (tick w now ∷ before) after s =
      let (r, s1) = reap redis o w now s in
      ap (λ (x : List (Fallible ℕ) × Server). (r ∷ x.0, x.1)) (reaper_stops before after s1)
