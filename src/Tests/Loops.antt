-- ===== src/Tests/Loops.antt =====
-- The gathering loop, over claims that fill a window of two and a cancellation.
use ride_matching_engine.Common.{same, ◌≡◌, refl, false, List, [], ◌∷◌, ◌++◌, pos, arith}
use ride_matching_engine.Common.Int.{◌-ℤ◌, ◌+ℤ◌}
use ride_matching_engine.Errors.{ok, err, sentinel, deadline_exceeded}
use ride_matching_engine.Locations.{DriverLocation}
use ride_matching_engine.Batcher.Loop.{
  Turn, cancelled, ticked, consumed, Loop, run, room, turn, gathered, new_window, flush_if_any,
}
use ride_matching_engine.Batcher.Loop.Laws.{Batches, concat, claimed, log, start, run_exactly_once}
use ride_matching_engine.Batcher.Loop.Bounds.{IsBounded, run-IsBounded}
use ride_matching_engine.Batcher.Config.{
  Config, default_config, new, IsRunnable, new-IsRunnable, apply_defaults, check,
}
use ride_matching_engine.Tests.Numbers.{whole}
use ride_matching_engine.Tests.Batches.{first, second, driver}

abbrev turns : List (Turn whole.F)
turns =
    consumed (pos 1) (pos 1) (ok (first ∷ []))
    ∷ consumed (pos 2) (pos 2) (err (sentinel deadline_exceeded))
    ∷ consumed (pos 3) (pos 3) (ok (second ∷ []))
    ∷ ticked (pos 4)
    ∷ consumed (pos 5) (pos 5) (ok (first ∷ []))
    ∷ cancelled
    ∷ []

abbrev ended : Loop whole.F (Batches whole.F)
ended = run (pos 3000000000) 2 log turns (start (pos 3000000000) 2 (pos 0))

run_exactly_once_example :
    (concat ended.world ++ ended.pending ≡ claimed turns)
    × (ended.is_running ≡ false → concat ended.world ≡ claimed turns)
run_exactly_once_example = run_exactly_once (pos 3000000000) 2 (pos 0) turns

run-IsBounded_example : IsBounded (pos 3000000000) 2 ended
unfolding room turn gathered new_window flush_if_any ◌-ℤ◌ ◌+ℤ◌
run-IsBounded_example =
    run-IsBounded (pos 3000000000) 2 turns (start (pos 3000000000) 2 (pos 0)) (omega arith, tt)
      (omega arith, (omega arith, (omega arith, tt)))

abbrev shortlists : List (List (DriverLocation whole.F))
shortlists = (driver ∷ []) ∷ (driver ∷ []) ∷ []

abbrev empty_config : Config whole.F
empty_config = record (default_config whole) { window = pos 0; solve_timeout = pos 1000000000 }

new-IsRunnable_example : IsRunnable whole (apply_defaults whole empty_config)
unfolding new apply_defaults check same
new-IsRunnable_example =
    new-IsRunnable whole refl empty_config (apply_defaults whole empty_config) refl
