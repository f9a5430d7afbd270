-- ===== src/Tests/Batches.antt =====
-- A batch of two riders: the engine matches the first one only.
use ride_matching_engine.Common.{
  ◌≡◌, refl, ◌⊎◌, Bool, true, false, String, none, some, List, [], ◌∷◌, Memᴰ, All, pos, map, same,
  same-false,
}
use ride_matching_engine.Errors.{ok, plain, wrap}
use ride_matching_engine.Locations.{DriverLocation}
use ride_matching_engine.Queue.{RideRequest, Message, retried}
use ride_matching_engine.Queue.Stream.{StreamOptions, stream_queue, dead_letter}
use ride_matching_engine.Queue.Stream.NoLoss.{InPel, Requeued, GivenUp}
use ride_matching_engine.Queue.Stream.DeadLetter.{promises, dead_letter_refused}
use ride_matching_engine.Batcher.Config.{default_config}
use ride_matching_engine.Batcher.Batch.{full, Outside, World}
use ride_matching_engine.Batcher.Settle.{process_batch, Settling, settle_all}
use ride_matching_engine.Batcher.Settle.Keeps.{Distinct, Kept}
use ride_matching_engine.Batcher.Settle.NoLoss.{WasMatched, process_batch-keeps}
use ride_matching_engine.Batcher.Settle.Accounts.{Accounts, settle_all-Accounts}
use ride_matching_engine.Batcher.Settle.OnStream.{process_batch_outcome}
use ride_matching_engine.Tests.Numbers.{whole, numerals}
use ride_matching_engine.Tests.Servers.{Memory, memory, memory-StreamLaws, is_pending}

abbrev pub request : String → RideRequest whole.F
request id = record {
  request_id = id;
  tenant_id = "sf";
  rider_id = "rider";
  lat = pos 37;
  lng = pos 122;
  requested_at = pos 1700000000123000000;
  match_attempts = pos 2;
}

abbrev pub first : Message whole.F
first = record { id = "1-0"; request = request "r1"; deliveries = 1 }

abbrev pub second : Message whole.F
second = record { id = "2-0"; request = request "r2"; deliveries = 1 }

abbrev pub two : List (Message whole.F)
two = first ∷ second ∷ []

abbrev pub options : StreamOptions
options = record {
  tenant_id = "sf";
  group = "batchers";
  consumer = "batcher-1";
  max_len = 1000000;
  max_deliveries = 5;
  now = pos 1700000001000000000;
}

abbrev pub driver : DriverLocation whole.F
driver = record {
  tenant_id = "sf";
  driver_id = "d1";
  lat = pos 37;
  lng = pos 122;
  distance_meters = pos 10;
  last_seen = pos 1700000000000000000;
}

abbrev pub outside : List (DriverLocation whole.F) → Outside whole.F
outside near = record {
  nearby_many = λ qs. ok (map (λ q. near) qs);
  solve = λ req. (some (("r1", "d1") ∷ []), none);
  range = λ ds. ds;
  started = pos 1700000001000000000;
  solve_took = pos 5000000;
  finished = pos 1700000001010000000;
}

abbrev pub server : Memory
server = record { stored = []; refused = []; pending = λ k g i. true; entries = []; counts = [] }

abbrev pub world : World Memory
world = record {
  queue = server;
  stats = record {
    batches = 0;
    requests = 0;
    matched = 0;
    unmatched = 0;
    requeued = 0;
    exhausted = 0;
    dead_lettered = 0;
    solve_errors = 0;
  };
  emitted = [];
}

two-Distinct : Distinct two
unfolding same
two-Distinct = ((same-false "2-0" "1-0" refl, tt), (tt, tt))

-- Both messages are pending.
two_pending :
    (b : Bool)
    → All (λ m. InPel whole numerals (memory b) options (memory-StreamLaws b) server m.id) two
two_pending b = (is_pending b server _ _ "1-0" refl, (is_pending b server _ _ "2-0" refl, tt))

abbrev KeptAfter : Message whole.F → Type 0
unfolding promises
KeptAfter m =
    Kept (stream_queue whole numerals (memory false) options)
      (promises whole numerals (memory false) options (memory-StreamLaws false))
      (process_batch (stream_queue whole numerals (memory false) options) (default_config whole)
        (outside (driver ∷ [])) two full world).queue
      m

process_batch-keeps_example :
    WasMatched (default_config whole) (outside (driver ∷ [])) two second ⊎ KeptAfter second
unfolding promises KeptAfter
process_batch-keeps_example =
    process_batch-keeps (stream_queue whole numerals (memory false) options)
      (promises whole numerals (memory false) options (memory-StreamLaws false))
      (default_config whole) (outside (driver ∷ [])) two full world two-Distinct (two_pending false)
      second (Memᴰ.tail (Memᴰ.head refl))

-- The same batch on a server that refuses every XADD.
abbrev after : Memory
after =
    (process_batch (stream_queue whole numerals (memory true) options) (default_config whole)
      (outside (driver ∷ [])) two full world).queue

process_batch_outcome_example :
    WasMatched (default_config whole) (outside (driver ∷ [])) two second
    ⊎ (InPel whole numerals (memory true) options (memory-StreamLaws true) after second.id
        ⊎ (Requeued whole numerals
              (memory true)
              options
              (memory-StreamLaws true)
              after
              (retried second.request)
            ⊎ GivenUp whole numerals (memory true) options (memory-StreamLaws true) after second))
process_batch_outcome_example =
    process_batch_outcome whole numerals (memory true) options (memory-StreamLaws true)
      (default_config whole) (outside (driver ∷ [])) two full world two-Distinct (two_pending true)
      second (Memᴰ.tail (Memᴰ.head refl))

abbrev alone : World Memory
alone =
    process_batch (stream_queue whole numerals (memory false) options) (default_config whole)
      (outside []) two full world

abbrev settling : Settling Memory
settling = record { queue = server; ack_ids = []; requeue = 0; exhausted = 0 }

settle_all-Accounts_example :
    Accounts
      (stream_queue whole numerals (memory false) options)
      (default_config whole)
      ("r1" ∷ [])
      two
      settling
      (settle_all
        (stream_queue whole numerals (memory false) options)
        (default_config whole)
        ("r1" ∷ [])
        two
        settling)
settle_all-Accounts_example =
    settle_all-Accounts (stream_queue whole numerals (memory false) options) (default_config whole)
      ("r1" ∷ []) two settling

dead_letter_refused_example :
    ((dead_letter whole numerals (memory true) options first "poison" server).0
      ≡ some (wrap "queue: dead-letter: " (plain "OOM command not allowed") ""))
    × ¬ InPel whole numerals
        (memory true)
        options
        (memory-StreamLaws true)
        (dead_letter whole numerals (memory true) options first "poison" server).1
        first.id
unfolding same
dead_letter_refused_example =
    dead_letter_refused whole numerals (memory true) options (memory-StreamLaws true) first "poison"
      server (plain "OOM command not allowed") (same-false "1-0" "" refl) refl refl
