-- ===== src/Tests/Messages.antt =====
-- A published request read back, and what the stream hands out of two entries, one of them malformed.
use ride_matching_engine.Common.{
  same, same-false, ◌≡◌, refl, List, [], ◌∷◌, All, pos, String, false, ◌↔◌, some,
}
use ride_matching_engine.Errors.{ok}
use ride_matching_engine.Time.{from_milli, unix_milli, is_zero}
use ride_matching_engine.Queue.{Message}
use ride_matching_engine.Queue.Codec.{ReadsBack, decode, to_fields, accepted_at, decode-to_fields}
use ride_matching_engine.Queue.Stream.{reclaim}
use ride_matching_engine.Queue.Stream.Reclaim.{IsFit, reclaim-IsFit}
use ride_matching_engine.Engine.{status, unavailable, classify, retryable, Context, Reply, answer}
use ride_matching_engine.Engine.Laws.{IsFinal, retryable-classify_iff}
use ride_matching_engine.Common.Decimal.{itoa}
use ride_matching_engine.Tests.Numbers.{whole, numerals, number}
use ride_matching_engine.Tests.Servers.{Memory, memory}
use ride_matching_engine.Tests.Batches.{request, options, server}

numbers-ReadsBack : ReadsBack whole numerals options.now (request "r1")
unfolding number itoa unix_milli is_zero same
numbers-ReadsBack = record {
  lat_back = refl;
  lng_back = refl;
  instant_back = refl;
  attempts_back = refl;
}

decode-to_fields_example :
    decode whole numerals
      (record { id = "1-0"; values = to_fields whole options.now (request "r1") })
    ≡ ok (record {
      id = "1-0";
      request = record (request "r1") {
        requested_at =
            from_milli (unix_milli (accepted_at options.now (request "r1").requested_at));
      };
      deliveries = 0;
    })
unfolding same
decode-to_fields_example =
    decode-to_fields whole numerals options.now "1-0" (request "r1") numbers-ReadsBack
      (same-false "r1" "" refl)

abbrev stocked : Memory
stocked = record server {
  entries =
      record { id = "1-0"; values = to_fields whole options.now (request "r1") }
      ∷ record { id = "2-0"; values = ("lat", "1") ∷ [] }
      ∷ [];
  counts = ("1-0", 2) ∷ ("2-0", 7) ∷ [];
}

reclaim-IsFit_example :
    All
      (IsFit whole numerals (memory false) options (("1-0", 2) ∷ ("2-0", 7) ∷ []))
      (reclaim whole numerals (memory false) options (pos 60000000000) 500 stocked).0
reclaim-IsFit_example =
    reclaim-IsFit whole numerals (memory false) options (pos 60000000000) 500 stocked

abbrev claimed : Message whole.F
claimed = record {
  id = "1-0";
  request = record (request "r1") { requested_at = pos 1700000000123000000 };
  deliveries = 1;
}

abbrev api : Context → Reply (List String)
api ctx = answer ("sf" ∷ "nyc" ∷ [])

abbrev call : Context
call = record { deadline = some (pos 500) }

retryable-classify_iff_example :
    (retryable (classify (some (status unavailable "gone"))) ≡ false)
    ↔ IsFinal (status unavailable "gone")
retryable-classify_iff_example = retryable-classify_iff (status unavailable "gone")

abbrev solve : Context → String → Reply String
solve ctx req = answer "r1 to d1"
