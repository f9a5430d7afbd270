-- ===== src/Tests/Leases.antt =====
-- Two batchers after the same drivers.
use Prim.Native.String.{len, slice}
use ride_matching_engine.Common.{
  Option, ℤ, if◌then◌else◌, ◌<>◌, ◌≢◌, String, same, ◌≡◌, refl, none, some, [], ◌∷◌, All, pos, true,
  ◌<◌,
}
use ride_matching_engine.Common.Int.{◌+ℤ◌}
use ride_matching_engine.Errors.{ok}
use ride_matching_engine.Locks.{
  Lease, Options, key, acquire, claim, granted, is_token, extend_script, extended, reply_is_one,
  acquire_many, release, extend, milliseconds,
}
use ride_matching_engine.Locks.Laws.{
  IsCurrent, acquire-IsCurrent, release_fenced, extend_fenced, acquire_many-IsCurrent,
}
use ride_matching_engine.Common.Decimal.{itoa}
use ride_matching_engine.Locks.Partitions.{
  partition_key, partition_name, acquire_partition, release_partition, acquire_partition_fenced,
}
use ride_matching_engine.Tests.Numbers.{number}
use ride_matching_engine.Tests.Keys.{Keys, keys, keys-KeyLaws}

abbrev options : Options
options = record { tenant_id = "sf"; ttl = pos 10000000000; partitions = pos 256; now = pos 0 }

abbrev free : Keys
free k = none

abbrev lease : Lease
lease = record { driver_id = "d1"; token = "t1"; expires_at = pos 10000000000 }

abbrev stale : Lease
stale = record { driver_id = "d1"; token = "t0"; expires_at = pos 0 }

abbrev taken : Keys
taken k = some "t1"

acquire-IsCurrent_example :
    (lease.driver_id ≡ "d1")
    × (ok "t1" ≡ ok lease.token)
    × (free (key options "d1") ≡ none)
    × IsCurrent keys keys-KeyLaws options (acquire keys options "d1" (ok "t1") free).1 lease
unfolding acquire claim granted same ◌+ℤ◌
acquire-IsCurrent_example =
    acquire-IsCurrent keys keys-KeyLaws options "d1" (ok "t1") free lease refl

release_fenced_example :
    (¬ IsCurrent keys keys-KeyLaws options taken stale
      → (release keys options stale taken).1 ≡ taken)
    × ((release keys options stale taken).0 ≡ ok true
        → IsCurrent keys keys-KeyLaws options taken stale
          × ((release keys options stale taken).1 (key options "d1") ≡ none))
release_fenced_example = release_fenced keys keys-KeyLaws options stale taken

extend_fenced_example :
    IsCurrent keys keys-KeyLaws options taken lease
    × (lease.driver_id ≡ "d1")
    × (lease.token ≡ "t1")
    × (0 < milliseconds options.ttl
        → IsCurrent keys keys-KeyLaws options (extend keys options lease taken).1 lease)
    × (milliseconds options.ttl ≡ 0 → (extend keys options lease taken).1 (key options "d1") ≡ none)
unfolding extend extend_script extended reply_is_one is_token same milliseconds ◌+ℤ◌
extend_fenced_example = extend_fenced keys keys-KeyLaws options lease lease taken refl

acquire_many-IsCurrent_example :
    All
      (IsCurrent keys keys-KeyLaws options
        (acquire_many keys options (("d1", ok "t1") ∷ ("d2", ok "t2") ∷ []) free).2)
      (acquire_many keys options (("d1", ok "t1") ∷ ("d2", ok "t2") ∷ []) free).0
acquire_many-IsCurrent_example =
    acquire_many-IsCurrent keys keys-KeyLaws options (("d1", ok "t1") ∷ ("d2", ok "t2") ∷ []) free

abbrev scan : String → Option ℤ
scan s = if same (slice s 0 12) "__partition_" then some (number (slice s 12 (len s))) else none

abbrev quote : String → String
quote s = "\"" <> (s <> "\"")

abbrev district : Lease
district = record { driver_id = "__partition_7"; token = "t1"; expires_at = pos 10000000000 }

acquire_partition_fenced_example :
    (free (partition_key options (pos 7)) ≡ none)
    × ((acquire_partition keys options (pos 7) (ok "t1") free).1 (partition_key options (pos 7))
        ≡ some "t1")
    × (free (partition_key options (pos 7)) ≢ some "t1"
        → (release_partition keys options scan quote district free).1 ≡ free)
    × ((release_partition keys options scan quote district free).0 ≡ ok true
        → (release_partition keys options scan quote district free).1
            (partition_key options (pos 7))
          ≡ none)
unfolding acquire_partition partition_name claim granted number itoa same ◌+ℤ◌ ◌<>◌
acquire_partition_fenced_example =
    acquire_partition_fenced keys keys-KeyLaws options scan quote (pos 7) (ok "t1") free free
      district refl refl
