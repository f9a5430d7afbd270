-- ===== src/Queue/Stream/Gauges.antt =====
-- The set-up of a Redis stream and its lengths: NewRedisStream, ensureGroup, Depth, Pending and
-- DeadLetterDepth of infrastructure/internal/queue/redis_stream.go.
use ride_matching_engine.Common.{
  ℕ, Bool, true, false, String, Option, none, some, List, [], ◌∷◌, same, if◌then◌else◌, leb,
}
use ride_matching_engine.Common.Chars.{cut_prefix}
use ride_matching_engine.Errors.{Error, Fallible, ok, err, plain, wrap, has, text, redis_nil}
use ride_matching_engine.Time.{Time}
use ride_matching_engine.Queue.Stream.{StreamOptions, stream_key, dead_key}

-- XGROUP CREATE from an entry with MKSTREAM, XINFO GROUPS as names with their lags, the count of
-- XPENDING, and XLEN.
pub record Lengths : Type 1 where
  pub Server : Type 0
  pub xgroup_create : String → String → String → Server → Option Error × Server
  pub xinfo_groups : String → Server → Fallible (List (String × ℕ))
  pub xpending_count : String → String → Server → Fallible ℕ
  pub xlen : String → Server → Fallible ℕ

-- `DefaultStreamOptions`, at the instant that the clock shows.
unfoldable pub default_stream_options : Time → StreamOptions
default_stream_options now = record {
  tenant_id = "default";
  group = "batchers";
  consumer = "";
  max_len = 1000000;
  max_deliveries = 5;
  now = now;
}

-- The checks of `NewRedisStream`.
unfoldable pub check_options : StreamOptions → Fallible StreamOptions
check_options o =
    if same o.tenant_id ""
    then err (plain "queue: TenantID must be set")
    else if same o.group ""
    then err (plain "queue: Group must be set")
    else if same o.consumer ""
    then err (plain "queue: Consumer must be set (unique per process)")
    else if leb o.max_len 0
    then err (plain "queue: MaxLen must be positive — an untrimmed stream grows forever")
    else if leb o.max_deliveries 0
    then err (plain "queue: MaxDeliveries must be positive")
    else ok o

is_found : Option String → Bool
is_found none = false
is_found (some rest) = true

-- `isGroupExists`, of an error.
pub is_group_exists : Error → Bool
is_group_exists e = is_found (cut_prefix "BUSYGROUP" (text e))

lag_of : String → List (String × ℕ) → ℕ
lag_of group [] = 0
lag_of group ((name, lag) ∷ gs) =
    let rest = lag_of group gs in if same name group then lag else rest

module _ (redis : Lengths) (o : StreamOptions) where
  open redis use {Server, xgroup_create, xinfo_groups, xpending_count, xlen}

  unfoldable pub tolerated : Option Error → Option Error
  tolerated none = none
  tolerated (some e) =
      if is_group_exists e then none else some (wrap "queue: create consumer group: " e "")

  -- `ensureGroup`.
  unfoldable pub ensure_group : Server → Option Error × Server
  ensure_group s = let (e, s') = xgroup_create (stream_key o) o.group "0" s in (tolerated e, s')

  unfoldable pub checked : Fallible StreamOptions → Server → Option Error × Server
  checked (err e) s = (some e, s)
  checked (ok o') s = ensure_group s

  -- `NewRedisStream`, behind its connection.
  unfoldable pub new_redis_stream : Server → Option Error × Server
  new_redis_stream s = checked (check_options o) s

  lag_reply : Fallible (List (String × ℕ)) → Fallible ℕ
  lag_reply (err e) = err (wrap "queue: depth: " e "")
  lag_reply (ok gs) = ok (lag_of o.group gs)

  -- `Depth`.
  pub depth : Server → Fallible ℕ
  depth s = lag_reply (xinfo_groups (stream_key o) s)

  length_reply : String → Fallible ℕ → Fallible ℕ
  length_reply context (ok n) = ok n
  length_reply context (err e) = if has e redis_nil then ok 0 else err (wrap context e "")

  -- `Pending`.
  pub pending : Server → Fallible ℕ
  pending s = length_reply "queue: pending: " (xpending_count (stream_key o) o.group s)

  -- `DeadLetterDepth`.
  pub dead_letter_depth : Server → Fallible ℕ
  dead_letter_depth s = length_reply "queue: dead-letter depth: " (xlen (dead_key o) s)
