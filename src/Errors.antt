-- ===== src/Errors.antt =====
-- Go error values: `errors.New`, the exported error variables of the packages, and the wrapping of
-- `fmt.Errorf` with `%w`. `has` is `errors.Is`.
use ride_matching_engine.Common.{ℕ, Bool, false, String, ◌<>◌, ◌==◌}

-- The named error variables, the standard library's and the Redis client's among them.
pub data Sentinel : Type 0 where
  engine_unavailable timeout invalid_batch graph_not_loaded batch_too_large cancelled : Sentinel
  empty_request_id malformed_message : Sentinel
  not_acquired : Sentinel
  invalid_key rate_limited key_not_found : Sentinel
  context_canceled deadline_exceeded redis_nil : Sentinel

-- `plain s` is an error with no name. `wrap before e after` is an error that wraps `e`, its text
-- between two others.
pub data Error : Type 0 where
  plain : String → Error
  sentinel : Sentinel → Error
  wrap : String → Error → String → Error

abbrev pub code : Sentinel → ℕ
code engine_unavailable = 0
code timeout = 1
code invalid_batch = 2
code graph_not_loaded = 3
code batch_too_large = 4
code cancelled = 5
code empty_request_id = 6
code malformed_message = 7
code not_acquired = 8
code context_canceled = 9
code deadline_exceeded = 10
code redis_nil = 11
code invalid_key = 12
code rate_limited = 13
code key_not_found = 14

-- `errors.Is(err, target)`.
unfoldable pub has : Error → Sentinel → Bool
has (plain s) target = false
has (sentinel s) target = code s == code target
has (wrap before e after) target = has e target

pub sentinel_text : Sentinel → String
sentinel_text engine_unavailable = "matching engine unavailable"
sentinel_text timeout = "matching engine timed out"
sentinel_text invalid_batch = "invalid batch"
sentinel_text graph_not_loaded = "road graph not loaded on engine"
sentinel_text batch_too_large = "batch too large for engine"
sentinel_text cancelled = "call cancelled"
sentinel_text empty_request_id = "queue: RequestID must be set"
sentinel_text malformed_message = "queue: malformed message"
sentinel_text not_acquired = "locks: lease is held by someone else"
sentinel_text context_canceled = "context canceled"
sentinel_text deadline_exceeded = "context deadline exceeded"
sentinel_text redis_nil = "redis: nil"
sentinel_text invalid_key = "auth: invalid API key"
sentinel_text rate_limited = "auth: rate limit exceeded"
sentinel_text key_not_found = "auth: key not found"

-- `err.Error()`.
pub text : Error → String
unfolding sentinel_text
text (plain s) = s
text (sentinel s) = sentinel_text s
text (wrap before e after) = before <> text e <> after

-- A Go result `(value, error)`.
pub data Fallible {ℓ} (A : Type ℓ) : Type ℓ where
  ok : A → Fallible A
  err : Error → Fallible A
