-- ===== src/Auth/Redis/Views.antt =====
-- What the store of API keys relies on of the Redis commands: `field` shows a hash's fields, `count`
-- the number at a key. No key expires while commands run: the rate limiter sets an expiry beyond the
-- minute that its key names.
use ride_matching_engine.Common.{ℕ, ◌<◌, suc, ◌≡◌, ◌≢◌, ◌⊎◌, String, Option, none, some}
use ride_matching_engine.Errors.{ok}
use ride_matching_engine.Queue.Codec.{Fields}
use ride_matching_engine.Auth.Redis.{Commands, find}

-- The fields of a hash after HSET.
abbrev pub over : Option String → Option String → Option String
over none old = old
over (some v) old = some v

pub record HashLaws (redis : Commands) : Type 1 where
  pub field : String → String → redis.Server → Option String
  -- HGETALL that replies shows the hash, and changes nothing.
  pub hgetall_shows :
      (k : String) (s : redis.Server) (fs : Fields) (name : String)
      → (redis.hgetall k s).0 ≡ ok fs
      → find name fs ≡ field k name s
  pub hgetall_keeps :
      (k : String) (s : redis.Server) (j name : String)
      → field j name (redis.hgetall k s).1 ≡ field j name s
  -- HSET that replies has set its fields, and those alone.
  pub hset_own :
      (k : String) (fs : Fields) (s : redis.Server) (name : String)
      → (redis.hset k fs s).0 ≡ none
      → field k name (redis.hset k fs s).1 ≡ over (find name fs) (field k name s)
  pub hset_other :
      (k : String) (fs : Fields) (s : redis.Server) (j name : String)
      → j ≢ k
      → field j name (redis.hset k fs s).1 ≡ field j name s
  -- SADD changes no hash, and EXISTS nothing.
  pub sadd_keeps :
      (k v : String) (s : redis.Server) (j name : String)
      → field j name (redis.sadd k v s).1 ≡ field j name s
  pub exists_keeps :
      (k : String) (s : redis.Server) (j name : String)
      → field j name (redis.exists k s).1 ≡ field j name s

pub record CountLaws (redis : Commands) : Type 1 where
  pub count : String → redis.Server → ℕ
  -- INCR counts up one key and replies with the new number; EXPIRE
  -- with a positive time keeps every number.
  pub incr_reply : (k : String) (s : redis.Server) → (redis.incr k s).0 ≡ suc (count k s)
  pub incr_own : (k : String) (s : redis.Server) → count k (redis.incr k s).1 ≡ suc (count k s)
  pub incr_other :
      (k : String) (s : redis.Server) (j : String) → j ≢ k → count j (redis.incr k s).1 ≡ count j s
  pub expire_keeps :
      (k : String) (ttl : ℕ) (s : redis.Server) (j : String)
      → 0 < ttl
      → count j (redis.expire k ttl s) ≡ count j s
  -- EVAL that replies has run its script, once; one that fails has run it or has not.
  pub eval_done :
      (f : redis.Server → ℕ × redis.Server) (s : redis.Server) (n : ℕ)
      → (redis.eval f s).0 ≡ ok n
      → ((f s).0 ≡ n) × ((redis.eval f s).1 ≡ (f s).1)
  pub eval_once :
      (f : redis.Server → ℕ × redis.Server) (s : redis.Server)
      → ((redis.eval f s).1 ≡ s) ⊎ ((redis.eval f s).1 ≡ (f s).1)
