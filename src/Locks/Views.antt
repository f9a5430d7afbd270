-- ===== src/Locks/Views.antt =====
-- What the leases rely on of the Redis commands: `read` shows the token at each key.
-- No key expires while a command runs.
use ride_matching_engine.Common.{ℕ, ◌≡◌, ◌≢◌, ◌⊎◌, true, false, String, none, some, ◌<◌}
use ride_matching_engine.Errors.{ok}
use ride_matching_engine.Time.{Duration}
use ride_matching_engine.Locks.{Commands}

pub record KeyLaws (redis : Commands) : Type 1 where
  -- SET NX writes a free key, and only that one; a held key it leaves alone.
  pub set_nx_won :
      (k v : String) (t : Duration) (s : redis.Server)
      → (redis.set_nx k v t s).0 ≡ ok true
      → (redis.read k s ≡ none) × (redis.read k (redis.set_nx k v t s).1 ≡ some v)
  pub set_nx_held :
      (k v w : String) (t : Duration) (s : redis.Server)
      → redis.read k s ≡ some w
      → redis.read k (redis.set_nx k v t s).1 ≡ some w
  pub set_nx_free :
      (k v : String) (t : Duration) (s : redis.Server)
      → redis.read k s ≡ none
      → (redis.set_nx k v t s).0 ≢ ok false
  pub set_nx_other :
      (k v : String) (t : Duration) (s : redis.Server) (j : String)
      → j ≢ k
      → redis.read j (redis.set_nx k v t s).1 ≡ redis.read j s
  -- DEL frees one key, and says whether it was held.
  pub del_own : (k : String) (s : redis.Server) → redis.read k (redis.del k s).1 ≡ none
  pub del_count :
      (k v : String) (s : redis.Server) → redis.read k s ≡ some v → (redis.del k s).0 ≡ 1
  pub del_other :
      (k : String) (s : redis.Server) (j : String)
      → j ≢ k
      → redis.read j (redis.del k s).1 ≡ redis.read j s
  -- PEXPIRE keeps every token, but a time of zero frees the key.
  pub pexpire_keeps :
      (k : String) (ms : ℕ) (s : redis.Server) (j : String)
      → (j ≢ k) ⊎ (0 < ms)
      → redis.read j (redis.pexpire k ms s).1 ≡ redis.read j s
  pub pexpire_zero : (k : String) (s : redis.Server) → redis.read k (redis.pexpire k 0 s).1 ≡ none
  -- EVAL that replies has run its script, once; one that fails has run it or has not.
  pub eval_done :
      (f : redis.Server → ℕ × redis.Server) (s : redis.Server) (n : ℕ)
      → (redis.eval f s).0 ≡ ok n
      → ((f s).0 ≡ n) × ((redis.eval f s).1 ≡ (f s).1)
  pub eval_once :
      (f : redis.Server → ℕ × redis.Server) (s : redis.Server)
      → ((redis.eval f s).1 ≡ s) ⊎ ((redis.eval f s).1 ≡ (f s).1)
