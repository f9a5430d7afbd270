-- ===== src/Queue/Stream/Views.antt =====
-- What the queue relies on of Redis Streams, over views of the server's state.
use ride_matching_engine.Common.{ℕ, ◌⊎◌, ◌≡◌, String, none, List, Memᴰ}
use ride_matching_engine.Errors.{Error, ok, err}
use ride_matching_engine.Queue.Codec.{Fields}
use ride_matching_engine.Queue.Stream.{Commands}

-- `Pending s key group id`: the entry is in the group's pending list. `Unread s key fields`: an entry
-- with these fields waits for its first delivery. `Stored s key fields`: the stream holds such an
-- entry. `Trimmed s key fields`: such an entry was removed to keep its stream within its length cap.
-- `Refused s key fields`: the server answered an XADD of these fields with an error.
pub record StreamLaws (redis : Commands) : Type 1 where
  pub Pending : redis.Server → String → String → String → Type 0
  pub Unread : redis.Server → String → Fields → Type 0
  pub Stored : redis.Server → String → Fields → Type 0
  pub Trimmed : redis.Server → String → Fields → Type 0
  pub Refused : redis.Server → String → Fields → Type 0
  -- XADD touches no pending list, and removes entries by trimming only.
  pub xadd-Pending :
      (k : String) (cap : ℕ) (f : Fields) (s : redis.Server) (key group i : String)
      → Pending s key group i
      → Pending (redis.xadd k cap f s).1 key group i
  pub xadd-Unread :
      (k : String) (cap : ℕ) (f : Fields) (s : redis.Server) (key : String) (g : Fields)
      → Unread s key g
      → Unread (redis.xadd k cap f s).1 key g ⊎ Trimmed (redis.xadd k cap f s).1 key g
  pub xadd-Stored :
      (k : String) (cap : ℕ) (f : Fields) (s : redis.Server) (key : String) (g : Fields)
      → Stored s key g
      → Stored (redis.xadd k cap f s).1 key g ⊎ Trimmed (redis.xadd k cap f s).1 key g
  pub xadd-Trimmed :
      (k : String) (cap : ℕ) (f : Fields) (s : redis.Server) (key : String) (g : Fields)
      → Trimmed s key g
      → Trimmed (redis.xadd k cap f s).1 key g
  pub xadd-Refused :
      (k : String) (cap : ℕ) (f : Fields) (s : redis.Server) (key : String) (g : Fields)
      → Refused s key g
      → Refused (redis.xadd k cap f s).1 key g
  -- An XADD that returns an id has appended the entry.
  pub xadd_done :
      (k : String) (cap : ℕ) (f : Fields) (s : redis.Server) (i : String)
      → (redis.xadd k cap f s).0 ≡ ok i
      → Unread (redis.xadd k cap f s).1 k f × Stored (redis.xadd k cap f s).1 k f
  -- An XADD that fails was refused by the server; or was carried out, its reply being lost; or the
  -- connection was lost before it, and so before an XACK that is sent right behind it.
  pub xadd_failed :
      (k : String) (cap : ℕ) (f : Fields) (s : redis.Server) (e : Error)
      → (redis.xadd k cap f s).0 ≡ err e
      → Refused (redis.xadd k cap f s).1 k f
        ⊎ (Stored (redis.xadd k cap f s).1 k f
            ⊎ ((key group i : String) (ids : List String)
                → Pending (redis.xadd k cap f s).1 key group i
                → Pending (redis.xack key group ids (redis.xadd k cap f s).1).1 key group i))
  -- XACK takes the given ids out of one pending list, and removes no entry.
  pub xack-Pending :
      (k g : String) (ids : List String) (s : redis.Server) (i : String)
      → ¬ Memᴰ i ids
      → Pending s k g i
      → Pending (redis.xack k g ids s).1 k g i
  pub xack-Unread :
      (k g : String) (ids : List String) (s : redis.Server) (key : String) (f : Fields)
      → Unread s key f
      → Unread (redis.xack k g ids s).1 key f
  pub xack-Stored :
      (k g : String) (ids : List String) (s : redis.Server) (key : String) (f : Fields)
      → Stored s key f
      → Stored (redis.xack k g ids s).1 key f
  pub xack-Trimmed :
      (k g : String) (ids : List String) (s : redis.Server) (key : String) (f : Fields)
      → Trimmed s key f
      → Trimmed (redis.xack k g ids s).1 key f
  pub xack-Refused :
      (k g : String) (ids : List String) (s : redis.Server) (key : String) (f : Fields)
      → Refused s key f
      → Refused (redis.xack k g ids s).1 key f
  pub xack_done :
      (k g : String) (ids : List String) (s : redis.Server) (i : String)
      → (redis.xack k g ids s).0 ≡ none
      → Memᴰ i ids
      → ¬ Pending (redis.xack k g ids s).1 k g i
