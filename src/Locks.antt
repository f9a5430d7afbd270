-- ===== src/Locks.antt =====
-- Driver leases over Redis: infrastructure/internal/locks/lease.go. The Redis commands are
-- parameters; the two Lua scripts are written out over them.
use ride_matching_engine.Common.{
  ℕ, ◌≡◌, ◌==◌, ◌/◌, Bool, true, false, String, ◌<>◌, ◌&&◌, ◌||◌, Option, none, some, List, [], ◌∷◌,
  ◌++◌, ℤ, pos, same, if◌then◌else◌,
}
use ride_matching_engine.Common.Int.{◌+ℤ◌, leb_ℤ}
use ride_matching_engine.Errors.{
  Error, Fallible, ok, err, plain, sentinel, wrap, has, not_acquired, redis_nil,
}
use ride_matching_engine.Time.{Time, Duration}
pub mod Views
pub mod Laws
pub mod Partitions
pub mod Geohash

-- SET NX PX, GET, DEL, PEXPIRE with a number of milliseconds, EXISTS, and EVAL, which runs a script
-- as one command.
pub record Commands : Type 1 where
  pub Server : Type 0
  pub set_nx : String → String → Duration → Server → Fallible Bool × Server
  pub read : String → Server → Option String
  pub del : String → Server → ℕ × Server
  pub pexpire : String → ℕ → Server → ℕ × Server
  pub exists : String → Server → Fallible ℕ × Server
  pub eval : (Server → ℕ × Server) → Server → Fallible ℕ × Server

pub record Lease : Type 0 where
  pub driver_id : String
  pub token : String
  pub expires_at : Time

-- `Options`, with the instant that `Now` returns.
pub record Options : Type 0 where
  pub tenant_id : String
  pub ttl : Duration
  pub partitions : ℤ
  pub now : Time

-- `DefaultOptions`, at the instant of the clock.
abbrev pub default_options : Time → Options
default_options now = record {
  tenant_id = "default";
  ttl = pos 10000000000;
  partitions = pos 256;
  now = now;
}

-- The checks and the default of `NewManager`.
pub new_manager : Options → Fallible Options
new_manager o =
    if same o.tenant_id ""
    then err (plain "locks: TenantID must be set")
    else if leb_ℤ o.ttl (pos 0)
    then err (plain "locks: TTL must be positive — a lease without one is a deadlock")
    else ok (record o { partitions = if leb_ℤ o.partitions (pos 0) then pos 256 else o.partitions })

pub key : Options → String → String
key o driver = "lock:driver:" <> (o.tenant_id <> (":" <> driver))

-- `TTL.Milliseconds()` of a positive duration.
unfoldable pub milliseconds : Duration → ℕ
milliseconds (pos n) = n / 1000000
milliseconds (ℤ.negsuc n) = 0

module _ (redis : Commands) (o : Options) where
  open redis use {Server, set_nx, read, del, pexpire, exists, eval}

  -- What `Acquire` makes of the reply to SET NX.
  unfoldable pub granted : String → String → String → Fallible Bool → Fallible Lease
  granted context driver token (err e) = err (wrap context e "")
  granted context driver token (ok false) = err (sentinel not_acquired)
  granted context driver token (ok true) =
      ok (record { driver_id = driver; token = token; expires_at = o.now +ℤ o.ttl })

  -- SET NX on a key, for a token that the random source yields or fails to yield.
  unfoldable pub claim :
      String → String → String → Fallible String → Server → Fallible Lease × Server
  claim context k driver (err e) s = (err e, s)
  claim context k driver (ok token) s =
      let (reply, s') = set_nx k token o.ttl s in (granted context driver token reply, s')

  -- `Acquire`.
  unfoldable pub acquire : String → Fallible String → Server → Fallible Lease × Server
  acquire driver token s =
      if same driver ""
      then (err (plain "locks: driverID must not be empty"), s)
      else claim "locks: acquire: " (key o driver) driver token s

  abbrev pub Acquired : Type 0
  Acquired = List Lease × Option Error × Server

  -- What `AcquireMany` does with one result.
  gather : List Lease → Fallible Lease × Server → (List Lease → Server → Acquired) → Acquired
  gather ls (ok l, s) next = next (ls ++ l ∷ []) s
  gather ls (err e, s) next = if has e not_acquired then next ls s else (ls, some e, s)

  acquire_from : List (String × Fallible String) → List Lease → Server → Acquired
  acquire_from [] ls s = (ls, none, s)
  acquire_from ((driver, token) ∷ rest) ls s =
      gather ls (acquire driver token s) (acquire_from rest)

  -- `AcquireMany`, each driver with the token drawn for it.
  pub acquire_many : List (String × Fallible String) → Server → Acquired
  acquire_many drivers s = acquire_from drivers [] s

  unfoldable pub is_token : Option String → String → Bool
  is_token none token = false
  is_token (some t) token = same t token

  -- `releaseScript`.
  pub release_script : String → String → Server → ℕ × Server
  release_script k token s = if is_token (read k s) token then del k s else (0, s)

  -- A script's integer reply; `redis.Nil` counts as 0.
  unfoldable pub reply_is_one : String → Fallible ℕ → Fallible Bool
  reply_is_one context (ok n) = ok (n == 1)
  reply_is_one context (err e) = if has e redis_nil then ok false else err (wrap context e "")

  -- `Release`.
  pub release : Lease → Server → Fallible Bool × Server
  release l s =
      let (reply, s') = eval (release_script (key o l.driver_id) l.token) s in
      if same l.driver_id "" || same l.token ""
      then (err (plain "locks: release needs a driver id and a token"), s)
      else (reply_is_one "locks: release: " reply, s')

  keep_first : Option Error → Fallible Bool → Option Error
  keep_first (some e) r = some e
  keep_first none (ok b) = none
  keep_first none (err e) = some e

  release_from : List Lease → Option Error → Server → Option Error × Server
  release_from [] first s = (first, s)
  release_from (l ∷ ls) first s =
      let (r, s') = release l s in release_from ls (keep_first first r) s'

  -- `ReleaseMany`.
  pub release_many : List Lease → Server → Option Error × Server
  release_many ls s = release_from ls none s

  -- `extendScript`.
  unfoldable pub extend_script : String → String → ℕ → Server → ℕ × Server
  extend_script k token ms s = if is_token (read k s) token then pexpire k ms s else (0, s)

  unfoldable pub extended : Lease → Fallible Bool → Fallible Lease
  extended l (err e) = err e
  extended l (ok false) = err (sentinel not_acquired)
  extended l (ok true) = ok (record l { expires_at = o.now +ℤ o.ttl })

  -- `Extend`.
  unfoldable pub extend : Lease → Server → Fallible Lease × Server
  extend l s =
      let (reply, s') = eval (extend_script (key o l.driver_id) l.token (milliseconds o.ttl)) s in
      (extended l (reply_is_one "locks: extend: " reply), s')

  held : Fallible ℕ → Fallible Bool
  held (ok n) = ok (n == 1)
  held (err e) = err (wrap "locks: exists: " e "")

  -- `IsHeld`.
  pub is_held : String → Server → Fallible Bool × Server
  is_held driver s = let (reply, s') = exists (key o driver) s in (held reply, s')
