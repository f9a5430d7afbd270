-- ===== src/Auth/Redis.antt =====
-- API keys in Redis: infrastructure/internal/auth/redis_store.go. The Redis commands are parameters;
-- the rate limiter's Lua script is written out over them.
use ride_matching_engine.Common.{
  ℕ, zero, suc, ◌+◌, ◌-◌, ◌/◌, ◌==◌, Bool, true, false, not, String, ◌<>◌, Option, none, some, List,
  [], ◌∷◌, ◌++◌, ℤ, pos, negsuc, same, if◌then◌else◌,
}
use ride_matching_engine.Common.Decimal.{itoa}
use ride_matching_engine.Common.Int.{◌+ℤ◌, ◌-ℤ◌, leb_ℤ, ltb_ℤ, sub_ℕ}
use ride_matching_engine.Errors.{Error, Fallible, ok, err, plain, sentinel, wrap, key_not_found}
use ride_matching_engine.Time.{Time, Duration, is_zero, unix_milli, from_milli, zero_time}
use ride_matching_engine.Queue.Codec.{Fields, Numerals}
use ride_matching_engine.Auth.{ApiKey, generate_key, Store}
pub mod Views
pub mod Records
pub mod Limits
pub mod Saves
pub mod Rotation
pub mod Revocation

-- HGETALL, HSET, SADD, EXISTS, INCR, EXPIRE, SMEMBERS, and EVAL, which runs a script as one command.
pub record Commands : Type 1 where
  pub Server : Type 0
  pub hgetall : String → Server → Fallible Fields × Server
  pub hset : String → Fields → Server → Option Error × Server
  pub sadd : String → String → Server → Option Error × Server
  pub exists : String → Server → Fallible ℕ × Server
  pub incr : String → Server → ℕ × Server
  pub expire : String → ℕ → Server → Server
  pub smembers : String → Server → Fallible (List String) × Server
  pub eval : (Server → ℕ × Server) → Server → Fallible ℕ × Server

unfoldable pub key_path : String → String
key_path id = "apikey:" <> id

unfoldable pub tenant_path : String → String
tenant_path tenant = "apikey:tenant:" <> tenant

-- `fields[k]`, with whether it is there.
unfoldable pub find : String → Fields → Option String
find k [] = none
find k ((j, v) ∷ fs) = let rest = find k fs in if same j k then some v else rest

abbrev pub or_empty : Option String → String
or_empty none = ""
or_empty (some v) = v

abbrev optional : Bool → String → String → Fields
optional false k v = []
optional true k v = (k, v) ∷ []

-- The hash that `save` writes.
unfoldable pub to_hash : ApiKey → Fields
to_hash k =
    ("tenant_id", k.tenant_id)
    ∷ ("name", k.name)
    ∷ ("secret_hash", k.secret_hash)
    ∷ ("created_at", itoa (unix_milli k.created_at))
    ∷ ("rate_limit", itoa k.rate_limit_per_minute)
    ∷ (optional (not (is_zero k.expires_at)) "expires_at" (itoa (unix_milli k.expires_at))
        ++ (optional (not (is_zero k.revoked_at)) "revoked_at" (itoa (unix_milli k.revoked_at))
            ++ optional (not (same k.rotated_from "")) "rotated_from" k.rotated_from))

-- `ms` of `Lookup`.
abbrev pub from_parsed : Option ℤ → Time
from_parsed none = zero_time
from_parsed (some ms) = from_milli ms

abbrev pub instant : Numerals → Option String → Time
instant n none = zero_time
instant n (some v) = from_parsed (n.parse_int v)

unfoldable pub of_hash : Numerals → String → Fields → ApiKey
of_hash n id fs = record {
  key_id = id;
  tenant_id = or_empty (find "tenant_id" fs);
  name = or_empty (find "name" fs);
  secret_hash = or_empty (find "secret_hash" fs);
  created_at = instant n (find "created_at" fs);
  expires_at = instant n (find "expires_at" fs);
  revoked_at = instant n (find "revoked_at" fs);
  rate_limit_per_minute = n.atoi (or_empty (find "rate_limit" fs));
  rotated_from = or_empty (find "rotated_from" fs);
}

-- The bytes that `GenerateKey` draws.
pub record Draws : Type 0 where
  pub id : List ℕ
  pub secret : List ℕ

-- `now.Unix() / 60`: the seconds round down, the division towards zero.
unfoldable pub window_of : Time → ℤ
window_of (pos n) = pos (n / 1000000000 / 60)
window_of (negsuc n) = sub_ℕ 0 ((n / 1000000000 + 1) / 60)

unfoldable pub rate_key : Time → String → String
rate_key now id = "ratelimit:" <> (id <> (":" <> itoa (window_of now)))

unfoldable pub remaining : ℤ → ℕ → ℤ
remaining limit n = if ltb_ℤ (limit -ℤ pos n) (pos 0) then pos 0 else limit -ℤ pos n

abbrev first_error : Option Error → Option Error → Option Error
first_error none f = f
first_error (some e) f = some e

abbrev saved : Option Error → Option Error
saved none = none
saved (some e) = some (wrap "auth: save key: " e "")

unfoldable pub looked_up : Numerals → String → Fallible Fields → Fallible ApiKey
looked_up n id (err e) = err (wrap "auth: lookup: " e "")
looked_up n id (ok []) = err (sentinel key_not_found)
looked_up n id (ok (f ∷ fs)) = ok (of_hash n id (f ∷ fs))

-- The record that `Create` saves.
unfoldable pub new_key : (String → String) → Draws → Time → String → String → Duration → ℤ → ApiKey
new_key hash_secret d now tenant name ttl limit =
    let (raw, id, hash) = generate_key hash_secret d.id d.secret in
    record {
      key_id = id;
      tenant_id = tenant;
      name = name;
      secret_hash = hash;
      created_at = now;
      expires_at = if ltb_ℤ (pos 0) ttl then now +ℤ ttl else zero_time;
      revoked_at = zero_time;
      rate_limit_per_minute = if leb_ℤ limit (pos 0) then pos 600 else limit;
      rotated_from = "";
    }

abbrev failed_revoke : Option Error → Option Error
failed_revoke none = none
failed_revoke (some e) = some (wrap "auth: revoke: " e "")

-- The instants that `Rotate` reads off its clock, one after the other.
pub record Clock : Type 0 where
  pub looked_at : Time
  pub created_at : Time
  pub revoked_at : Time

-- How long the old key has left.
abbrev pub time_left : ApiKey → Time → Duration
time_left old now = if is_zero old.expires_at then pos 0 else old.expires_at -ℤ now

listed : Fallible (List String) → Fallible (List String)
listed (ok ids) = ok ids
listed (err e) = err (wrap "auth: list: " e "")

abbrev pub judged : ℤ → Fallible ℕ → Fallible (Bool × ℤ)
judged limit (err e) = ok (true, pos 0)
judged limit (ok n) = ok (leb_ℤ (pos n) limit, remaining limit n)

module _ (redis : Commands) where
  open redis use {Server, hgetall, hset, sadd, exists, incr, expire, smembers, eval}

  -- `save`: the two commands go in one pipeline, whose error is the first one's.
  unfoldable pub save : ApiKey → Server → Option Error × Server
  save k s =
      let (e, s1) = hset (key_path k.key_id) (to_hash k) s in
      let (f, s2) = sadd (tenant_path k.tenant_id) k.key_id s1 in (saved (first_error e f), s2)

  -- `Lookup`.
  unfoldable pub lookup : Numerals → String → Server → Fallible ApiKey × Server
  lookup n id s = let (r, s') = hgetall (key_path id) s in (looked_up n id r, s')

  -- A raw key, its record and an error, each of which may be missing.
  abbrev pub Minted : Type 0
  Minted = Fallible (String × ApiKey) × Server

  abbrev pub minted : String → ApiKey → Option Error × Server → Minted
  minted raw k (none, s) = (ok (raw, k), s)
  minted raw k (some e, s) = (err e, s)

  -- `Create`, given the bytes that are drawn.
  unfoldable pub create :
      (String → String) → Draws → Time → String → String → Duration → ℤ → Server → Minted
  create hash_secret d now tenant name ttl limit s =
      if same tenant ""
      then (err (plain "auth: tenantID must be set"), s)
      else let k = new_key hash_secret d now tenant name ttl limit in
        minted (generate_key hash_secret d.id d.secret).0 k (save k s)

  revoke_found : String → Time → Fallible ℕ × Server → Option Error × Server
  revoke_found id now (err e, s) = (some (wrap "auth: revoke: " e ""), s)
  revoke_found id now (ok zero, s) = (some (sentinel key_not_found), s)
  revoke_found id now (ok (suc n), s) =
      let (e, s') = hset (key_path id) (("revoked_at", itoa (unix_milli now)) ∷ []) s in
      (failed_revoke e, s')

  -- `Revoke`.
  unfoldable pub revoke : String → Time → Server → Option Error × Server
  unfolding revoke_found
  revoke id now s = revoke_found id now (exists (key_path id) s)

  -- The record of the old key, saved last.
  retire : ApiKey → String → ApiKey → Option Error × Server → Minted
  retire old raw fresh (some e, s) = (err e, s)
  retire old raw fresh (none, s) = minted raw fresh (save old s)

  replace : ApiKey → ApiKey → Minted → Minted
  replace old retired (err e, s) = (err e, s)
  replace old retired (ok (raw, fresh), s) =
      let linked = record fresh { rotated_from = old.key_id } in
      retire retired raw linked (save linked s)

  rotate_found : (String → String) → Draws → Clock → Duration → Fallible ApiKey × Server → Minted
  rotate_found hash_secret d clock overlap (err e, s) = (err e, s)
  rotate_found hash_secret d clock overlap (ok old, s) =
      replace old (record old { revoked_at = clock.revoked_at +ℤ overlap })
        (create hash_secret d clock.created_at old.tenant_id (old.name <> " (rotated)")
          (time_left old clock.looked_at) old.rate_limit_per_minute s)

  -- `Rotate`.
  unfoldable pub rotate :
      (String → String) → Numerals → Draws → Clock → String → Duration → Server → Minted
  unfolding retire replace rotate_found
  rotate hash_secret n d clock id overlap s =
      rotate_found hash_secret d clock overlap (lookup n id s)

  -- `ListForTenant`.
  pub list_for_tenant : String → Server → Fallible (List String) × Server
  list_for_tenant tenant s = let (r, s') = smembers (tenant_path tenant) s in (listed r, s')

  -- `rateLimitScript`.
  unfoldable pub rate_limit_script : String → ℕ → Server → ℕ × Server
  rate_limit_script k ttl s =
      let (n, s') = incr k s in if n == 1 then (n, expire k ttl s') else (n, s')

  -- `Allow`. A failed script lets the call through.
  unfoldable pub allow : Time → String → ℤ → Server → Fallible (Bool × ℤ) × Server
  allow now id limit s =
      if leb_ℤ limit (pos 0)
      then (ok (true, pos 0), s)
      else let (r, s') = eval (rate_limit_script (rate_key now id) 70) s in (judged limit r, s')

-- The store that `Verify` is given, at the instant that its clock shows.
abbrev pub redis_store : Commands → Numerals → Time → Store
redis_store redis n now = record {
  State = redis.Server;
  lookup = lookup redis n;
  allow = allow redis now;
}
