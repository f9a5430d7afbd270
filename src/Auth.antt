-- ===== src/Auth.antt =====
-- API keys: infrastructure/internal/auth/apikey.go. A key is presented as `rmk_<id>_<secret>`; the
-- store keeps the secret's hash. SHA-256 is a parameter.
use ride_matching_engine.Common.{
  ℕ, ◌≡◌, Bool, true, false, not, ◌&&◌, ◌||◌, String, ◌<>◌, Option, none, some, List, [], ◌∷◌, ℤ,
  pos, same, if◌then◌else◌,
}
use ride_matching_engine.Common.Chars.{split, hex}
use ride_matching_engine.Common.Int.{leb_ℤ}
use ride_matching_engine.Errors.{
  Error, Fallible, ok, err, sentinel, has, invalid_key, rate_limited, key_not_found,
}
use ride_matching_engine.Time.{Time, is_zero}
pub mod Laws
pub mod Redis
pub mod Middleware

pub record ApiKey : Type 0 where
  pub key_id : String
  pub tenant_id : String
  pub name : String
  pub secret_hash : String
  pub created_at : Time
  pub expires_at : Time
  pub revoked_at : Time
  pub rate_limit_per_minute : ℤ
  pub rotated_from : String

-- An instant that is set and has come.
abbrev has_come : Time → Time → Bool
has_come t now = not (is_zero t) && leb_ℤ t now

-- `Active`.
unfoldable pub active : ApiKey → Time → Bool
active k now =
    if has_come k.revoked_at now then false else if has_come k.expires_at now then false else true

-- `GenerateKey` behind its two draws of random bytes, with the hash of the secret: the raw key, its
-- id, and the stored hash.
unfoldable pub generate_key : (String → String) → List ℕ → List ℕ → String × String × String
generate_key hash_secret id secret =
    ("rmk" <> ("_" <> (hex id <> ("_" <> hex secret))), hex id, hash_secret (hex secret))

-- The checks of `ParseKey` on the parts.
unfoldable pub key_parts : List String → Fallible (String × String)
key_parts (p ∷ i ∷ s ∷ []) =
    if not (same p "rmk") || (same i "" || same s "") then err (sentinel invalid_key) else ok (i, s)
key_parts _ = err (sentinel invalid_key)

unfoldable pub parse_key : String → Fallible (String × String)
parse_key raw = key_parts (split b'_' raw)

-- `Store`, as far as `Verify` calls it: each operation takes the store's state and returns its result
-- with the next state. `allow` returns whether the call is within the limit, and what is left.
pub record Store : Type 1 where
  pub State : Type 0
  pub lookup : String → State → Fallible ApiKey × State
  pub allow : String → ℤ → State → Fallible (Bool × ℤ) × State

module _ (hash_secret : String → String) (store : Store) where
  open store use {State, lookup, allow}

  -- A key and an error, each of which may be `nil`.
  abbrev pub Verified : Type 0
  Verified = Option ApiKey × Option Error × State

  within_limit : ApiKey → Fallible (Bool × ℤ) × State → Verified
  within_limit k (err e, s) = (none, some e, s)
  within_limit k (ok (false, left), s) = (some k, some (sentinel rate_limited), s)
  within_limit k (ok (true, left), s) = (some k, none, s)

  -- The secret, and then the instant, and then the limit.
  pub check_key : String → String → Time → ApiKey → State → Verified
  check_key id secret now k s =
      if not (same k.secret_hash (hash_secret secret))
      then (none, some (sentinel invalid_key), s)
      else if not (active k now)
      then (none, some (sentinel invalid_key), s)
      else within_limit k (allow id k.rate_limit_per_minute s)

  pub found : String → String → Time → Fallible ApiKey × State → Verified
  found id secret now (err e, s) =
      (none, some (if has e key_not_found then sentinel invalid_key else e), s)
  found id secret now (ok k, s) = check_key id secret now k s

  parsed : Time → Fallible (String × String) → State → Verified
  parsed now (err e) s = (none, some (sentinel invalid_key), s)
  parsed now (ok (id, secret)) s = found id secret now (lookup id s)

  -- `Verify`.
  pub verify : String → Time → State → Verified
  verify raw now s = parsed now (parse_key raw) s
