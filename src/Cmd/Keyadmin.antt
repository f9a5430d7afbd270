-- ===== src/Cmd/Keyadmin.antt =====
-- The operator's command for API keys: infrastructure/cmd/keyadmin/main.go, behind its flags and the
-- ping of the store.
use ride_matching_engine.Common.{
  ℕ, Bool, true, false, not, ◌&&◌, ◌||◌, String, ◌<>◌, Option, none, some, List, [], ◌∷◌, ℤ, same,
  if◌then◌else◌,
}
use ride_matching_engine.Common.Int.{ltb_ℤ}
use ride_matching_engine.Errors.{Error, Fallible, ok, err, text}
use ride_matching_engine.Time.{Time, Duration, is_zero}
use ride_matching_engine.Queue.Codec.{Numerals}
use ride_matching_engine.Auth.{ApiKey}
use ride_matching_engine.Auth.Redis.{
  Commands, Draws, Clock, Minted, create, lookup, revoke, rotate, list_for_tenant,
}
pub mod Laws

-- `status`, at the instant that the clock shows.
unfoldable pub status : ApiKey → Time → String
status k now =
    if not (is_zero k.revoked_at)
    then "revoked"
    else if not (is_zero k.expires_at) && ltb_ℤ k.expires_at now
    then "expired"
    else "active"

-- `expiry`; `date` prints a day.
pub expiry : (Time → String) → ApiKey → String
expiry date k = if is_zero k.expires_at then "never" else date k.expires_at

-- `envOr`, of the variable's value.
pub env_or : String → String → String
env_or value fallback = if same value "" then fallback else value

pub record Flags : Type 0 where
  pub tenant : String
  pub name : String
  pub key_id : String
  pub ttl : Duration
  pub rate : ℤ
  pub overlap : Duration

-- A line of the list: an id with its key, or with what the lookup failed with.
abbrev pub Line : Type 0
Line = String × Fallible ApiKey

-- What a command prints: the fresh key, which is shown once; the list; or why it stops.
pub data Output : Type 0 where
  created : String → ApiKey → Output
  listed : List Line → Output
  rotated : String → ApiKey → Output
  revoked : String → Output
  failure : String → Output
  usage : Output

abbrev pub exit_code : Output → ℕ
exit_code (failure why) = 1
exit_code usage = 2
exit_code _ = 0

module _ (redis : Commands) (n : Numerals) (hash_secret : String → String) (d : Draws)
    (clock : Clock) (now : Time) where
  open redis use {Server}

  minted : String → (String → ApiKey → Output) → Minted redis → Output × Server
  minted context show (err e, s) = (failure (context <> text e), s)
  minted context show (ok (raw, k), s) = (show raw k, s)

  -- The keys of a tenant, looked up one by one.
  lines : List String → Server → List Line × Server
  lines [] s = ([], s)
  lines (id ∷ ids) s =
      let (k, s') = lookup redis n id s in let (ls, t) = lines ids s' in ((id, k) ∷ ls, t)

  listing : Fallible (List String) × Server → Output × Server
  listing (err e, s) = (failure ("list: " <> text e), s)
  listing (ok ids, s) = let (ls, s') = lines ids s in (listed ls, s')

  revoking : String → Option Error × Server → Output × Server
  revoking id (some e, s) = (failure ("revoke: " <> text e), s)
  revoking id (none, s) = (revoked id, s)

  -- The switch on the command.
  unfoldable pub run : String → Flags → Server → Output × Server
  unfolding minted listing revoking lines
  run cmd f s =
      if same cmd "create"
      then (if same f.tenant "" || same f.name ""
          then (failure "create needs --tenant and --name", s)
          else minted "create: " created
              (create redis hash_secret d now f.tenant f.name f.ttl f.rate s))
      else if same cmd "list"
      then (if same f.tenant ""
          then (failure "list needs --tenant", s)
          else listing (list_for_tenant redis f.tenant s))
      else if same cmd "rotate"
      then (if same f.key_id ""
          then (failure "rotate needs --key-id", s)
          else minted "rotate: " rotated (rotate redis hash_secret n d clock f.key_id f.overlap s))
      else if same cmd "revoke"
      then (if same f.key_id ""
          then (failure "revoke needs --key-id", s)
          else revoking f.key_id (revoke redis f.key_id now s))
      else (usage, s)
