-- ===== src/Ingest.antt =====
-- The WebSocket server for drivers' positions: infrastructure/internal/ingest/server.go. A handler and
-- a connection's goroutine are a Routine, which advances by one atomic operation at a time; the
-- sockets, the JSON decoder and the sink are parameters.
use ride_matching_engine.Common.{
  ℕ, ◌+◌, ◌-◌, ◌/◌, Bool, true, false, not, ◌&&◌, ◌||◌, String, Option, none, some, List, [], ◌∷◌,
  ◌⊎◌, inl, inr, ℤ, pos, negsuc, same, if◌then◌else◌, ltb,
}
use ride_matching_engine.Common.Chars.{byte_length, trim_space}
use ride_matching_engine.Common.Int.{ℤ, ◌*ℤ◌, leb_ℤ, ltb_ℤ, pos_part}
use ride_matching_engine.Errors.{Error, has, plain, invalid_key, rate_limited}
use ride_matching_engine.Floats.{Floats}
use ride_matching_engine.Time.{Time, Duration}
use ride_matching_engine.Pipeline.{Ping}
use ride_matching_engine.Auth.{ApiKey, Store, Verified, verify}
use ride_matching_engine.Auth.Middleware.{Headers, any_same, web_socket_key}
pub mod Pumps
pub mod Server

pub record Config : Type 0 where
  pub max_connections : ℤ
  pub max_message_bytes : ℤ
  pub pong_wait : Duration
  pub ping_interval : Duration
  pub write_wait : Duration
  pub allowed_origins : List String
  pub tenant_id : String

-- `DefaultConfig`.
abbrev pub default_config : Config
default_config = record {
  max_connections = pos 10000;
  max_message_bytes = pos 4096;
  pong_wait = pos 60000000000;
  ping_interval = pos 54000000000;
  write_wait = pos 10000000000;
  allowed_origins = [];
  tenant_id = "";
}

abbrev positive_or : ℤ → ℤ → ℤ
positive_or x d = if leb_ℤ x (pos 0) then d else x

-- The integer division of Go, of a positive number.
abbrev tenth : ℤ → ℤ
tenth x = pos (pos_part x / 10)

-- `applyDefaults`.
pub apply_defaults : Config → Config
apply_defaults c =
    let wait = positive_or c.pong_wait default_config.pong_wait in
    record {
      max_connections = positive_or c.max_connections default_config.max_connections;
      max_message_bytes = positive_or c.max_message_bytes default_config.max_message_bytes;
      pong_wait = wait;
      ping_interval = positive_or c.ping_interval (tenth (wait *ℤ pos 9));
      write_wait = positive_or c.write_wait default_config.write_wait;
      allowed_origins = c.allowed_origins;
      tenant_id = if same c.tenant_id "" then "default" else c.tenant_id;
    }

-- The set of `originChecker`.
origins : List String → List String
origins [] = []
origins (o ∷ os) =
    let rest = origins os in if same (trim_space o) "" then rest else trim_space o ∷ rest

-- `originChecker`.
pub is_allowed_origin : List String → Headers → Bool
is_allowed_origin allowed h =
    if same (h "Origin") "" then true else any_same (h "Origin") (origins allowed)

-- Why a handshake is refused, as a status; or the tenant of the connection.
abbrev pub Admission : Type 0
Admission = ℕ ⊎ String

refusal : Error → ℕ
refusal e = if has e rate_limited then 429 else if has e invalid_key then 401 else 503

module _ (hash_secret : String → String) (keys : Store) where
  open keys use {State}

  admission : Verified hash_secret keys → Admission × State
  admission (k, some e, s) = (inl (refusal e), s)
  admission (none, none, s) = (inl 503, s)
  admission (some k, none, s) = (inr k.tenant_id, s)

  -- The authentication in `Handler`, with a key store. A verified key that is missing has no
  -- counterpart in the source, whose `Verify` returns a key or an error.
  pub authenticate : Headers → Time → State → Admission × State
  authenticate h now s =
      if same (web_socket_key h) ""
      then (inl 401, s)
      else admission (verify hash_secret keys (web_socket_key h) now s)

-- `Sink`.
pub record Sink (F : Type 0) : Type 1 where
  pub State : Type 0
  pub accept : Ping F → State → Option Error × State

module _ (fl : Floats) where
  open fl use {F, at_most, literal}

  abbrev less : F → F → Bool
  less a b = at_most a b && not (at_most b a)

  -- `validate`; `show` is the text of two floats.
  unfoldable pub validate : (F → F → String) → Ping F → Option Error
  validate show p =
      if same p.driver_id ""
      then some (plain "empty driver_id")
      else if ltb 128 (byte_length p.driver_id)
      then some (plain "driver_id too long")
      else if less p.lat (literal (negsuc 89))
          || less (literal (pos 90)) p.lat
          || less p.lng (literal (negsuc 179))
          || less (literal (pos 180)) p.lng
      then some (plain (show p.lat p.lng))
      else none

-- A frame that `ReadMessage` returns: of text or bytes, as the JSON decoder reads it, or another.
pub data Frame (F : Type 0) : Type 0 where
  message : Option (Ping F) → Frame F
  other_frame : Frame F
