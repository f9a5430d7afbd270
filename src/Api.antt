-- ===== src/Api.antt =====
-- The HTTP API for ride requests: infrastructure/internal/api/server.go and errors.go. JSON decoding
-- and the router of net/http are parameters; the queue is the record Queue, and the authentication
-- Auth.Middleware.
use ride_matching_engine.Common.{
  ℕ, ◌+◌, Bool, true, false, not, ◌&&◌, ◌||◌, String, ◌<>◌, Option, none, some, List, [], ◌∷◌, ◌++◌,
  ◌⊎◌, inl, inr, ℤ, pos, negsuc, same, if◌then◌else◌, ltb, leb, ◌==◌,
}
use ride_matching_engine.Common.Chars.{byte_length, take_bytes, keep, cut_prefix, trim_char, hex}
use ride_matching_engine.Common.Decimal.{itoa}
use ride_matching_engine.Common.Int.{leb_ℤ}
use ride_matching_engine.Errors.{Error, Fallible, ok, err}
use ride_matching_engine.Floats.{Floats}
use ride_matching_engine.Time.{Time, Duration}
use ride_matching_engine.Queue.{RideRequest, Queue}
use ride_matching_engine.Auth.{ApiKey, Store}
use ride_matching_engine.Auth.Middleware.{Request, Decision, serve, refuse, middleware}
mod Places
pub mod Handlers
pub mod Laws
pub mod Recovery

pub record Config : Type 0 where
  pub tenant_id : String
  pub max_body_bytes : ℤ
  pub publish_timeout : Duration

-- `DefaultConfig`.
abbrev pub default_config : Config
default_config = record {
  tenant_id = "default";
  max_body_bytes = pos 16384;
  publish_timeout = pos 2000000000;
}

-- `applyDefaults`.
pub apply_defaults : Config → Config
apply_defaults c = record {
  tenant_id = if same c.tenant_id "" then "default" else c.tenant_id;
  max_body_bytes = if leb_ℤ c.max_body_bytes (pos 0) then pos 16384 else c.max_body_bytes;
  publish_timeout = if leb_ℤ c.publish_timeout (pos 0) then pos 2000000000 else c.publish_timeout;
}

pub record Stats : Type 0 where
  pub accepted : ℕ
  pub rejected : ℕ
  pub failed : ℕ
  pub panics : ℕ

-- `latLng` and `rideRequestInput`: a missing field is `none`.
pub record LatLng (F : Type 0) : Type 0 where
  pub lat : Option F
  pub lng : Option F

pub record RideRequestInput (F : Type 0) : Type 0 where
  pub rider_id : String
  pub pickup : Option (LatLng F)

-- The bodies of `APIError`, of `rideRequestAccepted`, and of the two probes.
pub data Body : Type 0 where
  error_body : String → String → String → String → Body
  accepted_body : String → String → Body
  status_body : String → Body
  stats_body : Stats → ℕ → ℕ → ℕ → Body

pub record Response : Type 0 where
  pub status : ℕ
  pub headers : List (String × String)
  pub body : Body

abbrev json_headers : String → List (String × String)
json_headers id = ("Content-Type", "application/json; charset=utf-8") ∷ ("X-Request-ID", id) ∷ []

-- `writeError`, with the headers that are set before it.
unfoldable pub write_error :
    List (String × String) → ℕ → String → String → String → String → Response
write_error before status code message field id = record {
  status = status;
  headers = before ++ json_headers id;
  body = error_body code message field id;
}

-- `writeJSON`.
unfoldable pub write_json : ℕ → String → Body → Response
write_json status id body = record { status = status; headers = json_headers id; body = body }

-- The characters that `sanitiseRequestID` keeps.
unfoldable pub is_safe : ℕ → Bool
is_safe c =
    (leb b'a' c && leb c b'z')
    || (leb b'A' c && leb c b'Z')
    || (leb b'0' c && leb c b'9')
    || c == b'-'
    || c == b'_'
    || c == b'.'

-- `sanitiseRequestID`. A character that the cut splits is not kept, nor are its bytes.
unfoldable pub sanitise_request_id : String → String
sanitise_request_id raw =
    if same raw ""
    then ""
    else keep is_safe (if ltb 64 (byte_length raw) then take_bytes 64 raw else raw)

-- `newRequestID`, for the random bytes, or none and the clock's nanoseconds.
unfoldable pub new_request_id : Option (List ℕ) → ℤ → String
new_request_id none nanos = "req_ts_" <> itoa nanos
new_request_id (some bytes) nanos = "req_" <> hex bytes

-- `withRequestID`.
unfoldable pub request_id_of : String → Option (List ℕ) → ℤ → String
request_id_of header bytes nanos =
    if same (sanitise_request_id header) ""
    then new_request_id bytes nanos
    else sanitise_request_id header

-- Why the decoder refuses a body.
pub data DecodeError : Type 0 where
  body_too_large : DecodeError
  wrong_type : String → String → DecodeError
  bad_syntax : ℤ → DecodeError
  body_empty : DecodeError
  other_error : String → DecodeError

-- The decoder: the first value of a body that is cut at so many bytes, with no unknown fields, and
-- whether the body ends behind it; `%q` of a text; and the test on a float for being a finite number.
pub record Json (F : Type 0) : Type 1 where
  pub Text : Type 0
  pub decode : ℤ → Text → DecodeError ⊎ RideRequestInput F
  pub at_end : Text → Bool
  pub quote : String → String
  pub is_finite : F → Bool

-- The code, the message and the field of an error.
abbrev pub Complaint : Type 0
Complaint = String × String × String

unknown_field : (String → String) → Option String → Complaint
unknown_field quote none = ("malformed_json", "request body is not valid JSON", "")
unknown_field quote (some rest) =
    let name = trim_char b'"' rest in ("invalid_argument", "unknown field " <> quote name, name)

-- `describeDecodeError`.
unfoldable pub describe_decode_error : (String → String) → ℤ → DecodeError → Complaint
unfolding unknown_field
describe_decode_error quote max body_too_large =
    ("payload_too_large", "request body must not exceed " <> (itoa max <> " bytes"), "")
describe_decode_error quote max (wrong_type field type) =
    ("invalid_argument", "field " <> (quote field <> (" must be of type " <> type)), field)
describe_decode_error quote max (bad_syntax offset) =
    ("malformed_json", "invalid JSON at byte offset " <> itoa offset, "")
describe_decode_error quote max body_empty = ("malformed_json", "request body is empty", "")
describe_decode_error quote max (other_error msg) =
    unknown_field quote (cut_prefix "json: unknown field " msg)

-- A field and what is wrong with it.
abbrev pub Fault : Type 0
Fault = String × String

module _ (fl : Floats) (json : Json fl.F) where
  open fl use {F, at_most, literal}
  open json use {is_finite}

  abbrev pub less : F → F → Bool
  less a b = at_most a b && not (at_most b a)

  unfoldable pub validate_numbers : F → F → Option Fault
  validate_numbers lat lng =
      if not (is_finite lat && is_finite lng)
      then some ("pickup", "pickup coordinates must be finite numbers")
      else if less lat (literal (negsuc 89)) || less (literal (pos 90)) lat
      then some ("pickup.lat", "pickup.lat must be between -90 and 90")
      else if less lng (literal (negsuc 179)) || less (literal (pos 180)) lng
      then some ("pickup.lng", "pickup.lng must be between -180 and 180")
      else none

  abbrev pub placed : F → F → Option Fault → Fault ⊎ (F × F)
  placed lat lng none = inr (lat, lng)
  placed lat lng (some fault) = inl fault

  -- The place of a pickup, or the first fault.
  unfoldable pub validate_place : Option F → Option F → Fault ⊎ (F × F)
  validate_place none lng = inl ("pickup.lat", "pickup.lat is required")
  validate_place (some lat) none = inl ("pickup.lng", "pickup.lng is required")
  validate_place (some lat) (some lng) = placed lat lng (validate_numbers lat lng)

  unfoldable pub validate_pickup : Option (LatLng F) → Fault ⊎ (F × F)
  validate_pickup none = inl ("pickup", "pickup is required")
  validate_pickup (some p) = validate_place p.lat p.lng

  -- `validate`. An input that has no fault has a place.
  unfoldable pub validate : RideRequestInput F → Fault ⊎ (F × F)
  validate i =
      if same i.rider_id ""
      then inl ("rider_id", "rider_id is required")
      else if ltb 128 (byte_length i.rider_id)
      then inl ("rider_id", "rider_id must be at most 128 characters")
      else validate_pickup i.pickup
