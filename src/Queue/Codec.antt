-- ===== src/Queue/Codec.antt =====
-- How a ride request is laid out in a Redis stream entry, and read back: `Publish` and `decode` of
-- infrastructure/internal/queue/redis_stream.go.
use ride_matching_engine.Common.{
  ◌≡◌, ◌≢◌, refl, String, ◌<>◌, Option, none, some, List, [], ◌∷◌, ℤ, same, same_iff, ne→same,
  if◌then◌else◌, arith,
}
use ride_matching_engine.Common.Decimal.{itoa}
use ride_matching_engine.Errors.{Error, Fallible, ok, err, sentinel, wrap, malformed_message}
use ride_matching_engine.Floats.{Floats}
use ride_matching_engine.Time.{Time, is_zero, unix_milli, from_milli, zero_time}
use ride_matching_engine.Queue.{RideRequest, Message}

-- The field and value pairs of an entry.
abbrev pub Fields : Type 0
Fields = List (String × String)

pub record Entry : Type 0 where
  pub id : String
  pub values : Fields

-- What the codec uses of `strconv`: `ParseInt`, and the value that `Atoi` returns, error or not.
pub record Numerals : Type 0 where
  pub parse_int : String → Option ℤ
  pub atoi : String → ℤ

-- The text of a field, empty if it is missing.
unfoldable pub get : String → Fields → String
get k [] = ""
get k ((j, v) ∷ fs) = if same j k then v else get k fs

-- `requestedAt` of `Publish`.
abbrev pub accepted_at : Time → Time → Time
accepted_at now t = if is_zero t then now else t

module _ (fl : Floats) where
  open fl use {F, format, parse}

  unfoldable pub to_fields : Time → RideRequest F → Fields
  to_fields now r =
      ("request_id", r.request_id)
      ∷ ("tenant_id", r.tenant_id)
      ∷ ("rider_id", r.rider_id)
      ∷ ("lat", format r.lat)
      ∷ ("lng", format r.lng)
      ∷ ("requested_at", itoa (unix_milli (accepted_at now r.requested_at)))
      ∷ ("match_attempts", itoa r.match_attempts)
      ∷ []

  unfoldable pub malformed : Entry → String → Error
  malformed e what = wrap "" (sentinel malformed_message) (": entry " <> e.id <> what)

  unfoldable pub time_of : Option ℤ → Time
  time_of none = zero_time
  time_of (some ms) = from_milli ms

  unfoldable pub message_of : Numerals → Entry → String → F → F → Message F
  message_of n e request_id lat lng = record {
    id = e.id;
    request = record {
      request_id = request_id;
      tenant_id = get "tenant_id" e.values;
      rider_id = get "rider_id" e.values;
      lat = lat;
      lng = lng;
      requested_at = time_of (n.parse_int (get "requested_at" e.values));
      match_attempts = n.atoi (get "match_attempts" e.values);
    };
    deliveries = 0;
  }

  unfoldable pub decode_place : Numerals → Entry → Option F → Option F → Fallible (Message F)
  decode_place n e none lng = err (malformed e " has a bad lat")
  decode_place n e (some lat) none = err (malformed e " has a bad lng")
  decode_place n e (some lat) (some lng) = ok (message_of n e (get "request_id" e.values) lat lng)

  -- `decode`.
  unfoldable pub decode : Numerals → Entry → Fallible (Message F)
  unfolding get malformed time_of message_of decode_place
  decode n e =
      if same (get "request_id" e.values) ""
      then err (malformed e " has no request_id")
      else decode_place n e (parse (get "lat" e.values)) (parse (get "lng" e.values))

  -- What `strconv` promises of the numbers of one request: the shortest decimal text of a float, and
  -- the decimal text of an integer, parse to the value that they were printed from.
  pub record ReadsBack (n : Numerals) (now : Time) (r : RideRequest F) : Type 0 where
    pub lat_back : parse (format r.lat) ≡ some r.lat
    pub lng_back : parse (format r.lng) ≡ some r.lng
    pub instant_back :
        n.parse_int (itoa (unix_milli (accepted_at now r.requested_at)))
        ≡ some (unix_milli (accepted_at now r.requested_at))
    pub attempts_back : n.atoi (itoa r.match_attempts) ≡ r.match_attempts

  -- A published request whose numbers `strconv` reads back, and whose id is not empty, is decoded as
  -- it was, but for its instant: a missing one is the instant of publishing, and it is cut to
  -- milliseconds. The count of deliveries is left to the caller.
  pub decode-to_fields :
      (n : Numerals) (now : Time) (i : String) (r : RideRequest F)
      → ReadsBack n now r
      → r.request_id ≢ ""
      → decode n (record { id = i; values = to_fields now r })
        ≡ ok (record {
          id = i;
          request = record r {
            requested_at = from_milli (unix_milli (accepted_at now r.requested_at));
          };
          deliveries = 0;
        })
  unfolding decode to_fields same
  decode-to_fields n now i r back named =
      rw (ne→same r.request_id "" named)
        (rw (back.lat_back, back.lng_back, back.instant_back, back.attempts_back) refl)

  -- An entry that decodes has a request id, and so can be told from another request.
  pub decode-request_id :
      (n : Numerals) (e : Entry) (m : Message F)
      → decode n e ≡ ok m
      → (m.request.request_id ≢ "") × (m.id ≡ e.id) × (m.deliveries ≡ 0)
  unfolding decode
  decode-request_id n e m h = ground (arith, same_iff (get "request_id" e.values) "")
