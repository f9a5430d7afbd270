-- ===== src/Auth/Middleware.antt =====
-- The authentication of HTTP requests: infrastructure/internal/auth/middleware.go. The handler behind
-- the middleware is told by `serve` which key to attach; a refusal carries what `WriteError` is given.
use ride_matching_engine.Common.{
  ℕ, Bool, true, false, not, ◌||◌, String, Option, none, some, List, [], ◌∷◌, same, if◌then◌else◌,
}
use ride_matching_engine.Common.Chars.{split, trim_space, cut_prefix}
use ride_matching_engine.Common.Decimal.{itoa}
use ride_matching_engine.Errors.{Error, has, invalid_key, rate_limited}
use ride_matching_engine.Time.{Time}
use ride_matching_engine.Auth.{ApiKey, Store, Verified, verify}
pub mod Laws

-- `r.Header.Get`, which is empty for a header that is missing.
abbrev pub Headers : Type 0
Headers = String → String

pub record Request : Type 0 where
  pub path : String
  pub headers : Headers

-- The two texts of a refusal are its code and its message.
pub data Decision : Type 0 where
  serve : Option ApiKey → Decision
  refuse : ℕ → List (String × String) → String → String → Decision

bearer : Option String → String
bearer none = ""
bearer (some after) = trim_space after

-- `presentedKey`.
unfoldable pub presented_key : Headers → String
unfolding bearer
presented_key h =
    if not (same (h "X-API-Key") "")
    then trim_space (h "X-API-Key")
    else if not (same (h "Authorization") "")
    then bearer (cut_prefix "Bearer " (h "Authorization"))
    else ""

-- The loop over the subprotocols that a handshake offers.
protocol_key : Option String → String → String
protocol_key none rest = rest
protocol_key (some after) rest = after

protocols_key : List String → String
protocols_key [] = ""
protocols_key (p ∷ ps) = protocol_key (cut_prefix "apikey." (trim_space p)) (protocols_key ps)

-- `WebSocketKey`.
unfoldable pub web_socket_key : Headers → String
unfolding protocol_key protocols_key
web_socket_key h =
    if not (same (presented_key h) "")
    then presented_key h
    else protocols_key (split b',' (h "Sec-WebSocket-Protocol"))

-- `skip[r.URL.Path]`.
unfoldable pub any_same : String → List String → Bool
any_same p [] = false
any_same p (q ∷ qs) = same q p || any_same p qs

limit_headers : Option ApiKey → List (String × String)
limit_headers none = []
limit_headers (some k) =
    ("X-RateLimit-Limit", itoa k.rate_limit_per_minute) ∷ ("X-RateLimit-Remaining", "0") ∷ []

-- The switch on the error of `Verify`.
unfoldable pub decide : Option ApiKey → Option Error → Decision
unfolding limit_headers
decide k none = serve k
decide k (some e) =
    if has e rate_limited
    then refuse 429 (("Retry-After", "60") ∷ limit_headers k) "rate_limited"
        "rate limit exceeded for this API key"
    else if has e invalid_key
    then refuse 401 [] "unauthorized" "invalid API key"
    else refuse 503 (("Retry-After", "1") ∷ []) "unavailable"
        "could not verify credentials right now; please retry"

module _ (hash_secret : String → String) (store : Store) where
  open store use {State}

  unfoldable pub decide_on : Verified hash_secret store → Decision × State
  decide_on (k, e, s) = (decide k e, s)

  -- `Middleware`, at the instant that its clock shows.
  unfoldable pub middleware : List String → Request → Time → State → Decision × State
  middleware skip_paths r now s =
      if any_same r.path skip_paths
      then (serve none, s)
      else if same (presented_key r.headers) ""
      then (
        refuse 401 [] "unauthorized"
            "an API key is required (X-API-Key header or Authorization: Bearer)",
        s,
      )
      else decide_on (verify hash_secret store (presented_key r.headers) now s)
