-- ===== src/Engine.antt =====
-- The Go side of the bridge to the matching engine: infrastructure/internal/engine/errors.go and
-- client.go. The generated gRPC stub is a parameter.
pub mod Laws
pub mod Connection
use ride_matching_engine.Common.{
  ◌≡◌, refl, Bool, true, false, ◌||◌, String, ◌<>◌, Option, none, some, List, [], ◌∷◌, same,
  if◌then◌else◌, ℤ,
}
use ride_matching_engine.Common.Int.{◌+ℤ◌, ltb_ℤ}
use ride_matching_engine.Errors.{
  Error, sentinel, wrap, has, Sentinel, engine_unavailable, timeout, invalid_batch,
  graph_not_loaded, batch_too_large, cancelled,
}

-- The status codes that the source names; `other` is any further code, by its printed name.
pub data Code : Type 0 where
  ok unavailable deadline_exceeded invalid_argument failed_precondition : Code
  resource_exhausted canceled : Code
  other : String → Code

-- What the stub reports: a gRPC status with its message, or an error that is no status.
pub data CallError : Type 0 where
  status : Code → String → CallError
  foreign : String → CallError

-- `fmt.Errorf("%w: %s", s, detail)`.
abbrev pub because : Sentinel → String → Error
because s detail = wrap "" (sentinel s) (": " <> detail)

classify_status : Code → String → Option Error
classify_status ok m = none
classify_status unavailable m = some (because engine_unavailable m)
classify_status deadline_exceeded m = some (because timeout m)
classify_status invalid_argument m = some (because invalid_batch m)
classify_status failed_precondition m = some (because graph_not_loaded m)
classify_status resource_exhausted m = some (because batch_too_large m)
classify_status canceled m = some (because cancelled m)
classify_status (other name) m = some (because engine_unavailable (m <> " (code " <> name <> ")"))

pub classify : Option CallError → Option Error
unfolding classify_status
classify none = none
classify (some (foreign text)) = some (because engine_unavailable text)
classify (some (status code m)) = classify_status code m

unfoldable pub retryable : Option Error → Bool
unfolding has
retryable none = false
retryable (some e) =
    if has e invalid_batch || has e graph_not_loaded || has e batch_too_large || has e cancelled
    then false
    else true

-- A call context: its deadline, if it has one.
pub record Context : Type 0 where
  pub deadline : Option ℤ

-- The deadline that `context.WithTimeout` sets: it never extends one that is there.
abbrev pub earlier : Option ℤ → ℤ → ℤ
earlier none t = t
earlier (some d) t = if ltb_ℤ d t then d else t

-- `context.WithTimeout(ctx, d)` at the instant `now`.
abbrev pub with_timeout : Context → ℤ → ℤ → Context
with_timeout c now d = record { deadline = some (earlier c.deadline (now +ℤ d)) }

-- A stub's answer: a value, or an error.
pub data Reply (A : Type 0) : Type 0 where
  answer : A → Reply A
  failed : CallError → Reply A

-- The value and the error that a client method returns; `none` is Go's `nil`.
abbrev pub Outcome : Type 0 → Type 0
Outcome A = Option A × Option Error

abbrev pub settle : {A : Type 0} → Reply A → Outcome A
settle (answer a) = (some a, none)
settle (failed e) = (none, classify (some e))

-- `Client.SolveBatch`: `api` is the stub, `limit` the client's timeout.
unfoldable pub solve_batch :
    {Request Response : Type 0}
    → (Context → Request → Reply Response)
    → ℤ
    → ℤ
    → Context
    → Option Request
    → Outcome Response
solve_batch api limit now ctx none = (none, some (because invalid_batch "nil request"))
solve_batch api limit now ctx (some req) = settle (api (with_timeout ctx now limit) req)

-- `Client.Health`; the response is the ids of the loaded road graphs.
pub health : (Context → Reply (List String)) → ℤ → ℤ → Context → Outcome (List String)
health api limit now ctx = settle (api (with_timeout ctx now limit))

unfoldable pub any_same : String → List String → Bool
any_same g [] = false
any_same g (h ∷ hs) = if same h g then true else any_same g hs

-- What `HasGraph` makes of the health probe's outcome.
pub served : String → Outcome (List String) → Bool × Option Error
served graph (gs, some e) = (false, some e)
served graph (none, none) = (false, none)
served graph (some gs, none) = (any_same graph gs, none)

-- `Client.HasGraph`.
pub has_graph : (Context → Reply (List String)) → ℤ → ℤ → Context → String → Bool × Option Error
unfolding health
has_graph api limit now ctx graph = served graph (health api limit now ctx)
