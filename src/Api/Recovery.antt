-- ===== src/Api/Recovery.antt =====
-- The outermost middleware of the HTTP API, and the counting of responses: `recoverPanics`,
-- `logRequests` and `RequestIDFrom` of infrastructure/internal/api/server.go.
use ride_matching_engine.Common.{
  ℕ, ◌+◌, ◌≡◌, refl, String, Option, none, some, List, [], ◌∷◌, ◌⊎◌, inl, inr, pos,
}
use ride_matching_engine.Floats.{Floats}
use ride_matching_engine.Queue.{Queue}
use ride_matching_engine.Metrics.{route_label, status_class}
use ride_matching_engine.Api.{Config, Stats, Json, error_body, write_error}
use ride_matching_engine.Api.Handlers.{Served}

-- `RequestIDFrom`, of the id that a context carries.
unfoldable pub request_id_from : Option String → String
request_id_from none = ""
request_id_from (some id) = id

-- `statusRecorder`: the status that is set last, 200 if none is.
unfoldable pub recorded : ℕ → List ℕ → ℕ
recorded status [] = status
recorded status (code ∷ codes) = recorded code codes

-- The labels under which `logRequests` counts a request.
unfoldable pub counted_as : String → String → List ℕ → String × String
counted_as method path codes = (route_label method path, status_class (pos (recorded 200 codes)))

module _ (fl : Floats) (json : Json fl.F) (queue : Queue fl.F) (c : Config) where
  -- What the handlers inside come to: a response, or a panic, with the counters and the queue as they
  -- are then.
  abbrev pub Ran : Type 0
  Ran = Served fl json queue c ⊎ (Stats × queue.State)

  -- `recoverPanics`, on a request whose own context carries this id.
  unfoldable pub recover_panics : Option String → Ran → Served fl json queue c
  recover_panics carried (inl served) = served
  recover_panics carried (inr (st, s)) = (
    write_error [] 500 "internal" "internal error" "" (request_id_from carried),
    record st { panics = st.panics + 1 },
    s,
  )

  -- The request that reaches `recoverPanics` carries no id, since `withRequestID` is inside of it: so
  -- the response to a panic has an empty one, in its body and in its header.
  panic_without_id :
      (st : Stats) (s : queue.State)
      → ((recover_panics none (inr (st, s))).0.body ≡ error_body "internal" "internal error" "" "")
        × ((recover_panics none (inr (st, s))).0.headers
            ≡ ("Content-Type", "application/json; charset=utf-8") ∷ ("X-Request-ID", "") ∷ [])
        × ((recover_panics none (inr (st, s))).1 ≡ record st { panics = st.panics + 1 })
  unfolding recover_panics write_error request_id_from
  panic_without_id st s = (refl, refl, refl)
