-- ===== src/Metrics.antt =====
-- The labels and the promises of the metrics: infrastructure/internal/metrics/metrics.go, and the
-- request counter's labels of infrastructure/internal/api/server.go. Prometheus is not modelled.
use ride_matching_engine.Common.{
  ℕ, ◌*◌, refl, ap, ◌<>◌, ◌++◌, ◌||◌, String, List, [], ◌∷◌, map, ℤ, pos, same, same→eq,
  if◌then◌else◌, Memᴰ, inl, inr, Bool-cases,
}
use ride_matching_engine.Common.Int.{ltb_ℤ}
use ride_matching_engine.Time.{Duration}

abbrev milliseconds : ℕ → Duration
milliseconds n = pos (n * 1000000)

-- The promises on latency.
abbrev slo_ingest_p99 : Duration
slo_ingest_p99 = milliseconds 50

abbrev slo_request_accept_p99 : Duration
slo_request_accept_p99 = milliseconds 100

abbrev slo_match_latency_p99 : Duration
slo_match_latency_p99 = milliseconds 5000

-- The buckets of `RequestAcceptSeconds` and of `MatchLatencySeconds`.
abbrev request_accept_buckets : List Duration
request_accept_buckets =
    pos 500000
    ∷ milliseconds 1
    ∷ pos 2500000
    ∷ milliseconds 5
    ∷ milliseconds 10
    ∷ milliseconds 25
    ∷ milliseconds 50
    ∷ milliseconds 100
    ∷ milliseconds 250
    ∷ milliseconds 500
    ∷ milliseconds 1000
    ∷ milliseconds 2500
    ∷ []

abbrev match_latency_buckets : List Duration
match_latency_buckets =
    milliseconds 500
    ∷ milliseconds 1000
    ∷ milliseconds 2000
    ∷ milliseconds 3000
    ∷ milliseconds 4000
    ∷ milliseconds 5000
    ∷ milliseconds 7500
    ∷ milliseconds 10000
    ∷ milliseconds 20000
    ∷ milliseconds 30000
    ∷ []

-- `StatusClass`.
unfoldable pub status_class : ℤ → String
status_class code =
    if ltb_ℤ code (pos 200)
    then "1xx"
    else if ltb_ℤ code (pos 300)
    then "2xx"
    else if ltb_ℤ code (pos 400)
    then "3xx"
    else if ltb_ℤ code (pos 500)
    then "4xx"
    else "5xx"

-- `routeLabel`.
unfoldable pub route_label : String → String → String
route_label method path =
    if same path "/v1/ride-requests"
      || same path "/healthz"
      || same path "/readyz"
      || same path "/stats"
    then method <> (" " <> path)
    else method <> " other"

-- The promises on the two latencies are bounds of buckets, so that they are counted exactly.
slo_in_buckets :
    Memᴰ slo_request_accept_p99 request_accept_buckets
    × Memᴰ slo_match_latency_p99 match_latency_buckets
slo_in_buckets = (
  Memᴰ.tail
      (Memᴰ.tail (Memᴰ.tail (Memᴰ.tail (Memᴰ.tail (Memᴰ.tail (Memᴰ.tail (Memᴰ.head refl))))))),
  Memᴰ.tail (Memᴰ.tail (Memᴰ.tail (Memᴰ.tail (Memᴰ.tail (Memᴰ.head refl))))),
)

abbrev classes : List String
classes = "1xx" ∷ "2xx" ∷ "3xx" ∷ "4xx" ∷ "5xx" ∷ []

abbrev paths : List String
paths = "/v1/ride-requests" ∷ "/healthz" ∷ "/readyz" ∷ "/stats" ∷ []

status_class-mem : (code : ℤ) → Memᴰ (status_class code) classes
unfolding status_class
status_class-mem code = elim (Bool-cases (ltb_ℤ code (pos 200))) [
  | inl a ↦ rw a (search (Memᴰ.head, Memᴰ.tail, refl))
  | inr a ↦ elim (Bool-cases (ltb_ℤ code (pos 300))) [
    | inl b ↦ rw (a, b) (search (Memᴰ.head, Memᴰ.tail, refl))
    | inr b ↦ elim (Bool-cases (ltb_ℤ code (pos 400))) [
      | inl c ↦ rw (a, b, c) (search (Memᴰ.head, Memᴰ.tail, refl))
      | inr c ↦ elim (Bool-cases (ltb_ℤ code (pos 500))) [
        | inl d ↦ rw (a, b, c, d) (search (Memᴰ.head, Memᴰ.tail, refl))
        | inr d ↦ rw (a, b, c, d) (search (Memᴰ.head, Memᴰ.tail, refl))
      ]
    ]
  ]
]

-- A label of a route is one of five for its method, whatever the path; a method is the client's.
route_label_lem :
    (method path : String)
    → Memᴰ
        (route_label method path)
        (map (λ p. method <> (" " <> p)) paths ++ (method <> " other") ∷ [])
unfolding route_label
route_label_lem method path = elim (Bool-cases (same path "/v1/ride-requests")) [
  | inl a ↦ rw a (Memᴰ.head (ap (λ (p : String). method <> (" " <> p)) (same→eq path _ a)))
  | inr a ↦ elim (Bool-cases (same path "/healthz")) [
    | inl b ↦
        rw (a, b)
          (Memᴰ.tail (Memᴰ.head (ap (λ (p : String). method <> (" " <> p)) (same→eq path _ b))))
    | inr b ↦ elim (Bool-cases (same path "/readyz")) [
      | inl c ↦
          rw (a, b, c)
            (Memᴰ.tail (
              Memᴰ.tail (Memᴰ.head (ap (λ (p : String). method <> (" " <> p)) (same→eq path _ c)))))
      | inr c ↦ elim (Bool-cases (same path "/stats")) [
        | inl d ↦
            rw (a, b, c, d)
              (Memᴰ.tail (
                Memᴰ.tail (
                  Memᴰ.tail
                    (Memᴰ.head (ap (λ (p : String). method <> (" " <> p)) (same→eq path _ d))))))
        | inr d ↦ rw (a, b, c, d) (Memᴰ.tail (Memᴰ.tail (Memᴰ.tail (Memᴰ.tail (Memᴰ.head refl)))))
      ]
    ]
  ]
]
