-- ===== src/Locations/Redis/Same.antt =====
-- The single and the pipelined search of the Redis location store, on a server that answers.
use ride_matching_engine.Common.{
  ℕ, zero, suc, ◌≡◌, refl, sym, ap, ◌∙◌, inl, inr, Bool, true, false, String, Option, none, some,
  List, [], ◌∷◌, map, ℤ, pos, same, same→eq, same_self, if◌then◌else◌, Bool-cases, All, All-map,
}
use ride_matching_engine.Common.Int.{leb_ℤ}
use ride_matching_engine.Errors.{Fallible, ok, err}
use ride_matching_engine.Floats.{Floats}
use ride_matching_engine.Time.{Time, from_milli}
use ride_matching_engine.Locations.{DriverLocation, Query}
use ride_matching_engine.Locations.Retry.{Weather, with_retry, with_retry_ends, is_settled}
use ride_matching_engine.Locations.Redis.Union.{IsCovered, union_covers}
use ride_matching_engine.Locations.Redis.{
  Options, Place, Search, Commands, geo_key, seen_key, cutoff, limit_of, search_for, is_in, names,
  with_scores, union, seen_at,
}
use ride_matching_engine.Locations.Redis.Searches.{
  located, fresh_up_to, fresh_of, on_seen, known_up_to, answers, search_all, exec_error, executed,
  search_op, keep_raw, collect, filtered, searched, nearby, judged, score_all, collected, pipelined,
  nearby_many,
}

-- A server whose two reads answer, and change nothing: a search with `found`, and the scores with
-- `score`, one for each member.
pub record Answers {fl : Floats} (redis : Commands fl) : Type 0 where
  pub found : String → Search fl.F → redis.Server → List (Place fl.F)
  pub score : String → String → redis.Server → fl.F
  pub geo_search_answers :
      (k : String) (q : Search fl.F) (s : redis.Server)
      → redis.geo_search k q s ≡ (ok (found k q s), s)
  pub zmscore_answers :
      (k : String) (ms : List String) (s : redis.Server)
      → redis.zmscore k ms s ≡ (ok (map (λ m. score k m s) ms), s)

-- A location under a tenant.
abbrev pub stamp : {F : Type 0} → String → DriverLocation F → DriverLocation F
stamp tenant l = record l { tenant_id = tenant }

-- What an answer holds.
abbrev pub held : {A : Type 0} → Fallible (List A) → List A
held (ok xs) = xs
held (err e) = []

cons_eq : {A : Type 0} (x : A) {xs ys : List A} → xs ≡ ys → x ∷ xs ≡ x ∷ ys
cons_eq x h = ap (λ zs. x ∷ zs) h

abbrev the_none : (A : Type 0) → Option A
the_none A = none

both_none : {A : Type 0} (b : Bool) → (if b then none else none) ≡ the_none A
both_none true = refl
both_none false = refl

with_retry_ok :
    {A S : Type 0} (w : Weather) (n : ℕ) (op : S → Fallible A × S) (s s' : S) (a : A)
    → op s ≡ (ok a, s')
    → with_retry w (pos n) op s ≡ (ok a, s')
with_retry_ok {A = A} {S = S} w n op s s' a h =
    (with_retry_ends w n op s).2 (ap (λ (r : Fallible A × S). is_settled w r.0) h) ∙ h

module _ {fl : Floats} (redis : Commands fl) (o : Options) (quiet : Answers redis) where
  open fl use {F, at_most, literal}
  open redis use {Server, to_int64}

  module _ (s : Server) where
    score_of : String → F
    score_of m = quiet.score (seen_key o) m s

    found_for : Query F → List (Place F)
    found_for q = quiet.found (geo_key o) (search_for q) s

    search_all_answers :
        (qs : List (Query F)) → search_all redis o qs s ≡ (map (λ q. ok (found_for q)) qs, s)
    unfolding search_all found_for
    search_all_answers [] = refl
    search_all_answers (q ∷ qs) =
        rw (quiet.geo_search_answers (geo_key o) (search_for q) s, search_all_answers qs) refl

    exec_error-none :
        (qs : List (Query F)) → exec_error redis o (map (λ q. ok (found_for q)) qs) ≡ none
    unfolding exec_error
    exec_error-none [] = refl
    exec_error-none (q ∷ qs) = exec_error-none qs

    collect_found :
        (i : ℕ) (qs : List (Query F))
        → collect redis o i (map (λ q. ok (found_for q)) qs) ≡ ok (map (λ q. found_for q) qs)
    unfolding collect keep_raw
    collect_found i [] = refl
    collect_found i (q ∷ qs) = ap (keep_raw redis o (found_for q)) (collect_found (suc i) qs)

    search_op_answers :
        (qs : List (Query F)) → search_op redis o qs s ≡ (ok (map (λ q. ok (found_for q)) qs), s)
    unfolding search_op executed
    search_op_answers qs = rw (search_all_answers qs, exec_error-none qs) refl

    module _ (c : ℤ) where
      -- When a member was seen, unless that is behind the cutoff.
      fresh_time : String → Option Time
      fresh_time m =
          if leb_ℤ c (to_int64 (score_of m))
          then some (from_milli (to_int64 (score_of m)))
          else none

      -- The first of the members is the one that is asked for.
      first :
          (j : String) (ms : List String)
          → seen_at j (fresh_of redis o c ms (map (λ i. score_of i) ms))
            ≡ (if is_in j ms then fresh_time j else none)
          → seen_at j (fresh_of redis o c (j ∷ ms) (map (λ i. score_of i) (j ∷ ms))) ≡ fresh_time j
      unfolding seen_at fresh_of fresh_time
      first j ms h = elim (Bool-cases (leb_ℤ c (to_int64 (score_of j)))) [
        | inl f ↦ rw (f, same_self j) refl
        | inr f ↦ rw f ((rw f at h) ∙ both_none (is_in j ms))
      ]

      seen_at-fresh_of :
          (m : String) (ms : List String)
          → seen_at m (fresh_of redis o c ms (map (λ j. score_of j) ms))
            ≡ (if is_in m ms then fresh_time m else none)
      unfolding seen_at fresh_of fresh_time
      seen_at-fresh_of m [] = refl
      seen_at-fresh_of m (j ∷ ms) = elim (Bool-cases (same j m)) [
        | inl e ↦ rw (e, sym (same→eq j m e)) (first j ms (seen_at-fresh_of j ms))
        | inr e ↦ elim (Bool-cases (leb_ℤ c (to_int64 (score_of j)))) [
          | inl f ↦ rw (e, f, e) (seen_at-fresh_of m ms)
          | inr f ↦ rw (e, f) (seen_at-fresh_of m ms)
        ]
      ]

      -- The two loops over the candidates of one query.
      same_loops :
          (fs : List (String × Time)) (n : ℕ) (ps : List (Place F))
          → All (λ p. seen_at p.name fs ≡ fresh_time p.name) ps
          → known_up_to redis o fs n ps
            ≡ map
                (stamp o.tenant_id)
                (fresh_up_to redis o c n (with_scores ps (map (λ m. score_of m) (names ps))))
      unfolding known_up_to fresh_up_to fresh_time on_seen located
      same_loops fs zero ps h = refl
      same_loops fs (suc n) [] h = refl
      same_loops fs (suc n) (p ∷ ps) h = elim (Bool-cases (leb_ℤ c (to_int64 (score_of p.name)))) [
        | inl e ↦ seen h.0 ∙ rw e (cons_eq _ (same_loops fs n ps h.1))
        | inr e ↦ seen h.0 ∙ rw e (same_loops fs (suc n) ps h.1)
      ]
        where
          seen :
              {t : Option Time}
              → seen_at p.name fs ≡ t
              → known_up_to redis o fs (suc n) (p ∷ ps)
                ≡ on_seen redis o p t
                    (known_up_to redis o fs n ps)
                    (known_up_to redis o fs (suc n) ps)
          seen e' =
              ap
                (λ t.
                  on_seen redis o p t (known_up_to redis o fs n ps)
                    (known_up_to redis o fs (suc n) ps))
                e'

    module _ (w : Weather) (now : Time) (n : ℕ) (retries : o.max_retries ≡ pos n) where
      retried :
          {A : Type 0} (op : Server → Fallible A × Server) (a : A)
          → op s ≡ (ok a, s)
          → with_retry w o.max_retries op s ≡ (ok a, s)
      retried op a h = ap (λ m. with_retry w m op s) retries ∙ with_retry_ok w n op s s a h

      -- What a single search answers.
      answer_of : Query F → List (DriverLocation F)
      answer_of q =
          fresh_up_to redis o (cutoff o now) (limit_of q.limit)
            (with_scores (found_for q) (map (λ m. score_of m) (names (found_for q))))

      fresh_nothing : (c : ℤ) (k : ℕ) → fresh_up_to redis o c k [] ≡ []
      unfolding fresh_up_to
      fresh_nothing c zero = refl
      fresh_nothing c (suc k) = refl

      searched_answers :
          (k : ℕ) (ps : List (Place F))
          → searched redis o w now k (ok ps, s) ≡ (
            ok (
                fresh_up_to redis o
                  (cutoff o now)
                  k
                  (with_scores ps (map (λ m. score_of m) (names ps)))),
            s,
          )
      unfolding searched filtered score_of
      searched_answers k [] = ap (λ ls. (ok ls, s)) (sym (fresh_nothing (cutoff o now) k))
      searched_answers k (p ∷ ps) =
          ap (filtered redis o w now k (p ∷ ps))
            (retried _ _ (quiet.zmscore_answers (seen_key o) (names (p ∷ ps)) s))

      nearby_answers :
          (q : Query F)
          → at_most q.radius (literal (pos 0)) ≡ false
          → nearby redis o w now q s ≡ (ok (answer_of q), s)
      unfolding nearby answer_of found_for
      nearby_answers q h = rw h (
          ap (searched redis o w now (limit_of q.limit))
            (retried _ _ (quiet.geo_search_answers (geo_key o) (search_for q) s))
          ∙ searched_answers (limit_of q.limit) (found_for q))

      -- The times that `NearbyMany` knows of the members.
      known : List String → List (String × Time)
      known ms = fresh_of redis o (cutoff o now) ms (map (λ m. score_of m) ms)

      score_all-answers :
          (qs : List (Query F)) (raw : List (List (Place F))) (ms : List String)
          → score_all redis o w now qs raw ms s ≡ (ok (answers redis o (known ms) qs raw), s)
      unfolding score_all judged known score_of fresh_of
      score_all-answers qs raw [] = refl
      score_all-answers qs raw (m ∷ ms) =
          ap (judged redis o w now qs raw (m ∷ ms))
            (retried _ _ (quiet.zmscore_answers (seen_key o) (m ∷ ms) s))

      abbrev IsKnown : List String → List (Place F) → Type 0
      IsKnown ms ps = All (λ p. seen_at p.name (known ms) ≡ fresh_time (cutoff o now) p.name) ps

      covered-IsKnown : (ms : List String) (ps : List (Place F)) → IsCovered ms ps → IsKnown ms ps
      unfolding known
      covered-IsKnown ms ps h =
          All-map
            (λ (p : Place F) (e : is_in p.name ms ≡ true).
              seen_at-fresh_of (cutoff o now) p.name ms ∙ rw e refl)
            ps h

      answers_found :
          (ms : List String) (qs : List (Query F))
          → All (IsKnown ms) (map (λ q. found_for q) qs)
          → answers redis o (known ms) qs (map (λ q. found_for q) qs)
            ≡ map (λ q. map (stamp o.tenant_id) (answer_of q)) qs
      unfolding answers answer_of
      answers_found ms [] h = refl
      answers_found ms (q ∷ qs) h =
          rw
            (
              same_loops (cutoff o now) (known ms) (limit_of q.limit) (found_for q) h.0,
              answers_found ms qs h.1,
            )
            refl

      candidates-IsKnown :
          (qs : List (Query F))
          → All (IsKnown (union (map (λ q. found_for q) qs) [])) (map (λ q. found_for q) qs)
      candidates-IsKnown qs =
          let raw = map (λ (q : Query F). found_for q) qs in
          All-map (covered-IsKnown (union raw [])) raw (union_covers raw [])

      nearby_many_answers :
          (qs : List (Query F))
          → nearby_many redis o w now qs s
            ≡ (ok (map (λ q. map (stamp o.tenant_id) (answer_of q)) qs), s)
      unfolding nearby_many pipelined collected
      nearby_many_answers [] = refl
      nearby_many_answers (q ∷ qs) =
          ap (pipelined redis o w now (q ∷ qs)) (retried _ _ (search_op_answers (q ∷ qs)))
          ∙ ap (λ r. collected redis o w now (q ∷ qs) r s) (collect_found 0 (q ∷ qs))
          ∙ score_all-answers (q ∷ qs) _ _
          ∙ ap (λ found. (ok found, s)) (answers_found _ (q ∷ qs) (candidates-IsKnown (q ∷ qs)))

      abbrev HasRadius : Query F → Type 0
      HasRadius q = at_most q.radius (literal (pos 0)) ≡ false

      held_answers :
          (qs : List (Query F))
          → All HasRadius qs
          → map (λ q. map (stamp o.tenant_id) (answer_of q)) qs
            ≡ map (λ q. map (stamp o.tenant_id) (held (nearby redis o w now q s).0)) qs
      held_answers [] h = refl
      held_answers (q ∷ qs) h = rw (nearby_answers q h.0, held_answers qs h.1) refl

      -- On a server that answers, with a maximum of retries that is not negative, and with a
      -- positive radius in each query: the pipelined search of many queries answers what the single
      -- searches of each of them answer, in the same order, but with the tenant's id on each
      -- location.
      pub nearby_many_same :
          (qs : List (Query F))
          → All HasRadius qs
          → All (λ q. nearby redis o w now q s ≡ (ok (held (nearby redis o w now q s).0), s)) qs
            × (nearby_many redis o w now qs s ≡ (
              ok (map (λ q. map (stamp o.tenant_id) (held (nearby redis o w now q s).0)) qs),
              s,
            ))
      nearby_many_same qs h = (
        All-map (λ (q : Query F) (r : HasRadius q). rw (nearby_answers q r) refl) qs h,
        nearby_many_answers qs ∙ ap (λ found. (ok found, s)) (held_answers qs h),
      )
