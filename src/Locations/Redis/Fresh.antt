-- ===== src/Locations/Redis/Fresh.antt =====
-- What the locations that NearbyMany answers with are: of the store's tenant, and pinged within the
-- TTL.
use ride_matching_engine.Common.{
  ℕ, zero, suc, ◌≡◌, refl, sym, ap, subst, ◌∙◌, true, String, Option, none, some, List, [], ◌∷◌,
  map, ℤ, Bool-cases, inl, inr, same, same→eq, All,
}
use ride_matching_engine.Common.Int.{leb_ℤ}
use ride_matching_engine.Errors.{Fallible, ok, err}
use ride_matching_engine.Floats.{Floats}
use ride_matching_engine.Time.{Time, from_milli}
use ride_matching_engine.Locations.{DriverLocation, Query}
use ride_matching_engine.Locations.Retry.{Weather, with_retry-IsGood, IsGood}
use ride_matching_engine.Locations.Redis.{
  Options, Place, Search, Commands, geo_key, seen_key, cutoff, limit_of, search_for, union, seen_at,
}
use ride_matching_engine.Locations.Redis.Searches.{
  located, fresh_of, on_seen, known_up_to, answers, judged, score_all, collect, collected,
  search_all, search_op, executed, exec_error, pipelined, nearby_many,
}

-- A server whose two reads change no score, and on which ZMSCORE answers with the scores, one for each
-- member, or fails. Nothing is said of what a search finds.
pub record Scores {fl : Floats} (redis : Commands fl) : Type 0 where
  pub score : String → String → redis.Server → fl.F
  pub geo_search_keeps :
      (k : String) (q : Search fl.F) (s : redis.Server) (j m : String)
      → score j m (redis.geo_search k q s).1 ≡ score j m s
  pub zmscore_keeps :
      (k : String) (ms : List String) (s : redis.Server) (j m : String)
      → score j m (redis.zmscore k ms s).1 ≡ score j m s
  pub zmscore_scores :
      (k : String) (ms : List String) (s : redis.Server) (xs : List fl.F)
      → (redis.zmscore k ms s).0 ≡ ok xs
      → xs ≡ map (λ m. score k m s) ms

module _ {fl : Floats} (redis : Commands fl) (o : Options) where
  open fl use {F}
  open redis use {Server, zmscore, geo_search, to_int64}

  module _ (c : ℤ) (score_of : String → F) where
    -- The last ping of a driver is not behind the cutoff.
    abbrev pub IsRecent : String → Type 0
    IsRecent id = leb_ℤ c (to_int64 (score_of id)) ≡ true

    abbrev pub IsSeen : String × Time → Type 0
    IsSeen (id, t) = (t ≡ from_milli (to_int64 (score_of id))) × IsRecent id

    abbrev pub IsFresh : DriverLocation F → Type 0
    IsFresh l = (l.tenant_id ≡ o.tenant_id) × IsSeen (l.driver_id, l.last_seen)

    fresh_of-IsSeen : (ms : List String) → All IsSeen (fresh_of redis o c ms (map score_of ms))
    unfolding fresh_of
    fresh_of-IsSeen [] = tt
    fresh_of-IsSeen (m ∷ ms) = elim (Bool-cases (leb_ℤ c (to_int64 (score_of m)))) [
      | inl e ↦ rw e ((refl, e), fresh_of-IsSeen ms)
      | inr e ↦ rw e (fresh_of-IsSeen ms)
    ]

    abbrev IfSome : String → Option Time → Type 0
    IfSome id none = Unit
    IfSome id (some t) = IsSeen (id, t)

    seen_at-IsSeen :
        (m : String) (fs : List (String × Time)) → All IsSeen fs → IfSome m (seen_at m fs)
    unfolding seen_at
    seen_at-IsSeen m [] h = tt
    seen_at-IsSeen m ((j, t) ∷ fs) h = elim (Bool-cases (same j m)) [
      | inl e ↦ rw e (subst (λ k. IsSeen (k, t)) (same→eq j m e) h.0)
      | inr e ↦ rw e (seen_at-IsSeen m fs h.1)
    ]

    on_seen-IsFresh :
        (p : Place F) (t : Option Time) (taken skipped : List (DriverLocation F))
        → IfSome p.name t
        → All IsFresh taken
        → All IsFresh skipped
        → All IsFresh (on_seen redis o p t taken skipped)
    unfolding on_seen located
    on_seen-IsFresh p none taken skipped h a b = b
    on_seen-IsFresh p (some t) taken skipped h a b = ((refl, h), a)

    known_up_to-IsFresh :
        (fs : List (String × Time)) (n : ℕ) (ps : List (Place F))
        → All IsSeen fs
        → All IsFresh (known_up_to redis o fs n ps)
    unfolding known_up_to
    known_up_to-IsFresh fs zero ps h = tt
    known_up_to-IsFresh fs (suc n) [] h = tt
    known_up_to-IsFresh fs (suc n) (p ∷ ps) h =
        on_seen-IsFresh p (seen_at p.name fs) _ _ (seen_at-IsSeen p.name fs h)
          (known_up_to-IsFresh fs n ps h) (known_up_to-IsFresh fs (suc n) ps h)

    answers-IsFresh :
        (fs : List (String × Time)) (qs : List (Query F)) (raw : List (List (Place F)))
        → All IsSeen fs
        → All (All IsFresh) (answers redis o fs qs raw)
    unfolding answers
    answers-IsFresh fs [] raw h = tt
    answers-IsFresh fs (q ∷ qs) [] h = tt
    answers-IsFresh fs (q ∷ qs) (ps ∷ raw) h =
        (known_up_to-IsFresh fs (limit_of q.limit) ps h, answers-IsFresh fs qs raw h)

  module _ (scores : Scores redis) (w : Weather) (now : Time) (s0 : Server) where
    abbrev pub score_of : String → F
    score_of m = scores.score (seen_key o) m s0

    abbrev pub AllFresh : Fallible (List (List (DriverLocation F))) → Type 0
    AllFresh (err e) = Unit
    AllFresh (ok ls) = All (All (IsFresh (cutoff o now) score_of)) ls

    -- A server with the scores of the first one.
    abbrev Kept : Server → Type 0
    Kept s = (m : String) → scores.score (seen_key o) m s ≡ score_of m

    same_map :
        (s : Server) (ms : List String)
        → Kept s
        → map (λ m. scores.score (seen_key o) m s) ms ≡ map score_of ms
    same_map s [] h = refl
    same_map s (m ∷ ms) h = rw (h m, same_map s ms h) refl

    abbrev AreScores : List String → List F → Type 0
    AreScores ms xs = xs ≡ map score_of ms

    zmscore-IsGood :
        (ms : List String) (s : Server) (r : Fallible (List F) × Server)
        → Kept s
        → zmscore (seen_key o) ms s ≡ r
        → IsGood Kept (AreScores ms) r
    zmscore-IsGood ms s (err e, s') h run = λ m.
        ap (λ (x : Fallible (List F) × Server). scores.score (seen_key o) m x.1) (sym run)
        ∙ (scores.zmscore_keeps (seen_key o) ms s (seen_key o) m ∙ h m)
    zmscore-IsGood ms s (ok xs, s') h run = (
      scores.zmscore_scores (seen_key o) ms s xs (ap (λ (x : Fallible (List F) × Server). x.0) run)
          ∙ same_map s ms h,
      λ m.
          ap (λ (x : Fallible (List F) × Server). scores.score (seen_key o) m x.1) (sym run)
          ∙ (scores.zmscore_keeps (seen_key o) ms s (seen_key o) m ∙ h m),
    )

    judged-AllFresh :
        (qs : List (Query F)) (raw : List (List (Place F))) (ms : List String)
        (r : Fallible (List F) × Server)
        → IsGood Kept (AreScores ms) r
        → AllFresh (judged redis o w now qs raw ms r).0
    unfolding judged
    judged-AllFresh qs raw ms (err e, s) h = tt
    judged-AllFresh qs raw ms (ok xs, s) (e, h) = rw e (
        answers-IsFresh (cutoff o now) score_of _ qs raw
          (fresh_of-IsSeen (cutoff o now) score_of ms))

    score_all-AllFresh :
        (qs : List (Query F)) (raw : List (List (Place F))) (ms : List String) (s : Server)
        → Kept s
        → AllFresh (score_all redis o w now qs raw ms s).0
    unfolding score_all
    score_all-AllFresh qs raw [] s h = answers-IsFresh (cutoff o now) score_of [] qs raw tt
    score_all-AllFresh qs raw (m ∷ ms) s h = judged-AllFresh qs raw (m ∷ ms) _ (
        with_retry-IsGood w o.max_retries (zmscore (seen_key o) (m ∷ ms)) Kept (AreScores (m ∷ ms))
          (λ t k. zmscore-IsGood (m ∷ ms) t _ k refl) s h)

    collected-AllFresh :
        (qs : List (Query F)) (r : Fallible (List (List (Place F)))) (s : Server)
        → Kept s
        → AllFresh (collected redis o w now qs r s).0
    unfolding collected
    collected-AllFresh qs (err e) s h = tt
    collected-AllFresh qs (ok raw) s h = score_all-AllFresh qs raw (union raw []) s h

    search_all_keeps :
        (qs : List (Query F)) (s : Server) → Kept s → Kept (search_all redis o qs s).1
    unfolding search_all
    search_all_keeps [] s h = h
    search_all_keeps (q ∷ qs) s h =
        search_all_keeps qs (geo_search (geo_key o) (search_for q) s).1
          (λ m. scores.geo_search_keeps (geo_key o) (search_for q) s (seen_key o) m ∙ h m)

    result_lem :
        {A : Type 0} (r : Fallible A) (s : Server) → Kept s → IsGood Kept (λ a. Unit) (r, s)
    result_lem (ok a) s h = (tt, h)
    result_lem (err e) s h = h

    search_op-IsGood :
        (qs : List (Query F)) (s : Server)
        → Kept s
        → IsGood Kept (λ a. Unit) (search_op redis o qs s)
    unfolding search_op
    search_op-IsGood qs s h =
        let rs = (search_all redis o qs s).0 in
        result_lem (executed redis o rs (exec_error redis o rs)) _ (search_all_keeps qs s h)

    pipelined-AllFresh :
        (qs : List (Query F)) (r : Fallible (List (Fallible (List (Place F)))) × Server)
        → IsGood Kept (λ a. Unit) r
        → AllFresh (pipelined redis o w now qs r).0
    unfolding pipelined
    pipelined-AllFresh qs (err e, s) h = tt
    pipelined-AllFresh qs (ok rs, s) h = collected-AllFresh qs (collect redis o 0 rs) s h.1

    -- Each location that `NearbyMany` returns is of the store's tenant, and its driver's last ping is not
    -- behind the cutoff.
    pub nearby_many-AllFresh : (qs : List (Query F)) → AllFresh (nearby_many redis o w now qs s0).0
    unfolding nearby_many
    nearby_many-AllFresh [] = tt
    nearby_many-AllFresh (q ∷ qs) = pipelined-AllFresh (q ∷ qs) _ (
        with_retry-IsGood w o.max_retries (search_op redis o (q ∷ qs)) Kept (λ a. Unit)
          (search_op-IsGood (q ∷ qs)) s0 (λ m. refl))
