-- ===== src/Queue/Stream/Reclaim.antt =====
-- What `Consume` and `Reclaim` hand out.
use ride_matching_engine.Common.{
  ℕ, ◌+◌, ◌≤◌, ◌≡◌, ◌≢◌, refl, subst, sym, ap, if◌then◌else◌, leb, ◌||◌, inl, inr, String, none,
  some, List, [], ◌∷◌, All, All-append, Bool-cases, ltb, arith,
}
use ride_matching_engine.Errors.{
  Fallible, ok, err, has, redis_nil, context_canceled, deadline_exceeded,
}
use ride_matching_engine.Floats.{Floats}
use ride_matching_engine.Time.{Duration}
use ride_matching_engine.Queue.{Message}
use ride_matching_engine.Queue.Codec.{Entry, Numerals, decode, decode-request_id}
use ride_matching_engine.Queue.Stream.{
  Commands, StreamOptions, stream_key, Taken, count_of, again, or_stop, take_again, set_aside,
  reclaimed, claim, scanned, reclaim, fresh, take_fresh, consumed, consume,
}

module _ (fl : Floats) (n : Numerals) (redis : Commands) (o : StreamOptions) where
  open fl use {F}
  open redis use {Server}

  -- What the pending scan reports.
  abbrev pub reported : Fallible (List (String × ℕ)) → List (String × ℕ)
  reported (ok ps) = ps
  reported (err e) = []

  -- A message that may be handed out again: it carries a request id, its delivery is the one behind
  -- those that the scan reported for its id, and it has not come back too often.
  abbrev pub IsFit : List (String × ℕ) → Message F → Type 0
  IsFit counts m =
      (m.request.request_id ≢ "")
      × (m.deliveries ≡ count_of fl n redis o m.id counts 0 + 1)
      × (m.deliveries ≤ o.max_deliveries)

  again-IsFit :
      (counts : List (String × ℕ)) (e : Entry) (ms : List (Message F)) (s : Server)
      (d : Fallible (Message F))
      → decode fl n e ≡ d
      → All (IsFit counts) ms
      → All (IsFit counts) (again fl n redis o counts e d ms s).0
  unfolding again set_aside
  again-IsFit counts e ms s (err f) k h = h
  again-IsFit counts e ms s (ok m) k h =
      elim (Bool-cases (ltb o.max_deliveries (count_of fl n redis o e.id counts 0 + 1))) [
        | inl poison ↦ rw poison h
        | inr fit ↦ rw fit (
            All-append (IsFit counts) ms _ h (
              (
                (
                  (decode-request_id fl n e m k).0,
                  ap (λ i. count_of fl n redis o i counts 0 + 1)
                      (sym (decode-request_id fl n e m k).1),
                  ground arith,
                ),
                tt,
              )))
      ]

  or_stop-IsFit :
      (counts : List (String × ℕ)) (t : Taken fl n redis o)
      (next : List (Message F) → Server → Taken fl n redis o)
      → All (IsFit counts) t.0
      → ((ms : List (Message F)) (s : Server)
          → All (IsFit counts) ms
          → All (IsFit counts) (next ms s).0)
      → All (IsFit counts) (or_stop fl n redis o t next).0
  unfolding or_stop
  or_stop-IsFit counts (ms, some e, s) next h k = h
  or_stop-IsFit counts (ms, none, s) next h k = k ms s h

  take_again-IsFit :
      (counts : List (String × ℕ)) (es : List Entry) (ms : List (Message F)) (s : Server)
      → All (IsFit counts) ms
      → All (IsFit counts) (take_again fl n redis o counts es ms s).0
  unfolding take_again
  take_again-IsFit counts [] ms s h = h
  take_again-IsFit counts (e ∷ es) ms s h =
      or_stop-IsFit counts _ (take_again fl n redis o counts es)
        (again-IsFit counts e ms s (decode fl n e) refl h) (take_again-IsFit counts es)

  reclaimed-IsFit :
      (counts : List (String × ℕ)) (r : Fallible (List Entry)) (s : Server)
      → All (IsFit counts) (reclaimed fl n redis o counts r s).0
  unfolding reclaimed
  reclaimed-IsFit counts (ok es) s = take_again-IsFit counts es [] s tt
  reclaimed-IsFit counts (err e) s = elim (Bool-cases (has e redis_nil)) [
    | inl h ↦ rw h tt
    | inr h ↦ rw h tt
  ]

  scanned-IsFit :
      (min_idle : Duration) (r : Fallible (List (String × ℕ))) (s : Server)
      → All (IsFit (reported r)) (scanned fl n redis o min_idle r s).0
  unfolding scanned claim
  scanned-IsFit min_idle (ok []) s = tt
  scanned-IsFit min_idle (ok (p ∷ ps)) s = reclaimed-IsFit _ _ _
  scanned-IsFit min_idle (err e) s = elim (Bool-cases (has e redis_nil)) [
    | inl h ↦ rw h tt
    | inr h ↦ rw h tt
  ]

  -- Whatever the server answers, `Reclaim` hands out only messages that carry a request id, whose
  -- delivery count is one more than XPENDING reported for their id (0 where it reported none), and is
  -- within the limit.
  pub reclaim-IsFit :
      (min_idle : Duration) (max : ℕ) (s : Server)
      → All
          (IsFit (
            reported
              (redis.xpending (stream_key o) o.group min_idle (if leb max 0 then 1 else max) s).0))
          (reclaim fl n redis o min_idle max s).0
  unfolding reclaim
  reclaim-IsFit min_idle max s = scanned-IsFit min_idle _ _

  abbrev pub IsFresh : Message F → Type 0
  IsFresh m = (m.request.request_id ≢ "") × (m.deliveries ≡ 1)

  fresh-IsFresh :
      (e : Entry) (out : List (Message F) × Server) (d : Fallible (Message F))
      → decode fl n e ≡ d
      → All IsFresh out.0
      → All IsFresh (fresh fl n redis o e d out).0
  unfolding fresh
  fresh-IsFresh e (ms, s) (err f) k h = h
  fresh-IsFresh e (ms, s) (ok m) k h =
      All-append IsFresh ms _ h (((decode-request_id fl n e m k).0, refl), tt)

  take_fresh-IsFresh :
      (es : List Entry) (out : List (Message F) × Server)
      → All IsFresh out.0
      → All IsFresh (take_fresh fl n redis o es out).0
  unfolding take_fresh
  take_fresh-IsFresh [] out h = h
  take_fresh-IsFresh (e ∷ es) out h =
      take_fresh-IsFresh es (fresh fl n redis o e (decode fl n e) out)
        (fresh-IsFresh e out (decode fl n e) refl h)

  ok_inj : {xs ys : List (Message F)} → ok xs ≡ ok ys → xs ≡ ys
  ok_inj e = ground arith

  consumed-IsFresh :
      (r : Fallible (List Entry)) (s : Server) (ms : List (Message F))
      → (consumed fl n redis o r s).0 ≡ ok ms
      → All IsFresh ms
  unfolding consumed
  consumed-IsFresh (ok es) s ms h =
      subst (All IsFresh) (ok_inj h) (take_fresh-IsFresh es ([], s) tt)
  consumed-IsFresh (err e) s ms h = elim (Bool-cases (has e redis_nil)) [
    | inl nothing ↦ subst (All IsFresh) (ok_inj (rw nothing at h)) tt
    | inr other ↦ elim (Bool-cases (has e context_canceled || has e deadline_exceeded)) [
      | inl gone ↦ cc (rw (other, gone) at h)
      | inr failed ↦ cc (rw (other, failed) at h)
    ]
  ]

  -- Whatever the server answers, the messages that `Consume` returns carry a request id, and the
  -- delivery count 1.
  pub consume-IsFresh :
      (max : ℕ) (block : Duration) (s : Server) (ms : List (Message F))
      → (consume fl n redis o max block s).0 ≡ ok ms
      → All IsFresh ms
  unfolding consume
  consume-IsFresh max block s ms h = consumed-IsFresh _ _ ms h
