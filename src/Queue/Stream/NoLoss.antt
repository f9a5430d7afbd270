-- ===== src/Queue/Stream/NoLoss.antt =====
-- The Redis stream under the views of the queue's interface: `Publish`, `Ack` and `Republish`.
use ride_matching_engine.Common.{
  ℕ, ◌≡◌, ◌≢◌, refl, ◌⊎◌, inl, inr, String, none, List, [], ◌∷◌, Memᴰ, same, same→eq, same-false,
  Bool-cases,
}
use ride_matching_engine.Errors.{Error, Fallible, ok, err}
use ride_matching_engine.Floats.{Floats}
use ride_matching_engine.Queue.{RideRequest, Message, retried}
use ride_matching_engine.Queue.Codec.{Fields, Numerals, to_fields}
use ride_matching_engine.Queue.Stream.{
  Commands, StreamOptions, stream_key, dead_key, publish, published, ack, ack_original, republish,
  dead_fields,
}
use ride_matching_engine.Queue.Stream.Views.{StreamLaws}

module _ (fl : Floats) (n : Numerals) (redis : Commands) (o : StreamOptions)
    (laws : StreamLaws redis) where
  open fl use {F}
  open redis use {Server, xadd, xack}

  -- The views of the interface. A request is requeued when an entry that carries it waits in the
  -- stream, or was trimmed from it. A message is given up when the dead-letter stream holds an entry
  -- that carries it, with some reason, or such an entry was trimmed from it or refused by the server.
  abbrev pub InPel : Server → String → Type 0
  InPel s i = laws.Pending s (stream_key o) o.group i

  abbrev pub Requeued : Server → RideRequest F → Type 0
  Requeued s r =
      laws.Unread s (stream_key o) (to_fields fl o.now r)
      ⊎ laws.Trimmed s (stream_key o) (to_fields fl o.now r)

  abbrev pub Entered : Server → Fields → Type 0
  Entered s f =
      laws.Stored s (dead_key o) f ⊎ (laws.Trimmed s (dead_key o) f ⊎ laws.Refused s (dead_key o) f)

  abbrev pub GivenUp : Server → Message F → Type 0
  GivenUp s m = (why : String) × Entered s (dead_fields fl n redis o m why)

  -- What XADD and XACK keep of them.
  pub xadd-Requeued :
      (k : String) (cap : ℕ) (f : Fields) (s : Server) (r : RideRequest F)
      → Requeued s r
      → Requeued (xadd k cap f s).1 r
  xadd-Requeued k cap f s r (inl u) = laws.xadd-Unread k cap f s _ _ u
  xadd-Requeued k cap f s r (inr t) = inr (laws.xadd-Trimmed k cap f s _ _ t)

  pub xack-Requeued :
      (k g : String) (ids : List String) (s : Server) (r : RideRequest F)
      → Requeued s r
      → Requeued (xack k g ids s).1 r
  xack-Requeued k g ids s r (inl u) = inl (laws.xack-Unread k g ids s _ _ u)
  xack-Requeued k g ids s r (inr t) = inr (laws.xack-Trimmed k g ids s _ _ t)

  xadd-Entered :
      (k : String) (cap : ℕ) (f : Fields) (s : Server) (d : Fields)
      → Entered s d
      → Entered (xadd k cap f s).1 d
  xadd-Entered k cap f s d (inl u) = elim (laws.xadd-Stored k cap f s _ _ u) [
    | inl v ↦ inl v
    | inr t ↦ inr (inl t)
  ]
  xadd-Entered k cap f s d (inr (inl t)) = inr (inl (laws.xadd-Trimmed k cap f s _ _ t))
  xadd-Entered k cap f s d (inr (inr t)) = inr (inr (laws.xadd-Refused k cap f s _ _ t))

  xack-Entered :
      (k g : String) (ids : List String) (s : Server) (d : Fields)
      → Entered s d
      → Entered (xack k g ids s).1 d
  xack-Entered k g ids s d (inl u) = inl (laws.xack-Stored k g ids s _ _ u)
  xack-Entered k g ids s d (inr (inl t)) = inr (inl (laws.xack-Trimmed k g ids s _ _ t))
  xack-Entered k g ids s d (inr (inr t)) = inr (inr (laws.xack-Refused k g ids s _ _ t))

  pub xadd-GivenUp :
      (k : String) (cap : ℕ) (f : Fields) (s : Server) (m : Message F)
      → GivenUp s m
      → GivenUp (xadd k cap f s).1 m
  xadd-GivenUp k cap f s m (why, u) = (why, xadd-Entered k cap f s _ u)

  pub xack-GivenUp :
      (k g : String) (ids : List String) (s : Server) (m : Message F)
      → GivenUp s m
      → GivenUp (xack k g ids s).1 m
  xack-GivenUp k g ids s m (why, u) = (why, xack-Entered k g ids s _ u)

  -- What every XACK keeps.
  abbrev pub IsKeptByAck : (Server → Type 0) → Type 0
  IsKeptByAck V = (k g : String) (ids : List String) (s : Server) → V s → V (xack k g ids s).1

  pub ack-InPel :
      (ids : List String) (s : Server) (i : String)
      → ¬ Memᴰ i ids
      → InPel s i
      → InPel (ack fl n redis o ids s).1 i
  unfolding ack
  ack-InPel [] s i h p = p
  ack-InPel (j ∷ ids) s i h p = laws.xack-Pending _ _ (j ∷ ids) s i h p

  pub ack_keeps :
      (V : Server → Type 0)
      → IsKeptByAck V
      → (ids : List String) (s : Server) → V s
      → V (ack fl n redis o ids s).1
  unfolding ack
  ack_keeps V kept [] s p = p
  ack_keeps V kept (j ∷ ids) s p = kept _ _ (j ∷ ids) s p

  -- What a publish keeps, and what it adds when it succeeds.
  pub publish_facts :
      (r : RideRequest F) (s : Server)
      → let s' = (publish fl n redis o r s).1 in
        ((i : String) → InPel s i → InPel s' i)
        × ((q : RideRequest F) → Requeued s q → Requeued s' q)
        × ((m : Message F) → GivenUp s m → GivenUp s' m)
  unfolding publish
  publish_facts r s = elim (Bool-cases (same r.request_id "")) [
    | inl e ↦ rw e (λ i p. p, λ q p. p, λ m p. p)
    | inr e ↦ rw e (
      λ i p. laws.xadd-Pending _ _ _ s _ _ i p,
      λ q p. xadd-Requeued _ _ _ s q p,
      λ m p. xadd-GivenUp _ _ _ s m p,
    )
  ]

  published_ok :
      (reply : Fallible String) (i : String) → published fl n redis o reply ≡ ok i → reply ≡ ok i
  unfolding published
  published_ok (ok j) i h = h
  published_ok (err e) i h = cc

  -- A publish that returns an id has the request in the stream.
  publish_done :
      (r : RideRequest F) (s : Server) (i : String)
      → (publish fl n redis o r s).0 ≡ ok i
      → Requeued (publish fl n redis o r s).1 r
  unfolding publish
  publish_done r s i h = elim (Bool-cases (same r.request_id "")) [
    | inl e ↦ absurd (empty (rw e at h))
    | inr e ↦ rw e (inl (laws.xadd_done _ _ _ s i (published_ok _ i (rw e at h))).0)
  ]
    where
      empty : {f : Error} → ◌≡◌ {A = Fallible String} (err f) (ok i) → ⊥
      empty k = cc

  -- Only the message itself is no longer pending once the original is acked.
  pub singleton : (i j : String) → i ≢ j → ¬ Memᴰ i (j ∷ [])
  singleton i j h (Memᴰ.head e) = h e
  singleton i j h (Memᴰ.tail m) = elim m [ ]

  ack_original_keeps :
      (V : Server → Type 0)
      → IsKeptByAck V
      → (m : Message F) (p : Fallible String × Server) → V p.1
      → V (ack_original fl n redis o m p).1
  unfolding ack_original
  ack_original_keeps V kept m (err e, s) u = u
  ack_original_keeps V kept m (ok i, s) u = elim (Bool-cases (same m.id "")) [
    | inl h ↦ rw h u
    | inr h ↦ rw h (ack_keeps V kept (m.id ∷ []) s u)
  ]

  ack_original-Requeued :
      (m : Message F) (p : Fallible String × Server) (r : RideRequest F)
      → Requeued p.1 r
      → Requeued (ack_original fl n redis o m p).1 r
  ack_original-Requeued m p r u =
      ack_original_keeps (λ s. Requeued s r) (λ k g ids s v. xack-Requeued k g ids s r v) m p u

  ack_original-InPel :
      (m : Message F) (p : Fallible String × Server) (i : String)
      → InPel p.1 i
      → InPel (ack_original fl n redis o m p).1 i ⊎ ((i ≡ m.id) × ((j : String) × (p.0 ≡ ok j)))
  unfolding ack_original
  ack_original-InPel m (err e, s) i u = inl u
  ack_original-InPel m (ok j, s) i u = elim (Bool-cases (same m.id "")) [
    | inl h ↦ rw h (inl u)
    | inr h ↦ elim (Bool-cases (same i m.id)) [
      | inl e ↦ inr (same→eq i m.id e, (j, refl))
      | inr e ↦ rw h (inl (ack-InPel (m.id ∷ []) s i (singleton i m.id (same-false i m.id e)) u))
    ]
  ]

  ack_original_done :
      (m : Message F) (p : Fallible String × Server)
      → (ack_original fl n redis o m p).0 ≡ none
      → (j : String) × (p.0 ≡ ok j)
  unfolding ack_original
  ack_original_done m (err e, s) h = cc
  ack_original_done m (ok j, s) h = (j, refl)

  pub republish-InPel :
      (m : Message F) (s : Server) (i : String)
      → InPel s i
      → InPel (republish fl n redis o m s).1 i
        ⊎ ((i ≡ m.id) × Requeued (republish fl n redis o m s).1 (retried m.request))
  unfolding republish
  republish-InPel m s i u =
      let p = publish fl n redis o (retried m.request) s in
      elim (ack_original-InPel m p i ((publish_facts (retried m.request) s).0 i u)) [
        | inl k ↦ inl k
        | inr (e, (j, d)) ↦ inr (
          e,
          ack_original-Requeued m p (retried m.request) (publish_done (retried m.request) s j d),
        )
      ]

  pub republish_done :
      (m : Message F) (s : Server)
      → (republish fl n redis o m s).0 ≡ none
      → Requeued (republish fl n redis o m s).1 (retried m.request)
  unfolding republish
  republish_done m s h =
      let p = publish fl n redis o (retried m.request) s in
      let (j, d) = ack_original_done m p h in
      ack_original-Requeued m p (retried m.request) (publish_done (retried m.request) s j d)

  pub republish-Requeued :
      (m : Message F) (s : Server) (r : RideRequest F)
      → Requeued s r
      → Requeued (republish fl n redis o m s).1 r
  unfolding republish
  republish-Requeued m s r u =
      ack_original-Requeued m (publish fl n redis o (retried m.request) s) r
        ((publish_facts (retried m.request) s).1 r u)

  pub republish-GivenUp :
      (m : Message F) (s : Server) (d : Message F)
      → GivenUp s d
      → GivenUp (republish fl n redis o m s).1 d
  unfolding republish
  republish-GivenUp m s d u =
      ack_original_keeps (λ t. GivenUp t d) (λ k g ids t v. xack-GivenUp k g ids t d v) m
        (publish fl n redis o (retried m.request) s) ((publish_facts (retried m.request) s).2 d u)
