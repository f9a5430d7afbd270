-- ===== src/Queue/Stream/DeadLetter.antt =====
-- `DeadLetter` of the Redis stream, and the promises of the interface put together.
use ride_matching_engine.Common.{
  ◌≡◌, ◌≢◌, refl, ◌⊎◌, inl, inr, String, none, some, List, [], ◌∷◌, Memᴰ, same, same→eq, same-false,
  ne→same, Bool-cases,
}
use ride_matching_engine.Errors.{Error, Fallible, ok, err, wrap}
use ride_matching_engine.Floats.{Floats}
use ride_matching_engine.Queue.{RideRequest, Message, Promises}
use ride_matching_engine.Queue.Codec.{Numerals}
use ride_matching_engine.Queue.Stream.{
  Commands, StreamOptions, stream_key, dead_key, dead_fields, dead_letter, stream_queue,
}
use ride_matching_engine.Queue.Stream.Views.{StreamLaws}
use ride_matching_engine.Queue.Stream.NoLoss.{
  InPel, Requeued, GivenUp, ack-InPel, ack_keeps, IsKeptByAck, xadd-Requeued, xack-Requeued,
  xadd-GivenUp, xack-GivenUp, republish-InPel, republish-Requeued, republish-GivenUp,
  republish_done, singleton,
}

module _ (fl : Floats) (n : Numerals) (redis : Commands) (o : StreamOptions)
    (laws : StreamLaws redis) where
  open fl use {F}
  open redis use {Server, xadd, xack}

  Fallible-cases : (r : Fallible String) → ((i : String) × (r ≡ ok i)) ⊎ ((e : Error) × (r ≡ err e))
  Fallible-cases (ok i) = inl (i, refl)
  Fallible-cases (err e) = inr (e, refl)

  -- The state behind the dead letter's XADD.
  abbrev pub added : Message F → String → Server → Fallible String × Server
  added m why s = xadd (dead_key o) o.max_len (dead_fields fl n redis o m why) s

  dead_letter_keeps :
      (V : Server → Type 0)
      → IsKeptByAck fl n redis o laws V
      → (m : Message F) (why : String) (s : Server) → V (added m why s).1
      → V (dead_letter fl n redis o m why s).1
  unfolding dead_letter
  dead_letter_keeps V kept m why s u = elim (Bool-cases (same m.id "")) [
    | inl h ↦ rw h u
    | inr h ↦ rw h (kept (stream_key o) o.group (m.id ∷ []) _ u)
  ]

  pub dead_letter-GivenUp :
      (m : Message F) (why : String) (s : Server) (d : Message F)
      → GivenUp fl n redis o laws (added m why s).1 d
      → GivenUp fl n redis o laws (dead_letter fl n redis o m why s).1 d
  dead_letter-GivenUp m why s d u =
      dead_letter_keeps (λ t. GivenUp fl n redis o laws t d)
        (λ k g ids t v. xack-GivenUp fl n redis o laws k g ids t d v) m why s u

  pub dead_letter-Requeued :
      (m : Message F) (why : String) (s : Server) (r : RideRequest F)
      → Requeued fl n redis o laws s r
      → Requeued fl n redis o laws (dead_letter fl n redis o m why s).1 r
  dead_letter-Requeued m why s r u =
      dead_letter_keeps (λ t. Requeued fl n redis o laws t r)
        (λ k g ids t v. xack-Requeued fl n redis o laws k g ids t r v) m why s
        (xadd-Requeued fl n redis o laws (dead_key o) o.max_len (dead_fields fl n redis o m why) s r
          u)

  -- The entry, behind an XADD that returned an id.
  added_done :
      (m : Message F) (why : String) (s : Server) (i : String)
      → (added m why s).0 ≡ ok i
      → GivenUp fl n redis o laws (added m why s).1 m
  added_done m why s i h =
      (why, inl (laws.xadd_done (dead_key o) o.max_len (dead_fields fl n redis o m why) s i h).1)

  -- A failed XADD is the error of the whole.
  dead_letter_failed :
      (m : Message F) (why : String) (s : Server) (e : Error)
      → (added m why s).0 ≡ err e
      → (dead_letter fl n redis o m why s).0 ≡ some (wrap "queue: dead-letter: " e "")
  unfolding dead_letter
  dead_letter_failed m why s e k = elim (Bool-cases (same m.id "")) [
    | inl h ↦ rw h (rw k refl)
    | inr h ↦ rw h (rw k refl)
  ]

  pub dead_letter_done :
      (m : Message F) (why : String) (s : Server)
      → (dead_letter fl n redis o m why s).0 ≡ none
      → GivenUp fl n redis o laws (dead_letter fl n redis o m why s).1 m
  dead_letter_done m why s h = elim (Fallible-cases (added m why s).0) [
    | inl (i, e) ↦ dead_letter-GivenUp m why s m (added_done m why s i e)
    | inr (e, k) ↦ cc (dead_letter_failed m why s e k)
  ]

  -- The ack takes out the message itself only.
  acked_one :
      (m : Message F) (why : String) (s : Server) (i : String)
      → InPel fl n redis o laws (added m why s).1 i
      → GivenUp fl n redis o laws (added m why s).1 m
      → InPel fl n redis o laws (dead_letter fl n redis o m why s).1 i
        ⊎ ((i ≡ m.id) × GivenUp fl n redis o laws (dead_letter fl n redis o m why s).1 m)
  unfolding dead_letter
  acked_one m why s i u g = elim (Bool-cases (same m.id "")) [
    | inl h ↦ rw h (inl u)
    | inr h ↦ elim (Bool-cases (same i m.id)) [
      | inl e ↦ inr (same→eq i m.id e, dead_letter-GivenUp m why s m g)
      | inr e ↦ rw h (
          inl (
            laws.xack-Pending (stream_key o) o.group (m.id ∷ []) _ i
              (singleton fl n redis o laws i m.id (same-false i m.id e)) u))
    ]
  ]

  -- Nothing is acked behind a connection that is lost.
  not_acked :
      (m : Message F) (why : String) (s : Server) (i : String)
      → InPel fl n redis o laws (added m why s).1 i
      → ((key group j : String) (ids : List String)
          → laws.Pending (added m why s).1 key group j
          → laws.Pending (xack key group ids (added m why s).1).1 key group j)
      → InPel fl n redis o laws (dead_letter fl n redis o m why s).1 i
  unfolding dead_letter
  not_acked m why s i u lost = elim (Bool-cases (same m.id "")) [
    | inl h ↦ rw h u
    | inr h ↦ rw h (lost (stream_key o) o.group i (m.id ∷ []) u)
  ]

  pub dead_letter-InPel :
      (m : Message F) (why : String) (s : Server) (i : String)
      → InPel fl n redis o laws s i
      → InPel fl n redis o laws (dead_letter fl n redis o m why s).1 i
        ⊎ ((i ≡ m.id) × GivenUp fl n redis o laws (dead_letter fl n redis o m why s).1 m)
  dead_letter-InPel m why s i u =
      let f = dead_fields fl n redis o m why in
      let u' = laws.xadd-Pending (dead_key o) o.max_len f s _ _ i u in
      elim (Fallible-cases (added m why s).0) [
        | inl (j, k) ↦ acked_one m why s i u' (added_done m why s j k)
        | inr (e, k) ↦ elim (laws.xadd_failed (dead_key o) o.max_len f s e k) [
          | inl refused ↦ acked_one m why s i u' (why, inr (inr refused))
          | inr (inl stored) ↦ acked_one m why s i u' (why, inl stored)
          | inr (inr lost) ↦ inl (not_acked m why s i u' lost)
        ]
      ]

  -- The Redis stream keeps the promises of the interface, under these views.
  unfoldable pub promises : Promises F (stream_queue fl n redis o)
  promises = record {
    Pending = InPel fl n redis o laws;
    Queued = Requeued fl n redis o laws;
    Dead = GivenUp fl n redis o laws;
    ack-Pending = ack-InPel fl n redis o laws;
    ack-Queued = λ ids s r u.
        ack_keeps fl n redis o laws (λ t. Requeued fl n redis o laws t r)
          (λ k g js t v. xack-Requeued fl n redis o laws k g js t r v) ids s u;
    ack-Dead = λ ids s m u.
        ack_keeps fl n redis o laws (λ t. GivenUp fl n redis o laws t m)
          (λ k g js t v. xack-GivenUp fl n redis o laws k g js t m v) ids s u;
    republish-Pending = republish-InPel fl n redis o laws;
    republish-Queued = republish-Requeued fl n redis o laws;
    republish-Dead = republish-GivenUp fl n redis o laws;
    republish_done = republish_done fl n redis o laws;
    dead_letter-Pending = dead_letter-InPel;
    dead_letter-Queued = dead_letter-Requeued;
    dead_letter-Dead = λ m why s d u. dead_letter-GivenUp m why s d (
        xadd-GivenUp fl n redis o laws (dead_key o) o.max_len (dead_fields fl n redis o m why) s d
          u);
    dead_letter_done = dead_letter_done;
  }

  -- For a message with a broker id: if the server refuses the write to the dead-letter stream and
  -- carries out the ack that was sent with it, `DeadLetter` returns an error, and the message is no longer pending: it will not be
  -- delivered again.
  pub dead_letter_refused :
      (m : Message F) (why : String) (s : Server) (e : Error)
      → m.id ≢ ""
      → (added m why s).0 ≡ err e
      → (xack (stream_key o) o.group (m.id ∷ []) (added m why s).1).0 ≡ none
      → ((dead_letter fl n redis o m why s).0 ≡ some (wrap "queue: dead-letter: " e ""))
        × ¬ InPel fl n redis o laws (dead_letter fl n redis o m why s).1 m.id
  unfolding dead_letter
  dead_letter_refused m why s e named refused acked = (
    dead_letter_failed m why s e refused,
    rw (ne→same m.id "" named)
        (laws.xack_done (stream_key o) o.group (m.id ∷ []) _ m.id acked (Memᴰ.head refl)),
  )
