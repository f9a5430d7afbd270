-- ===== src/Batcher/Settle/Keeps.antt =====
-- What the queue still holds of a message after the settling loop, under the promises that the
-- queue's documentation makes.
use ride_matching_engine.Common.{
  ◌≡◌, sym, subst, ◌≢◌, ◌⊎◌, inl, inr, true, false, String, List, [], ◌∷◌, ◌++◌, arith, Memᴰ, All,
  All-map, All-mem, mem-snoc, Bool-cases,
}
use ride_matching_engine.Queue.{Message, Queue, Promises, retried}
use ride_matching_engine.Engine.{any_same}
use ride_matching_engine.Batcher.Config.{Config}
use ride_matching_engine.Batcher.Batch.{BatchMetrics, MatchBatchResponse, Outside, World}
use ride_matching_engine.Batcher.Settle.{
  matched_requests, Settling, is_exhausted, give_up, put_back, settle_one, settle_all, ack_matched,
  settle, dead_letter_all, out_of_attempts,
}

-- No two messages of a batch have one broker id.
abbrev pub Distinct : {F : Type 0} → List (Message F) → Type 0
Distinct [] = Unit
Distinct (m ∷ ms) = All (λ x. x.id ≢ m.id) ms × Distinct ms

module _ {F : Type 0} (api : Queue F) (p : Promises F api) where
  open api use {State, ack, republish, dead_letter}
  open p use {Pending, Queued, Dead}

  -- The message will be delivered again, its next attempt is queued, or it is in the dead-letter
  -- stream.
  abbrev pub Kept : State → Message F → Type 0
  Kept q m = Pending q m.id ⊎ (Queued q (retried m.request) ⊎ Dead q m)

  ack-Kept :
      (ids : List String) (q : State) (x : Message F)
      → ¬ Memᴰ x.id ids
      → Kept q x
      → Kept (ack ids q).1 x
  ack-Kept ids q x h (inl k) = inl (p.ack-Pending ids q x.id h k)
  ack-Kept ids q x h (inr (inl k)) = inr (inl (p.ack-Queued ids q (retried x.request) k))
  ack-Kept ids q x h (inr (inr k)) = inr (inr (p.ack-Dead ids q x k))

  -- The message itself, or one with another broker id.
  abbrev pub Same : Message F → Message F → Type 0
  Same x m = (x ≡ m) ⊎ (x.id ≢ m.id)

  republish-Kept :
      (m : Message F) (q : State) (x : Message F) → Same x m → Kept q x → Kept (republish m q).1 x
  republish-Kept m q x s (inr (inl k)) = inr (inl (p.republish-Queued m q (retried x.request) k))
  republish-Kept m q x s (inr (inr k)) = inr (inr (p.republish-Dead m q x k))
  republish-Kept m q x s (inl k) = republished s (p.republish-Pending m q x.id k)
    where
      republished :
          Same x m
          → Pending (republish m q).1 x.id
            ⊎ ((x.id ≡ m.id) × Queued (republish m q).1 (retried m.request))
          → Kept (republish m q).1 x
      republished s (inl k) = inl k
      republished (inl e) (inr (_, k)) =
          inr (inl (subst (λ z. Queued (republish m q).1 (retried z.request)) (sym e) k))
      republished (inr n) (inr (e, _)) = absurd (n e)

  dead_letter-Kept :
      (m : Message F) (why : String) (q : State) (x : Message F)
      → Same x m
      → Kept q x
      → Kept (dead_letter m why q).1 x
  dead_letter-Kept m why q x s (inr (inl k)) =
      inr (inl (p.dead_letter-Queued m why q (retried x.request) k))
  dead_letter-Kept m why q x s (inr (inr k)) = inr (inr (p.dead_letter-Dead m why q x k))
  dead_letter-Kept m why q x s (inl k) = moved s (p.dead_letter-Pending m why q x.id k)
    where
      moved :
          Same x m
          → Pending (dead_letter m why q).1 x.id ⊎ ((x.id ≡ m.id) × Dead (dead_letter m why q).1 m)
          → Kept (dead_letter m why q).1 x
      moved s (inl k) = inl k
      moved (inl e) (inr (_, k)) = inr (inr (subst (λ z. Dead (dead_letter m why q).1 z) (sym e) k))
      moved (inr n) (inr (e, _)) = absurd (n e)

  give_up-queue :
      (m : Message F) (s : Settling State)
      → (give_up api m s).queue ≡ (dead_letter m (out_of_attempts m) s.queue).1
  unfolding give_up
  give_up-queue m s = ground arith

  give_up-ack_ids : (m : Message F) (s : Settling State) → (give_up api m s).ack_ids ≡ s.ack_ids
  unfolding give_up
  give_up-ack_ids m s = ground arith

  -- An unmatched message through a round of the loop: kept, and not among the ids to ack.
  abbrev Safe : Settling State → Message F → Type 0
  Safe s x = Kept s.queue x × ¬ Memᴰ x.id s.ack_ids

  give_up-Safe :
      (m : Message F) (s : Settling State) (x : Message F)
      → Same x m
      → Safe s x
      → Safe (give_up api m s) x
  give_up-Safe m s x d (k, n) =
      (rw (give_up-queue m s) (dead_letter-Kept m _ s.queue x d k), rw (give_up-ack_ids m s) n)

  put_back-Safe :
      (m : Message F) (s : Settling State) (x : Message F)
      → Same x m
      → Safe s x
      → Safe (put_back api m s) x
  unfolding put_back
  put_back-Safe m s x d (k, n) = (republish-Kept m s.queue x d k, n)

  module _ (c : Config F) (matched : List String) where
    -- `x` is another message than `m`, or it is `m` and the engine did not match it.
    abbrev Spared : Message F → Message F → Type 0
    Spared x m = (x.id ≢ m.id) ⊎ ((x ≡ m) × (any_same m.request.request_id matched ≡ false))

    Spared-Same : (x m : Message F) → Spared x m → Same x m
    Spared-Same x m (inl n) = inr n
    Spared-Same x m (inr (e, _)) = inl e

    settle_one-Safe :
        (m : Message F) (s : Settling State) (x : Message F)
        → Spared x m
        → Safe s x
        → Safe (settle_one api c matched m s) x
    unfolding settle_one
    settle_one-Safe m s x d (k, n) = elim (Bool-cases (any_same m.request.request_id matched)) [
      | inl hit ↦ rw hit (k, acked d hit)
      | inr miss ↦ elim (Bool-cases (is_exhausted c m)) [
        | inl over ↦ rw (miss, over) (give_up-Safe m s x (Spared-Same x m d) (k, n))
        | inr left ↦ rw (miss, left) (put_back-Safe m s x (Spared-Same x m d) (k, n))
      ]
    ]
      where
        acked :
            Spared x m
            → any_same m.request.request_id matched ≡ true
            → ¬ Memᴰ x.id (s.ack_ids ++ m.id ∷ [])
        acked (inl other) hit mem = elim (mem-snoc m.id s.ack_ids mem) [
          | inl old ↦ n old
          | inr e ↦ other e
        ]
        acked (inr (_, miss)) hit mem = cc

    settle_all-Safe :
        (ms : List (Message F)) (s : Settling State) (x : Message F)
        → All (λ m. x.id ≢ m.id) ms
        → Safe s x
        → Safe (settle_all api c matched ms s) x
    unfolding settle_all
    settle_all-Safe [] s x d k = k
    settle_all-Safe (m ∷ ms) s x d k =
        settle_all-Safe ms (settle_one api c matched m s) x d.1 (settle_one-Safe m s x (inl d.0) k)

    apart : (x m : Message F) → x.id ≢ m.id → m.id ≢ x.id
    apart x m h e = h (sym e)

    settle_all_unmatched :
        (ms : List (Message F)) (s : Settling State) (x : Message F)
        → Distinct ms
        → Memᴰ x ms
        → any_same x.request.request_id matched ≡ false
        → Safe s x
        → Safe (settle_all api c matched ms s) x
    unfolding settle_all
    settle_all_unmatched [] s x d m u k = elim m [ ]
    settle_all_unmatched (y ∷ ms) s x d (Memᴰ.head e) u k =
        settle_all-Safe ms (settle_one api c matched y s) x
          (subst (λ z. All (λ m. z.id ≢ m.id) ms) (sym e) (All-map (λ m h. apart m y h) ms d.0))
          (settle_one-Safe y s x
            (inr (e, subst (λ z. any_same z.request.request_id matched ≡ false) e u)) k)
    settle_all_unmatched (y ∷ ms) s x d (Memᴰ.tail m) u k =
        settle_all_unmatched ms (settle_one api c matched y s) x d.1 m u
          (settle_one-Safe y s x (inl (All-mem (λ z. z.id ≢ y.id) d.0 m)) k)

  ack_matched-Kept :
      (ids : List String) (q : State) (x : Message F)
      → ¬ Memᴰ x.id ids
      → Kept q x
      → Kept (ack_matched api ids q).1 x
  unfolding ack_matched
  ack_matched-Kept [] q x h k = k
  ack_matched-Kept (i ∷ ids) q x h k = ack-Kept (i ∷ ids) q x h k

  -- A solved batch keeps every message that the engine did not match.
  pub settle-Kept :
      (c : Config F) (o : Outside F) (b : BatchMetrics) (resp : MatchBatchResponse)
      (ms : List (Message F)) (w : World State) (x : Message F)
      → Distinct ms
      → Memᴰ x ms
      → any_same x.request.request_id (matched_requests resp) ≡ false
      → Kept w.queue x
      → Kept (settle api c o b resp ms w).queue x
  unfolding settle
  settle-Kept c o b resp ms w x d m u k =
      let start : Settling State = record {
        queue = w.queue;
        ack_ids = [];
        requeue = 0;
        exhausted = 0;
      } in
      let (kept, unacked) =
        settle_all_unmatched c (matched_requests resp) ms start x d m u (k, λ h. elim h [ ]) in
      ack_matched-Kept _ _ x unacked kept

  pub dead_letter_all-Kept :
      (why : String) (ms : List (Message F)) (q : State) (x : Message F)
      → All (Same x) ms
      → Kept q x
      → Kept (dead_letter_all api why ms q) x
  unfolding dead_letter_all
  dead_letter_all-Kept why [] q x d k = k
  dead_letter_all-Kept why (m ∷ ms) q x d k =
      dead_letter_all-Kept why ms (dead_letter m why q).1 x d.1 (dead_letter-Kept m why q x d.0 k)
