-- ===== src/Batcher/Settle/Accounts.antt =====
-- What the settling loop acks, puts back and gives up on.
use ride_matching_engine.Common.{
  ℕ, suc, ◌+◌, ◌≡◌, ◌||◌, Option, none, some, refl, sym, ap, inl, inr, String, List, [], ◌∷◌, ◌++◌,
  arith, if◌then◌else◌, Bool-cases, ◌∙◌,
}
use mathlib.Core.List.{append_assoc, append-nil}
use ride_matching_engine.Errors.{Error}
use ride_matching_engine.Queue.{Message, Queue}
use ride_matching_engine.Engine.{any_same}
use ride_matching_engine.Batcher.Config.{Config}
use ride_matching_engine.Batcher.Settle.{
  Settling, is_exhausted, out_of_attempts, give_up, put_back, settle_one, settle_all,
}

-- The broker ids of the messages whose riders were matched, in the batch's order.
abbrev pub matched_ids : {F : Type 0} → List String → List (Message F) → List String
matched_ids matched [] = []
matched_ids matched (m ∷ ms) =
    if any_same m.request.request_id matched
    then m.id ∷ matched_ids matched ms
    else matched_ids matched ms

-- How many messages of the batch were not matched, and have match attempts left.
abbrev pub requeue_count : {F : Type 0} → Config F → List String → List (Message F) → ℕ
requeue_count c matched [] = 0
requeue_count c matched (m ∷ ms) =
    if any_same m.request.request_id matched || is_exhausted c m
    then requeue_count c matched ms
    else suc (requeue_count c matched ms)

-- One for a call that returns no error.
abbrev pub one_if_none : Option Error → ℕ
one_if_none none = 1
one_if_none (some e) = 0

module _ {F : Type 0} (api : Queue F) (c : Config F) (matched : List String) where
  open api use {State, dead_letter, republish}

  -- The queue behind the settling of one message, and what that dead-letters.
  abbrev pub settled : Message F → State → State
  settled m q =
      if any_same m.request.request_id matched
      then q
      else if is_exhausted c m
      then (dead_letter m (out_of_attempts m) q).1
      else (republish m q).1

  abbrev pub set_aside_one : Message F → State → ℕ
  set_aside_one m q =
      if any_same m.request.request_id matched
      then 0
      else if is_exhausted c m
      then one_if_none (dead_letter m (out_of_attempts m) q).0
      else 0

  -- How many of the batch's unmatched messages with no attempts left the queue dead-letters without
  -- an error, each in the state that the calls for the messages before it leave.
  unfoldable pub dead_letter_count : List (Message F) → State → ℕ
  dead_letter_count [] q = 0
  dead_letter_count (m ∷ ms) q = set_aside_one m q + dead_letter_count ms (settled m q)

  -- The ids to ack, and the two counters, behind the loop.
  abbrev pub Accounts : List (Message F) → Settling State → Settling State → Type 0
  Accounts ms s r =
      (r.ack_ids ≡ s.ack_ids ++ matched_ids matched ms)
      × (r.requeue ≡ s.requeue + requeue_count c matched ms)
      × (r.exhausted ≡ s.exhausted + dead_letter_count ms s.queue)

  give_up_fields :
      (m : Message F) (s : Settling State)
      → let r = give_up api m s in
        let d = dead_letter m (out_of_attempts m) s.queue in
        (r.ack_ids ≡ s.ack_ids)
        × (r.requeue ≡ s.requeue)
        × (r.exhausted ≡ s.exhausted + one_if_none d.0)
        × (r.queue ≡ d.1)
  unfolding give_up out_of_attempts
  give_up_fields m s = ground arith

  -- One round.
  settle_one_fields :
      (m : Message F) (s : Settling State)
      → let r = settle_one api c matched m s in
        (r.ack_ids ≡ s.ack_ids ++ matched_ids matched (m ∷ []))
        × (r.requeue ≡ s.requeue + requeue_count c matched (m ∷ []))
        × (r.exhausted ≡ s.exhausted + set_aside_one m s.queue)
        × (r.queue ≡ settled m s.queue)
  unfolding settle_one put_back
  settle_one_fields m s = elim (Bool-cases (any_same m.request.request_id matched)) [
    | inl hit ↦ rw hit (refl, omega arith, omega arith, refl)
    | inr miss ↦ elim (Bool-cases (is_exhausted c m)) [
      | inl over ↦
          let g = give_up_fields m s in
          rw (miss, over) (rw append-nil g.0, omega (arith, g.1), g.2, g.3)
      | inr left ↦ rw (miss, left) (rw append-nil refl, refl, omega arith, refl)
    ]
  ]

  matched_ids_cons :
      (m : Message F) (ms : List (Message F))
      → matched_ids matched (m ∷ ms) ≡ matched_ids matched (m ∷ []) ++ matched_ids matched ms
  matched_ids_cons m ms = elim (Bool-cases (any_same m.request.request_id matched)) [
    | inl hit ↦ rw hit
    | inr miss ↦ rw miss
  ]

  requeue_count_cons :
      (m : Message F) (ms : List (Message F))
      → requeue_count c matched (m ∷ ms)
        ≡ requeue_count c matched (m ∷ []) + requeue_count c matched ms
  requeue_count_cons m ms = ground arith

  -- For every batch and state of the loop's variables: the ids to ack are those of the matched
  -- messages and no other, in the batch's order; each unmatched message with attempts left counts
  -- as one requeue, whatever its republish returned; and the exhausted ones are counted exactly as
  -- often as their dead letters return no error.
  pub settle_all-Accounts :
      (ms : List (Message F)) (s : Settling State) → Accounts ms s (settle_all api c matched ms s)
  unfolding settle_all dead_letter_count
  settle_all-Accounts [] s = (rw append-nil, omega arith, omega arith)
  settle_all-Accounts (m ∷ ms) s =
      let one = settle_one_fields m s in
      let rest = settle_all-Accounts ms (settle_one api c matched m s) in
      (
        rest.0
            ∙ ap (λ l. l ++ matched_ids matched ms) one.0
            ∙ append_assoc s.ack_ids (matched_ids matched (m ∷ [])) (matched_ids matched ms)
            ∙ sym (ap (λ l. s.ack_ids ++ l) (matched_ids_cons m ms)),
        omega (arith, one.1, rest.1, requeue_count_cons m ms),
        omega (arith, one.2, rest.2, ap (λ q. dead_letter_count ms q) one.3),
      )
