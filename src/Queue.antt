-- ===== src/Queue.antt =====
-- The durable ride-request queue: infrastructure/internal/queue/queue.go. Its interface is a record
-- of operations, and what its documentation promises is a record of laws over three views of the
-- queue's state.
pub mod Codec
pub mod Stream
use ride_matching_engine.Common.{ℕ, ◌≡◌, ◌⊎◌, String, Option, none, List, Memᴰ, ℤ, pos}
use ride_matching_engine.Common.Int.{◌+ℤ◌}
use ride_matching_engine.Errors.{Error, Fallible}
use ride_matching_engine.Time.{Time, Duration}

pub record RideRequest (F : Type 0) : Type 0 where
  pub request_id : String
  pub tenant_id : String
  pub rider_id : String
  pub lat : F
  pub lng : F
  pub requested_at : Time
  pub match_attempts : ℤ

pub record Message (F : Type 0) : Type 0 where
  pub id : String
  pub request : RideRequest F
  pub deliveries : ℕ

-- `Queue`: each operation takes the queue's state and returns its result with the next state.
pub record Queue (F : Type 0) : Type 1 where
  pub State : Type 0
  pub publish : RideRequest F → State → Fallible String × State
  pub consume : ℕ → Duration → State → Fallible (List (Message F)) × State
  pub ack : List String → State → Option Error × State
  pub reclaim : Duration → ℕ → State → List (Message F) × Option Error × State
  pub republish : Message F → State → Option Error × State
  pub dead_letter : Message F → String → State → Option Error × State

-- The request of a later window: one more match attempt.
abbrev pub retried : {F : Type 0} → RideRequest F → RideRequest F
retried r = record r { match_attempts = r.match_attempts +ℤ pos 1 }

-- What the queue's documentation promises of the three operations that settle a message. `Pending`
-- is "claimed and not acked, so that it will be delivered again", `Queued` is "waiting for a first
-- delivery", `Dead` is "set aside in the dead-letter stream".
pub record Promises (F : Type 0) (api : Queue F) : Type 1 where
  pub Pending : api.State → String → Type 0
  pub Queued : api.State → RideRequest F → Type 0
  pub Dead : api.State → Message F → Type 0
  pub ack-Pending :
      (ids : List String) (s : api.State) (i : String)
      → ¬ Memᴰ i ids
      → Pending s i
      → Pending (api.ack ids s).1 i
  pub ack-Queued :
      (ids : List String) (s : api.State) (r : RideRequest F)
      → Queued s r
      → Queued (api.ack ids s).1 r
  pub ack-Dead :
      (ids : List String) (s : api.State) (m : Message F) → Dead s m → Dead (api.ack ids s).1 m
  -- Whatever comes of a republish, the message is pending still or its next attempt is queued.
  pub republish-Pending :
      (m : Message F) (s : api.State) (i : String)
      → Pending s i
      → Pending (api.republish m s).1 i
        ⊎ ((i ≡ m.id) × Queued (api.republish m s).1 (retried m.request))
  pub republish-Queued :
      (m : Message F) (s : api.State) (r : RideRequest F)
      → Queued s r
      → Queued (api.republish m s).1 r
  pub republish-Dead :
      (m : Message F) (s : api.State) (d : Message F) → Dead s d → Dead (api.republish m s).1 d
  pub republish_done :
      (m : Message F) (s : api.State)
      → (api.republish m s).0 ≡ none
      → Queued (api.republish m s).1 (retried m.request)
  -- So too of a dead letter.
  pub dead_letter-Pending :
      (m : Message F) (why : String) (s : api.State) (i : String)
      → Pending s i
      → Pending (api.dead_letter m why s).1 i ⊎ ((i ≡ m.id) × Dead (api.dead_letter m why s).1 m)
  pub dead_letter-Queued :
      (m : Message F) (why : String) (s : api.State) (r : RideRequest F)
      → Queued s r
      → Queued (api.dead_letter m why s).1 r
  pub dead_letter-Dead :
      (m : Message F) (why : String) (s : api.State) (d : Message F)
      → Dead s d
      → Dead (api.dead_letter m why s).1 d
  pub dead_letter_done :
      (m : Message F) (why : String) (s : api.State)
      → (api.dead_letter m why s).0 ≡ none
      → Dead (api.dead_letter m why s).1 m
