-- ===== src/Batcher/Loop.antt =====
-- `Run`: the loop that gathers requests into batches under the dual trigger of time and size, one
-- step for each turn of its `select`; and the reclaimer.
use ride_matching_engine.Common.{
  ℕ, zero, suc, ◌+◌, ◌-◌, ◌*◌, ◌≤◌, ◌<◌, ◌≡◌, refl, sym, ap, ◌∙◌, Bool, true, false, Option, none,
  some, List, [], ◌∷◌, ◌++◌, ◌&&◌, ℤ, pos, if◌then◌else◌, length, length-append, arith, leb,
  Bool-cases, inl, inr, ◌⊎◌,
}
use ride_matching_engine.Common.Int.{◌+ℤ◌, ◌-ℤ◌, leb_ℤ, ◌≤ℤ◌, ◌<ℤ◌, -ℤ_parts}
use mathlib.Core.List.{append_assoc, append-nil}
use ride_matching_engine.Errors.{Error, Fallible, ok, err}
use ride_matching_engine.Time.{Time, Duration}
use ride_matching_engine.Queue.{Message, Queue}
use ride_matching_engine.Batcher.Batch.{FlushReason, timer, full, shutdown}
pub mod Laws
pub mod Bounds

-- What the next turn of the loop finds: a cancelled context, the timer, or the return of `Consume`,
-- with the instants at which the turn reads the clock: for the start of the next window, which is
-- behind the batch if there is one, and after a claim, in front of it, for the test of time.
pub data Turn (F : Type 0) : Type 0 where
  cancelled : Turn F
  ticked : Time → Turn F
  consumed : Time → Time → Fallible (List (Message F)) → Turn F

-- The loop's variables, the instant at which the timer fires next, and what the batches act on.
pub record Loop (F W : Type 0) : Type 0 where
  pub pending : List (Message F)
  pub window_start : Time
  pub fires_at : Time
  pub world : W
  pub is_running : Bool

-- How long `Consume` may block, at an instant: what remains of the window, or a millisecond.
pub remaining : {F W : Type 0} → Duration → Loop F W → Time → Duration
remaining window s now =
    let left = window -ℤ (now -ℤ s.window_start) in if leb_ℤ left (pos 0) then pos 1000000 else left

-- How many messages `Consume` may claim.
unfoldable pub room : {F W : Type 0} → ℕ → Loop F W → ℕ
room max s = max - length s.pending

-- `window` and `max` are the configuration's, `process` is `processBatch`.
module _ {F W : Type 0} (window : Duration) (max : ℕ)
    (process : List (Message F) → FlushReason → W → W) where
  -- A new window: the timer is stopped, drained and reset.
  unfoldable pub new_window : Time → Loop F W → Loop F W
  new_window later s = record s { pending = []; window_start = later; fires_at = later +ℤ window }

  unfoldable pub flush_if_any : FlushReason → Loop F W → Loop F W
  flush_if_any reason s = elim s.pending [
    | [] ↦ s
    | m ∷ ms ↦ record s { world = process (m ∷ ms) reason s.world }
  ]

  -- After a claim: the test of size, and then the test of time.
  unfoldable pub gathered : Time → Time → Loop F W → Loop F W
  gathered now later s =
      if leb max (length s.pending)
      then new_window later (record s { world = process s.pending full s.world })
      else if leb 1 (length s.pending) && leb_ℤ window (now -ℤ s.window_start)
      then new_window later (record s { world = process s.pending timer s.world })
      else s

  unfoldable pub turn : Turn F → Loop F W → Loop F W
  turn cancelled s = record (flush_if_any shutdown s) { pending = []; is_running = false }
  turn (ticked later) s = new_window later (flush_if_any timer s)
  turn (consumed now later (err e)) s = s
  turn (consumed now later (ok ms)) s = gathered now later (record s { pending = s.pending ++ ms })

  -- The loop over the turns that it meets; it returns when the context is cancelled.
  unfoldable pub run : List (Turn F) → Loop F W → Loop F W
  run [] s = s
  run (t ∷ ts) s = if s.is_running then run ts (turn t s) else s

-- One tick of the reclaimer: what `Reclaim` returned, if it did not fail, is a batch of its own.
reclaimed :
    {F W : Type 0}
    → (List (Message F) → FlushReason → W → W)
    → List (Message F) × Option Error
    → W
    → W
reclaimed process (ms, some e) w = w
reclaimed process ([], none) w = w
reclaimed process (m ∷ ms, none) w = process (m ∷ ms) timer w
