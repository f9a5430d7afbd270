-- ===== src/Batcher/Loop/Bounds.antt =====
-- The sizes of the batches that `Run` makes.
use ride_matching_engine.Common.{
  ℕ, ◌≤◌, ◌<◌, ◌≡◌, refl, subst, All, All-append, sym, ap, List, [], ◌∷◌, ◌++◌, length,
  length-append, arith, leb, Bool-cases, inl, inr, ◌&&◌,
}
use ride_matching_engine.Common.Int.{◌-ℤ◌, leb_ℤ}
use ride_matching_engine.Errors.{ok, err}
use ride_matching_engine.Time.{Time, Duration}
use ride_matching_engine.Queue.{Message}
use ride_matching_engine.Batcher.Batch.{FlushReason, timer, shutdown}
use ride_matching_engine.Batcher.Loop.{
  Turn, cancelled, ticked, consumed, Loop, room, new_window, flush_if_any, gathered, turn, run,
}
use ride_matching_engine.Batcher.Loop.Laws.{Batches, log, run_cons, run_stopped}

module _ {F : Type 0} (window : Duration) (max : ℕ) where
  -- Each claim of the turns keeps to the room that `Consume` is asked for.
  abbrev pub KeepsRoom : List (Turn F) → Loop F (Batches F) → Type 0
  KeepsRoom [] s = Unit
  KeepsRoom (consumed now later (ok ms) ∷ ts) s =
      (length ms ≤ room max s) × KeepsRoom ts (turn window max log (consumed now later (ok ms)) s)
  KeepsRoom (t ∷ ts) s = KeepsRoom ts (turn window max log t s)

  abbrev pub IsBounded : Loop F (Batches F) → Type 0
  IsBounded s = (length s.pending < max) × All (λ b. length b ≤ max) s.world

  All-snoc :
      (bs : Batches F) (b : List (Message F))
      → All (λ b. length b ≤ max) bs
      → length b ≤ max
      → All (λ b. length b ≤ max) (bs ++ b ∷ [])
  All-snoc bs b h k = All-append (λ b. length b ≤ max) bs (b ∷ []) h (k, tt)

  flush-world-bounded :
      (reason : FlushReason) (ms : List (Message F)) (s : Loop F (Batches F))
      → s.pending ≡ ms
      → IsBounded s
      → All (λ b. length b ≤ max) (flush_if_any window max log reason s).world
  unfolding flush_if_any
  flush-world-bounded reason [] s e h = rw (e, flush_if_any) h.1
  flush-world-bounded reason (m ∷ ms) s e h =
      rw (e, flush_if_any)
        (All-snoc s.world (m ∷ ms) h.1 (omega (arith, h.0, ap (length {A = Message F}) e)))

  gathered-IsBounded :
      (now later : Time) (s : Loop F (Batches F))
      → 0 < max
      → length s.pending ≤ max
      → All (λ b. length b ≤ max) s.world
      → IsBounded (gathered window max log now later s)
  unfolding gathered new_window
  gathered-IsBounded now later s room_pos fits h = elim (Bool-cases (leb max (length s.pending))) [
    | inl by_size ↦ rw by_size (room_pos, All-snoc s.world s.pending h fits)
    | inr small ↦
        elim (Bool-cases (leb 1 (length s.pending) && leb_ℤ window (now -ℤ s.window_start))) [
          | inl by_time ↦ rw (small, by_time) (room_pos, All-snoc s.world s.pending h fits)
          | inr early ↦ rw (small, early) (ground arith, h)
        ]
  ]

  flush-IsBounded :
      (reason : FlushReason) (s r : Loop F (Batches F))
      → IsBounded s
      → r.pending ≡ []
      → r.world ≡ (flush_if_any window max log reason s).world
      → IsBounded r
  flush-IsBounded reason s r h e w = (
    omega (arith, h.0, ap (length {A = Message F}) e),
    subst (All (λ b. length b ≤ max)) (sym w) (flush-world-bounded reason s.pending s refl h),
  )

  -- What one turn keeps.
  turn-IsBounded :
      (t : Turn F) (ts : List (Turn F)) (s : Loop F (Batches F))
      → IsBounded s
      → KeepsRoom (t ∷ ts) s
      → IsBounded (turn window max log t s) × KeepsRoom ts (turn window max log t s)
  unfolding turn new_window room
  turn-IsBounded cancelled ts s h k =
      (flush-IsBounded shutdown s (turn window max log cancelled s) h refl refl, k)
  turn-IsBounded (ticked now) ts s h k =
      (flush-IsBounded timer s (turn window max log (ticked now) s) h refl refl, k)
  turn-IsBounded (consumed now later (err e)) ts s h k = (h, k)
  turn-IsBounded (consumed now later (ok ms)) ts s h k = (
    gathered-IsBounded now later (record s { pending = s.pending ++ ms }) (omega (arith, h.0))
        (omega (arith, h.0, k.0, length-append s.pending ms)) h.1,
    k.1,
  )

  -- From a state within the bound, over any turns whose claims keep to the room asked for: fewer
  -- than the maximum are gathered between turns, and no batch is larger than the maximum.
  pub run-IsBounded :
      (ts : List (Turn F)) (s : Loop F (Batches F))
      → IsBounded s
      → KeepsRoom ts s
      → IsBounded (run window max log ts s)
  unfolding run
  run-IsBounded [] s h k = h
  run-IsBounded (t ∷ ts) s h k = elim (Bool-cases s.is_running) [
    | inl on ↦
        let (h', k') = turn-IsBounded t ts s h k in
        subst IsBounded (run_cons window max t ts s on)
          (run-IsBounded ts (turn window max log t s) h' k')
    | inr off ↦ subst IsBounded (sym (run_stopped window max (t ∷ ts) s off)) h
  ]
