-- ===== src/Batcher/Loop/Laws.antt =====
-- Where the requests claimed by `Run` go, and how long it blocks for more.
use ride_matching_engine.Common.{
  ℕ, ◌≡◌, ◌≢◌, refl, subst, sym, ap, ◌∙◌, true, false, List, [], ◌∷◌, ◌++◌, pos, if◌then◌else◌,
  length, arith, leb, Bool-cases, inl, inr, ◌⊎◌, ◌&&◌,
}
use ride_matching_engine.Common.Int.{◌-ℤ◌, ◌+ℤ◌, leb_ℤ, ◌≤ℤ◌, ◌<ℤ◌, -ℤ_parts}
use mathlib.Core.List.{append_assoc, append-nil}
use ride_matching_engine.Errors.{ok, err}
use ride_matching_engine.Time.{Time, Duration}
use ride_matching_engine.Queue.{Message}
use ride_matching_engine.Batcher.Batch.{FlushReason, timer, shutdown}
use ride_matching_engine.Batcher.Loop.{
  Turn, cancelled, ticked, consumed, Loop, remaining, new_window, flush_if_any, gathered, turn, run,
}

-- In a window that has begun, `Consume` blocks for a positive time, and for no more than the window
-- or a millisecond.
pub remaining_bounds :
    {F W : Type 0} (window : Duration) (s : Loop F W) (now : Time)
    → s.window_start ≤ℤ now
    → (pos 0 <ℤ remaining window s now)
      × ((remaining window s now ≤ℤ window) ⊎ (remaining window s now ≡ pos 1000000))
unfolding remaining
remaining_bounds window s now h =
    ground (arith, -ℤ_parts now s.window_start, -ℤ_parts window (now -ℤ s.window_start))

-- Every batch so far, with its reason.
abbrev pub Batches : Type 0 → Type 0
Batches F = List (List (Message F))

abbrev pub log : {F : Type 0} → List (Message F) → FlushReason → Batches F → Batches F
log ms reason done = done ++ ms ∷ []

abbrev pub concat : {F : Type 0} → Batches F → List (Message F)
concat [] = []
concat (b ∷ bs) = b ++ concat bs

-- What the turns claim, in order, up to the cancellation.
abbrev pub claimed : {F : Type 0} → List (Turn F) → List (Message F)
claimed [] = []
claimed (cancelled ∷ ts) = []
claimed (ticked now ∷ ts) = claimed ts
claimed (consumed now later (err e) ∷ ts) = claimed ts
claimed (consumed now later (ok ms) ∷ ts) = ms ++ claimed ts

module _ {F : Type 0} (window : Duration) (max : ℕ) where
  abbrev total : Loop F (Batches F) → List (Message F)
  total s = concat s.world ++ s.pending

  concat_snoc : (bs : Batches F) (b : List (Message F)) → concat (bs ++ b ∷ []) ≡ concat bs ++ b
  concat_snoc [] b = append-nil b
  concat_snoc (x ∷ bs) b = ap (λ l. x ++ l) (concat_snoc bs b) ∙ sym (append_assoc x (concat bs) b)

  logged-total :
      (done : Batches F) (ms : List (Message F))
      → concat (done ++ ms ∷ []) ++ [] ≡ concat done ++ ms
  logged-total done ms = append-nil _ ∙ concat_snoc done ms

  gathered-total :
      (now later : Time) (s : Loop F (Batches F))
      → total (gathered window max log now later s) ≡ total s
  unfolding gathered new_window
  gathered-total now later s = elim (Bool-cases (leb max (length s.pending))) [
    | inl by_size ↦ rw by_size (logged-total s.world s.pending)
    | inr small ↦
        elim (Bool-cases (leb 1 (length s.pending) && leb_ℤ window (now -ℤ s.window_start))) [
          | inl by_time ↦ rw (small, by_time) (logged-total s.world s.pending)
          | inr early ↦ rw (small, early)
        ]
  ]

  flush-total :
      (reason : FlushReason) (done : Batches F) (ms : List (Message F)) (s : Loop F (Batches F))
      → s.world ≡ done
      → s.pending ≡ ms
      → concat (flush_if_any window max log reason s).world ++ [] ≡ concat done ++ ms
  unfolding flush_if_any
  flush-total reason done [] s w e = rw (e, flush_if_any, w)
  flush-total reason done (m ∷ ms) s w e = rw (e, flush_if_any, w) (logged-total done (m ∷ ms))

  -- What one turn claims.
  abbrev claim : Turn F → List (Message F)
  claim cancelled = []
  claim (ticked now) = []
  claim (consumed now later (err e)) = []
  claim (consumed now later (ok ms)) = ms

  turn-total :
      (t : Turn F) (s : Loop F (Batches F)) → total (turn window max log t s) ≡ total s ++ claim t
  unfolding turn new_window
  turn-total cancelled s = flush-total shutdown s.world s.pending s refl refl ∙ sym (append-nil _)
  turn-total (ticked now) s = flush-total timer s.world s.pending s refl refl ∙ sym (append-nil _)
  turn-total (consumed now later (err e)) s = sym (append-nil _)
  turn-total (consumed now later (ok ms)) s =
      gathered-total now later (record s { pending = s.pending ++ ms })
      ∙ sym (append_assoc (concat s.world) s.pending ms)

  pub run_stopped :
      (ts : List (Turn F)) (s : Loop F (Batches F))
      → s.is_running ≡ false
      → run window max log ts s ≡ s
  unfolding run
  run_stopped [] s e = refl
  run_stopped (t ∷ ts) s e = rw e

  gathered_running :
      (now later : Time) (s : Loop F (Batches F))
      → (gathered window max log now later s).is_running ≡ s.is_running
  unfolding gathered new_window
  gathered_running now later s = ground arith

  flush_running :
      (reason : FlushReason) (s : Loop F (Batches F))
      → (flush_if_any window max log reason s).is_running ≡ s.is_running
  unfolding flush_if_any
  flush_running reason s = ground arith

  turn_running :
      (t : Turn F) (s : Loop F (Batches F))
      → t ≢ cancelled
      → (turn window max log t s).is_running ≡ s.is_running
  unfolding turn new_window
  turn_running cancelled s h = absurd (h refl)
  turn_running (ticked now) s h = flush_running timer s
  turn_running (consumed now later (err e)) s h = refl
  turn_running (consumed now later (ok ms)) s h =
      gathered_running now later (record s { pending = s.pending ++ ms })

  turn_cancelled :
      (s : Loop F (Batches F))
      → ((turn window max log cancelled s).is_running ≡ false)
        × ((turn window max log cancelled s).pending ≡ [])
  unfolding turn
  turn_cancelled s = (refl, refl)

  -- The total after one turn and the turns behind it.
  step-total :
      (t : Turn F) (ts : List (Turn F)) (s r : Loop F (Batches F))
      → total r ≡ total (turn window max log t s) ++ claimed ts
      → total r ≡ total s ++ (claim t ++ claimed ts)
  step-total t ts s r h =
      h ∙ ap (λ l. l ++ claimed ts) (turn-total t s) ∙ append_assoc (total s) (claim t) (claimed ts)

  pub run_cons :
      (t : Turn F) (ts : List (Turn F)) (s : Loop F (Batches F))
      → s.is_running ≡ true
      → run window max log ts (turn window max log t s) ≡ run window max log (t ∷ ts) s
  unfolding run
  run_cons t ts s e =
      sym (ap (λ b. if b then run window max log ts (turn window max log t s) else s) e)

  abbrev Ends : Loop F (Batches F) → List (Turn F) → Loop F (Batches F) → Type 0
  Ends s ts r = (total r ≡ total s ++ claimed ts) × (r.is_running ≡ false → r.pending ≡ [])

  run-Ends :
      (ts : List (Turn F)) (s : Loop F (Batches F))
      → s.is_running ≡ true
      → Ends s ts (run window max log ts s)
  unfolding run
  run-Ends [] s e = (sym (append-nil _), λ h. cc)
  run-Ends (cancelled ∷ ts) s e =
      let (stopped, empty) = turn_cancelled s in
      let still = run_stopped ts (turn window max log cancelled s) stopped in
      subst (Ends s (cancelled ∷ ts)) (sym still ∙ run_cons cancelled ts s e)
        (turn-total cancelled s, λ _. empty)
  run-Ends (ticked now ∷ ts) s e =
      let t : Turn F = ticked now in
      let ih = run-Ends ts (turn window max log t s) (turn_running t s (λ h. cc) ∙ e) in
      subst (Ends s (t ∷ ts)) (run_cons t ts s e)
        (step-total t ts s (run window max log ts (turn window max log t s)) ih.0, ih.1)
  run-Ends (consumed now later (err f) ∷ ts) s e =
      let t : Turn F = consumed now later (err f) in
      let ih = run-Ends ts (turn window max log t s) (turn_running t s (λ h. cc) ∙ e) in
      subst (Ends s (t ∷ ts)) (run_cons t ts s e)
        (step-total t ts s (run window max log ts (turn window max log t s)) ih.0, ih.1)
  run-Ends (consumed now later (ok ms) ∷ ts) s e =
      let t : Turn F = consumed now later (ok ms) in
      let ih = run-Ends ts (turn window max log t s) (turn_running t s (λ h. cc) ∙ e) in
      subst (Ends s (t ∷ ts)) (run_cons t ts s e)
        (step-total t ts s (run window max log ts (turn window max log t s)) ih.0, ih.1)

  abbrev pub start : Time → Loop F (Batches F)
  start now = record {
    pending = [];
    window_start = now;
    fires_at = now +ℤ window;
    world = [];
    is_running = true;
  }

  -- From a fresh start, over any turns: the batches processed and the requests still gathered are
  -- together, in order, the requests claimed. Once the context is cancelled nothing is gathered any
  -- more, so each claimed request has gone into one batch, once.
  pub run_exactly_once :
      (now : Time) (ts : List (Turn F))
      → let r = run window max log ts (start now) in
        (concat r.world ++ r.pending ≡ claimed ts)
        × (r.is_running ≡ false → concat r.world ≡ claimed ts)
  run_exactly_once now ts =
      let r = run window max log ts (start now) in
      let (t, stopped) = run-Ends ts (start now) refl in
      (t, λ h. sym (append-nil _) ∙ ap (λ l. concat r.world ++ l) (sym (stopped h)) ∙ t)
