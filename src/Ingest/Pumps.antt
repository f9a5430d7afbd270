-- ===== src/Ingest/Pumps.antt =====
-- The writing goroutine of a connection, and the deadline of the reading one: `writePump` and
-- `readPump` of infrastructure/internal/ingest/server.go. The sockets are not modelled.
use ride_matching_engine.Common.{
  ℕ, zero, suc, ◌≡◌, refl, ap, Bool, true, false, List, [], ◌∷◌, ◌++◌, ◌⊎◌, inl, inr, if◌then◌else◌,
}
use ride_matching_engine.Common.Int.{◌+ℤ◌, ltb_ℤ}
use ride_matching_engine.Time.{Time, Duration}

-- What one turn of the select of `writePump` takes: the end of the connection's context, the server's
-- shutdown, or the ticker, with whether the heartbeat can be written.
pub data Turn : Type 0 where
  context_done shutting_down : Turn
  tick : Bool → Turn

-- The frames that it writes: a ping, or a close frame with its code. A write that fails is in no list.
pub data Sent : Type 0 where
  ping : Sent
  closing : ℕ → Sent

-- `writePump`. A list that ends is a connection that goes on.
unfoldable pub write_pump : List Turn → List Sent
write_pump [] = []
write_pump (context_done ∷ ts) = closing 1000 ∷ []
write_pump (shutting_down ∷ ts) = closing 1012 ∷ []
write_pump (tick false ∷ ts) = []
write_pump (tick true ∷ ts) = ping ∷ write_pump ts

-- The deadline behind the traffic at these instants, each of which comes before the one in force: none,
-- if the read times out first.
unfoldable pub read_deadline : Duration → Time → List Time → Time ⊎ Time
read_deadline wait deadline [] = inr deadline
read_deadline wait deadline (t ∷ ts) =
    let rest = read_deadline wait (t +ℤ wait) ts in if ltb_ℤ t deadline then rest else inl deadline

-- Heartbeats, as many as are written.
abbrev heartbeats : ℕ → List Sent
heartbeats zero = []
heartbeats (suc n) = ping ∷ heartbeats n

-- A close frame is the last frame, behind heartbeats only.
write_pump_lem :
    (ts : List Turn)
    → (n : ℕ) × (last : List Sent) × (write_pump ts ≡ heartbeats n ++ last)
      × ((last ≡ []) ⊎ ((last ≡ closing 1000 ∷ []) ⊎ (last ≡ closing 1012 ∷ [])))
unfolding write_pump
write_pump_lem [] = (0, [], refl, inl refl)
write_pump_lem (context_done ∷ ts) = (0, closing 1000 ∷ [], refl, inr (inl refl))
write_pump_lem (shutting_down ∷ ts) = (0, closing 1012 ∷ [], refl, inr (inr refl))
write_pump_lem (tick false ∷ ts) = (0, [], refl, inl refl)
write_pump_lem (tick true ∷ ts) =
    let (n, last, e, f) = write_pump_lem ts in (suc n, last, ap (λ (s : List Sent). ping ∷ s) e, f)
