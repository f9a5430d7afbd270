-- ===== src/Ingest/Server/Steps.antt =====
-- The steps of the WebSocket server's routines, and the accounts.
use ride_matching_engine.Common.{
  ℕ, ◌+◌, ◌≤◌, ◌≡◌, refl, subst, true, false, String, Option, none, some, [], ◌∷◌, inl, inr, pos,
  Bool-cases, arith,
}
use ride_matching_engine.Common.Int.{ltb_ℤ}
use ride_matching_engine.Errors.{Error}
use ride_matching_engine.Floats.{Floats}
use ride_matching_engine.Ingest.{Config, Sink, validate, Frame, message, other_frame}
use ride_matching_engine.Ingest.Server.{
  Server, Routine, arrived, admitted, turned_away, counting, authenticating, upgrading, starting,
  serving, releasing, leaving, Event, go, verified, upgraded, frame, pumps_done, accept_valid,
  read_frame, admit, reserve, advance,
}
use ride_matching_engine.Ingest.Server.Accounts.{tokens_of, slots_of, Fair, swaps, stays, gives_up}

module _ (fl : Floats) (sink : Sink fl.F) (show : fl.F → fl.F → String) where
  open fl use {F}
  open sink use {State, accept}

  read-Fair :
      (n : ℕ) (t : String) (f : Frame F) (s : Server State)
      → Fair n (serving t) s (read_frame fl sink show t f s, serving t ∷ [])
  unfolding read_frame accept_valid
  read-Fair n t (message none) s =
      swaps n (serving t) (serving t) s _ refl refl refl refl refl (omega arith)
  read-Fair n t other_frame s = stays n (serving t) s
  read-Fair n t (message (some p)) s = go (validate fl show p)
    where
      go :
          (v : Option Error)
          → Fair n (serving t) s (accept_valid fl sink show t p v s, serving t ∷ [])
      go none = swaps n (serving t) (serving t) s _ refl refl refl refl refl (omega arith)
      go (some e) = swaps n (serving t) (serving t) s _ refl refl refl refl refl (omega arith)

  admit-Fair : (n : ℕ) (s : Server State) → Fair n arrived s (admit fl sink show s)
  unfolding admit
  admit-Fair n s = elim (Bool-cases s.closed) [
    | inl e ↦ rw e (record {
      tokens_kept = omega arith;
      slots_kept = omega arith;
      closed_kept = refl;
      closed_off = λ h. omega arith;
      placed = inl (omega arith);
    })
    | inr e ↦ rw e (record {
      tokens_kept = omega arith;
      slots_kept = omega arith;
      closed_kept = refl;
      closed_off = λ h. cc;
      placed = inl (omega arith);
    })
  ]

  has_room :
      (n : ℕ) (c : Config) (s : Server State)
      → c.max_connections ≡ pos n
      → ltb_ℤ c.max_connections (pos (s.active_conns + 1)) ≡ false
      → s.active_conns + 1 ≤ n
  has_room n c s m e =
      let small = subst (λ l. ltb_ℤ l (pos (s.active_conns + 1)) ≡ false) m e in
      ground (arith, small)

  reserve-Fair :
      (n : ℕ) (c : Config) (s : Server State)
      → c.max_connections ≡ pos n
      → Fair n admitted s (reserve fl sink show c s)
  unfolding reserve
  reserve-Fair n c s m = elim (Bool-cases (ltb_ℤ c.max_connections (pos (s.active_conns + 1)))) [
    | inl e ↦ rw e (record {
      tokens_kept = omega arith;
      slots_kept = omega arith;
      closed_kept = refl;
      closed_off = λ h. omega arith;
      placed = inl (omega arith);
    })
    | inr e ↦ rw e (record {
      tokens_kept = omega arith;
      slots_kept = omega arith;
      closed_kept = refl;
      closed_off = λ h. omega arith;
      placed = inr (omega arith, has_room n c s m e, omega arith);
    })
  ]

  -- Every step of a routine is fair, if the server counts what the routine holds.
  pub advance-Fair :
      (n : ℕ) (c : Config) (e : Event F) (r : Routine) (s : Server State)
      → c.max_connections ≡ pos n
      → tokens_of r ≤ s.tokens
      → slots_of r ≤ s.active_conns
      → Fair n r s (advance fl sink show c e r s)
  unfolding advance
  advance-Fair n c e arrived s m h k = admit-Fair n s
  advance-Fair n c e admitted s m h k = reserve-Fair n c s m
  advance-Fair n c e turned_away s m h k =
      gives_up n turned_away counting s _ refl refl refl refl refl refl refl refl k
  advance-Fair n c e counting s m h k =
      swaps n counting leaving s _ refl refl refl refl refl (omega arith)
  advance-Fair n c (verified (inl status)) authenticating s m h k =
      swaps n authenticating turned_away s s refl refl refl refl refl (omega arith)
  advance-Fair n c (verified (inr tenant)) authenticating s m h k =
      swaps n authenticating (upgrading tenant) s s refl refl refl refl refl (omega arith)
  advance-Fair n c go authenticating s m h k = stays n authenticating s
  advance-Fair n c (upgraded b) authenticating s m h k = stays n authenticating s
  advance-Fair n c (frame f) authenticating s m h k = stays n authenticating s
  advance-Fair n c pumps_done authenticating s m h k = stays n authenticating s
  advance-Fair n c (upgraded false) (upgrading t) s m h k =
      swaps n (upgrading t) releasing s s refl refl refl refl refl (omega arith)
  advance-Fair n c (upgraded true) (upgrading t) s m h k =
      swaps n (upgrading t) (starting t) s _ refl refl refl refl refl (omega arith)
  advance-Fair n c go (upgrading t) s m h k = stays n (upgrading t) s
  advance-Fair n c (verified a) (upgrading t) s m h k = stays n (upgrading t) s
  advance-Fair n c (frame f) (upgrading t) s m h k = stays n (upgrading t) s
  advance-Fair n c pumps_done (upgrading t) s m h k = stays n (upgrading t) s
  advance-Fair n c e (starting t) s m h k = record {
    tokens_kept = omega arith;
    slots_kept = omega arith;
    closed_kept = refl;
    closed_off = λ c'. omega arith;
    placed = inl (omega arith);
  }
  advance-Fair n c (frame f) (serving t) s m h k = read-Fair n t f s
  advance-Fair n c pumps_done (serving t) s m h k =
      swaps n (serving t) releasing s s refl refl refl refl refl (omega arith)
  advance-Fair n c go (serving t) s m h k = stays n (serving t) s
  advance-Fair n c (verified a) (serving t) s m h k = stays n (serving t) s
  advance-Fair n c (upgraded b) (serving t) s m h k = stays n (serving t) s
  advance-Fair n c e releasing s m h k =
      gives_up n releasing leaving s _ refl refl refl refl refl refl refl refl k
  advance-Fair n c e leaving s m h k = record {
    tokens_kept = omega (arith, h);
    slots_kept = omega arith;
    closed_kept = refl;
    closed_off = λ c'. omega arith;
    placed = inl (omega arith);
  }
