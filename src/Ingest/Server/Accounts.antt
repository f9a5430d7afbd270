-- ===== src/Ingest/Server/Accounts.antt =====
-- What each routine of the WebSocket server holds: a token of its wait group, and a slot for its
-- connection; and what a step may do to the accounts.
use ride_matching_engine.Common.{
  ℕ, ◌+◌, ◌-◌, ◌*◌, ◌≤◌, ◌≡◌, refl, true, List, [], ◌∷◌, ◌++◌, ◌⊎◌, inl, arith,
}
use ride_matching_engine.Ingest.Server.{
  Server, Routine, arrived, admitted, turned_away, counting, authenticating, upgrading, starting,
  serving, releasing, leaving,
}

-- The tokens and the slots that a routine holds, and its slot if it is one within the limit.
abbrev pub tokens_of : Routine → ℕ
tokens_of arrived = 0
tokens_of admitted = 1
tokens_of turned_away = 1
tokens_of counting = 1
tokens_of authenticating = 1
tokens_of (upgrading t) = 1
tokens_of (starting t) = 1
tokens_of (serving t) = 1
tokens_of releasing = 1
tokens_of leaving = 1

abbrev pub slots_of : Routine → ℕ
slots_of arrived = 0
slots_of admitted = 0
slots_of turned_away = 1
slots_of counting = 0
slots_of authenticating = 1
slots_of (upgrading t) = 1
slots_of (starting t) = 1
slots_of (serving t) = 1
slots_of releasing = 1
slots_of leaving = 0

abbrev pub places_of : Routine → ℕ
places_of arrived = 0
places_of admitted = 0
places_of turned_away = 0
places_of counting = 0
places_of authenticating = 1
places_of (upgrading t) = 1
places_of (starting t) = 1
places_of (serving t) = 1
places_of releasing = 1
places_of leaving = 0

abbrev pub total : (Routine → ℕ) → List Routine → ℕ
total f [] = 0
total f (r ∷ rs) = f r + total f rs

pub total-append :
    (f : Routine → ℕ) (xs ys : List Routine) → total f (xs ++ ys) ≡ total f xs + total f ys
total-append f [] ys = omega arith
total-append f (x ∷ xs) ys = omega (arith, total-append f xs ys)

places_slots : (r : Routine) → places_of r ≤ slots_of r
places_slots r = ground arith

pub total_places : (rs : List Routine) → total places_of rs ≤ total slots_of rs
total_places [] = omega arith
total_places (r ∷ rs) = omega (arith, places_slots r, total_places rs)

module _ {S : Type 0} where
  -- What one step of a routine does to the accounts.
  pub record IsFair (n : ℕ) (r : Routine) (s s' : Server S) (rs : List Routine) : Type 0 where
    pub tokens_kept : s'.tokens + tokens_of r ≡ s.tokens + total tokens_of rs
    pub slots_kept : s'.active_conns + slots_of r ≡ s.active_conns + total slots_of rs
    pub closed_kept : s'.closed ≡ s.closed
    pub closed_off : s.closed ≡ true → total tokens_of rs ≤ 2 * tokens_of r
    pub placed :
        (total places_of rs ≤ places_of r)
        ⊎ ((total places_of rs ≡ 1) × (s.active_conns + 1 ≤ n) × (slots_of r ≡ 0))

  abbrev pub Fair : ℕ → Routine → Server S → Server S × List Routine → Type 0
  Fair n r s out = IsFair n r s out.0 out.1

  -- A step that changes the routine alone, for one that holds as much.
  pub swaps :
      (n : ℕ) (r r' : Routine) (s s' : Server S)
      → s'.tokens ≡ s.tokens
      → s'.active_conns ≡ s.active_conns
      → s'.closed ≡ s.closed
      → tokens_of r' ≡ tokens_of r
      → slots_of r' ≡ slots_of r
      → places_of r' ≤ places_of r
      → IsFair n r s s' (r' ∷ [])
  swaps n r r' s s' a b c d e f = record {
    tokens_kept = omega (arith, a, d);
    slots_kept = omega (arith, b, e);
    closed_kept = c;
    closed_off = λ h. omega (arith, d);
    placed = inl (omega (arith, f));
  }

  pub stays : (n : ℕ) (r : Routine) (s : Server S) → Fair n r s (s, r ∷ [])
  stays n r s = swaps n r r s s refl refl refl refl refl (omega arith)

  pub gives_up :
      (n : ℕ) (r r' : Routine) (s s' : Server S)
      → s'.tokens ≡ s.tokens
      → s'.active_conns ≡ s.active_conns - 1
      → s'.closed ≡ s.closed
      → tokens_of r ≡ 1
      → tokens_of r' ≡ 1
      → slots_of r ≡ 1
      → slots_of r' ≡ 0
      → places_of r' ≡ 0
      → slots_of r ≤ s.active_conns
      → IsFair n r s s' (r' ∷ [])
  gives_up n r r' s s' a b c d d' e e' f held = record {
    tokens_kept = omega (arith, a, d, d');
    slots_kept = omega (arith, b, e, e', held);
    closed_kept = c;
    closed_off = λ h. omega (arith, d, d');
    placed = inl (omega (arith, f));
  }
