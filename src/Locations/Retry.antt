-- ===== src/Locations/Retry.antt =====
-- The retries of the Redis location store: `retryable` and `withRetry` of
-- infrastructure/internal/locations/redis.go.
use ride_matching_engine.Common.{
  ℕ, zero, suc, ◌+◌, ◌*◌, ◌≤◌, ◌≡◌, inl, inr, refl, Bool, true, false, not, ◌||◌, ◌<>◌, Option,
  none, some, ℤ, pos, negsuc, if◌then◌else◌, Bool-cases, ltb, arith,
}
use ride_matching_engine.Common.Decimal.{itoa}
use ride_matching_engine.Errors.{
  Error, Fallible, ok, err, plain, wrap, has, redis_nil, context_canceled, deadline_exceeded,
}

-- What the loop meets: whether an error is one of the server's own, and what ends the wait behind an
-- attempt that backs off by so many nanoseconds and a random part of it: the timer, or the context
-- with an error.
pub record Weather : Type 0 where
  pub is_redis_error : Error → Bool
  pub wait : ℕ → ℕ → Option Error

unfoldable pub retryable : Weather → Error → Bool
retryable w e =
    if has e redis_nil
    then false
    else if has e context_canceled || has e deadline_exceeded
    then false
    else if w.is_redis_error e
    then false
    else true

-- Doubled, and capped at half a second.
unfoldable pub next_backoff : ℕ → ℕ
next_backoff b = if ltb 500000000 (b * 2) then 500000000 else b * 2

unfoldable pub gave_up : ℤ → Error → Error
gave_up max_retries e = wrap ("after " <> (itoa max_retries <> " retries: ")) e ""

module _ {ℓ κ} {S : Type ℓ} {A : Type κ} (w : Weather) (max_retries : ℤ) where
  -- What the last attempt gives.
  unfoldable pub last : Fallible A × S → Fallible A × S
  last (ok a, s) = (ok a, s)
  last (err e, s) = if retryable w e then (err (gave_up max_retries e), s) else (err e, s)

  after_wait : Option Error → (S → Fallible A × S) → S → Fallible A × S
  after_wait (some c) again s = (err c, s)
  after_wait none again s = again s

  -- What an attempt gives that others may follow.
  unfoldable pub next : Option Error → (S → Fallible A × S) → Fallible A × S → Fallible A × S
  unfolding after_wait
  next waited again (ok a, s) = (ok a, s)
  next waited again (err e, s) = if retryable w e then after_wait waited again s else (err e, s)

  -- The loop, with the retries that are left, the number of the attempt, and its backoff.
  unfoldable pub attempts : (S → Fallible A × S) → ℕ → ℕ → ℕ → S → Fallible A × S
  attempts op zero i backoff s = last (op s)
  attempts op (suc left) i backoff s =
      next (w.wait i backoff) (attempts op left (suc i) (next_backoff backoff)) (op s)

-- `withRetry`. With a negative maximum nothing is tried, and the error wraps none.
unfoldable pub with_retry {ℓ κ} :
    {S : Type ℓ} {A : Type κ} → Weather → ℤ → (S → Fallible A × S) → S → Fallible A × S
with_retry w (pos n) op s = attempts w (pos n) op n 0 10000000 s
with_retry w (negsuc n) op s =
    (err (plain ("after " <> (itoa (negsuc n) <> " retries: %!w(<nil>)"))), s)

-- An operation that counts how often it is run.
unfoldable pub counted : {A S : Type 0} → (S → Fallible A × S) → S × ℕ → Fallible A × (S × ℕ)
counted op (s, n) = let (r, s') = op s in (r, (s', n + 1))

-- A success, or an error that is not a transient one.
abbrev pub is_settled : {A : Type 0} → Weather → Fallible A → Bool
is_settled w (ok a) = true
is_settled w (err e) = not (retryable w e)

not-true : (b : Bool) → not b ≡ true → b ≡ false
not-true b h = ground (arith, h)

-- How often it has run.
abbrev pub runs : {A S : Type 0} → Fallible A × (S × ℕ) → ℕ
runs (r, (s, n)) = n

module _ {A S : Type 0} (w : Weather) (max_retries : ℤ) (op : S → Fallible A × S) where
  run_once : (s : S) (n : ℕ) → runs (counted op (s, n)) ≡ n + 1
  unfolding counted
  run_once s n = refl

  runs-last : (r : Fallible A × (S × ℕ)) → runs (last w max_retries r) ≡ runs r
  unfolding last
  runs-last (ok a, s) = refl
  runs-last (err e, s) = elim (Bool-cases (retryable w e)) [ inl h ↦ rw h refl | inr h ↦ rw h refl ]

  runs-next :
      (waited : Option Error) (again : S × ℕ → Fallible A × (S × ℕ)) (r : Fallible A × (S × ℕ))
      (left : ℕ)
      → ((s : S × ℕ) → (s.1 + 1 ≤ runs (again s)) × (runs (again s) ≤ s.1 + (left + 1)))
      → (runs r ≤ runs (next w max_retries waited again r))
        × (runs (next w max_retries waited again r) ≤ runs r + (left + 1))
  unfolding next after_wait
  runs-next waited again (ok a, s) left h = (omega arith, omega arith)
  runs-next (some c) again (err e, s) left h = elim (Bool-cases (retryable w e)) [
    | inl g ↦ rw g (omega arith, omega arith)
    | inr g ↦ rw g (omega arith, omega arith)
  ]
  runs-next none again (err e, s) left h = elim (Bool-cases (retryable w e)) [
    | inl g ↦ rw g (omega (arith, h s), omega (arith, h s))
    | inr g ↦ rw g (omega arith, omega arith)
  ]

  runs-attempts :
      (left i backoff : ℕ) (s : S × ℕ)
      → (s.1 + 1 ≤ runs (attempts w max_retries (counted op) left i backoff s))
        × (runs (attempts w max_retries (counted op) left i backoff s) ≤ s.1 + (left + 1))
  unfolding attempts
  runs-attempts zero i backoff (s, n) =
      let e = runs-last (counted op (s, n)) in
      (omega (arith, e, run_once s n), omega (arith, e, run_once s n))
  runs-attempts (suc left) i backoff (s, n) =
      let (low, high) =
        runs-next (w.wait i backoff)
          (attempts w max_retries (counted op) left (suc i) (next_backoff backoff))
          (counted op (s, n)) left (runs-attempts left (suc i) (next_backoff backoff)) in
      (omega (arith, low, run_once s n), omega (arith, high, run_once s n))

  -- An attempt that succeeds, or whose error is not a transient one, is the last.
  settled_last : (r : Fallible A × S) → is_settled w r.0 ≡ true → last w max_retries r ≡ r
  unfolding last
  settled_last (ok a, s) h = refl
  settled_last (err e, s) h = rw (not-true _ h) refl

  settled_next :
      (waited : Option Error) (again : S → Fallible A × S) (r : Fallible A × S)
      → is_settled w r.0 ≡ true
      → next w max_retries waited again r ≡ r
  unfolding next
  settled_next waited again (ok a, s) h = refl
  settled_next waited again (err e, s) h = rw (not-true _ h) refl

  settled_attempts :
      (left i backoff : ℕ) (s : S)
      → is_settled w (op s).0 ≡ true
      → attempts w max_retries op left i backoff s ≡ op s
  unfolding attempts
  settled_attempts zero i backoff s h = settled_last (op s) h
  settled_attempts (suc left) i backoff s h = settled_next _ _ (op s) h

-- With a maximum of retries that is not negative, `withRetry` ends after at least one attempt, and
-- after at most one more than the maximum. A first attempt that succeeds, or whose error is not a
-- transient one, is not followed by another: the result is that attempt's.
pub with_retry_ends :
    {A S : Type 0} (w : Weather) (n : ℕ) (op : S → Fallible A × S) (s : S)
    → (1 ≤ runs (with_retry w (pos n) (counted op) (s, 0)))
      × (runs (with_retry w (pos n) (counted op) (s, 0)) ≤ n + 1)
      × (is_settled w (op s).0 ≡ true → with_retry w (pos n) op s ≡ op s)
unfolding with_retry
with_retry_ends w n op s =
    let (low, high) = runs-attempts w (pos n) op n 0 10000000 (s, 0) in
    (omega (arith, low), omega (arith, high), settled_attempts w (pos n) op n 0 10000000 s)

-- A result with a state that is kept, and a success of which this is said.
abbrev pub IsGood : {A S : Type 0} → (S → Type 0) → (A → Type 0) → Fallible A × S → Type 0
IsGood Kept Said (ok a, s) = Said a × Kept s
IsGood Kept Said (err e, s) = Kept s

-- What each attempt keeps of the state, and says of its result, holds behind the retries too.
module _ {A S : Type 0} (w : Weather) (max_retries : ℤ) (op : S → Fallible A × S)
    (Kept : S → Type 0) (Said : A → Type 0) where
  last-IsGood : (r : Fallible A × S) → IsGood Kept Said r → IsGood Kept Said (last w max_retries r)
  unfolding last
  last-IsGood (ok a, s) h = h
  last-IsGood (err e, s) h = elim (Bool-cases (retryable w e)) [ inl g ↦ rw g h | inr g ↦ rw g h ]

  next-IsGood :
      (waited : Option Error) (again : S → Fallible A × S) (r : Fallible A × S)
      → ((s : S) → Kept s → IsGood Kept Said (again s))
      → IsGood Kept Said r
      → IsGood Kept Said (next w max_retries waited again r)
  unfolding next after_wait
  next-IsGood waited again (ok a, s) more h = h
  next-IsGood (some c) again (err e, s) more h = elim (Bool-cases (retryable w e)) [
    | inl g ↦ rw g h
    | inr g ↦ rw g h
  ]
  next-IsGood none again (err e, s) more h = elim (Bool-cases (retryable w e)) [
    | inl g ↦ rw g (more s h)
    | inr g ↦ rw g h
  ]

  module _ (each : (s : S) → Kept s → IsGood Kept Said (op s)) where
    attempts-IsGood :
        (left i backoff : ℕ) (s : S)
        → Kept s
        → IsGood Kept Said (attempts w max_retries op left i backoff s)
    unfolding attempts
    attempts-IsGood zero i backoff s h = last-IsGood (op s) (each s h)
    attempts-IsGood (suc left) i backoff s h =
        next-IsGood _ _ (op s) (attempts-IsGood left (suc i) (next_backoff backoff)) (each s h)

pub with_retry-IsGood :
    {A S : Type 0} (w : Weather) (max_retries : ℤ) (op : S → Fallible A × S) (Kept : S → Type 0)
    (Said : A → Type 0)
    → ((s : S) → Kept s → IsGood Kept Said (op s))
    → (s : S) → Kept s
    → IsGood Kept Said (with_retry w max_retries op s)
unfolding with_retry
with_retry-IsGood w (pos n) op Kept Said each s h =
    attempts-IsGood w (pos n) op Kept Said each n 0 10000000 s h
with_retry-IsGood w (negsuc n) op Kept Said each s h = h
