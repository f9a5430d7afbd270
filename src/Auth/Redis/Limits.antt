-- ===== src/Auth/Redis/Limits.antt =====
-- How many calls the rate limiter lets through in one window.
use ride_matching_engine.Common.{
  ℕ, suc, ◌+◌, ◌-◌, ◌==◌, ◌≤◌, ◌<◌, ◌≡◌, ◌≢◌, refl, sym, ap, ◌∙◌, inl, inr, Bool, true, false, ◌&&◌,
  String, List, [], ◌∷◌, ℤ, pos, same, same→eq, same-false, Bool-cases, arith,
}
use ride_matching_engine.Common.Int.{leb_ℤ}
use ride_matching_engine.Errors.{Fallible, ok, err}
use ride_matching_engine.Time.{Time}
use ride_matching_engine.Auth.Redis.{Commands, rate_key, rate_limit_script, judged, allow}
use ride_matching_engine.Auth.Redis.Views.{CountLaws}

-- A call that reaches the limiter: its instant, its key, and the key's limit.
pub record Call : Type 0 where
  pub now : Time
  pub key_id : String
  pub limit : ℤ

abbrev pub is_allowed : Fallible (Bool × ℤ) → Bool
is_allowed (ok (b, left)) = b
is_allowed (err e) = false

abbrev pub one_if : Bool → ℕ
one_if true = 1
one_if false = 0

abbrev pub is_failure : Fallible ℕ → Bool
is_failure (ok n) = false
is_failure (err e) = true

-- A call of this window under a limit of at most `limit`.
unfoldable pub is_counted : String → ℕ → Call → Bool
is_counted k limit c =
    same (rate_key c.now c.key_id) k && (leb_ℤ (pos 1) c.limit && leb_ℤ c.limit (pos limit))

module _ (redis : Commands) where
  open redis use {Server, eval}

  -- The calls of a window that are let through, of all calls in their order.
  unfoldable pub let_through : String → ℕ → List Call → Server → ℕ
  let_through k limit [] s = 0
  let_through k limit (c ∷ cs) s =
      let (r, s') = allow redis c.now c.key_id c.limit s in
      one_if (is_counted k limit c && is_allowed r) + let_through k limit cs s'

  -- The calls of a window whose script fails.
  unfoldable pub unanswered : String → ℕ → List Call → Server → ℕ
  unanswered k limit [] s = 0
  unanswered k limit (c ∷ cs) s =
      one_if (
        is_counted k limit c
        && is_failure (eval (rate_limit_script redis (rate_key c.now c.key_id) 70) s).0)
      + unanswered k limit cs (allow redis c.now c.key_id c.limit s).1

  module _ (laws : CountLaws redis) where
    open laws use {count}

    script_reply :
        (k : String) (ttl : ℕ) (s : Server) → (rate_limit_script redis k ttl s).0 ≡ suc (count k s)
    unfolding rate_limit_script
    script_reply k ttl s = elim (Bool-cases ((redis.incr k s).0 == 1)) [
      | inl e ↦ rw e (laws.incr_reply k s)
      | inr e ↦ rw e (laws.incr_reply k s)
    ]

    script_own :
        (k : String) (ttl : ℕ) (s : Server)
        → 0 < ttl
        → count k (rate_limit_script redis k ttl s).1 ≡ suc (count k s)
    unfolding rate_limit_script
    script_own k ttl s lasts = elim (Bool-cases ((redis.incr k s).0 == 1)) [
      | inl e ↦ rw e (laws.expire_keeps k ttl _ k lasts ∙ laws.incr_own k s)
      | inr e ↦ rw e (laws.incr_own k s)
    ]

    script_other :
        (k : String) (ttl : ℕ) (s : Server) (j : String)
        → 0 < ttl
        → j ≢ k
        → count j (rate_limit_script redis k ttl s).1 ≡ count j s
    unfolding rate_limit_script
    script_other k ttl s j lasts h = elim (Bool-cases ((redis.incr k s).0 == 1)) [
      | inl e ↦ rw e (laws.expire_keeps k ttl _ j lasts ∙ laws.incr_other k s j h)
      | inr e ↦ rw e (laws.incr_other k s j h)
    ]

    script_grows :
        (j : String) (ttl : ℕ) (s : Server) (k : String)
        → 0 < ttl
        → count k s ≤ count k (rate_limit_script redis j ttl s).1
    script_grows j ttl s k lasts = elim (Bool-cases (same k j)) [
      | inl e ↦ rw (same→eq k j e) (omega (arith, script_own j ttl s lasts))
      | inr e ↦ omega (arith, script_other j ttl s k lasts (same-false k j e))
    ]

    eval_grows :
        (j : String) (s : Server) (k : String)
        → count k s ≤ count k (eval (rate_limit_script redis j 70) s).1
    eval_grows j s k = elim (laws.eval_once (rate_limit_script redis j 70) s) [
      | inl e ↦ rw e (omega arith)
      | inr e ↦ rw e (script_grows j 70 s k (omega arith))
    ]

    allow_grows :
        (c : Call) (s : Server) (k : String)
        → count k s ≤ count k (allow redis c.now c.key_id c.limit s).1
    unfolding allow
    allow_grows c s k = elim (Bool-cases (leb_ℤ c.limit (pos 0))) [
      | inl e ↦ rw e (omega arith)
      | inr e ↦ rw e (eval_grows (rate_key c.now c.key_id) s k)
    ]

    -- A script that replies has counted its call.
    answered :
        (k : String) (s : Server) (n : ℕ)
        → (eval (rate_limit_script redis k 70) s).0 ≡ ok n
        → (n ≡ suc (count k s))
          × (count k (eval (rate_limit_script redis k 70) s).1 ≡ suc (count k s))
    answered k s n h =
        let (reply, after) = laws.eval_done (rate_limit_script redis k 70) s n h in
        (
          sym reply ∙ script_reply k 70 s,
          ap (λ t. count k t) after ∙ script_own k 70 s (omega arith),
        )

    -- What one counted call does to the room that is left.
    room :
        (limit : ℕ) (l : ℤ) (before after : ℕ) (r : Fallible ℕ)
        → leb_ℤ l (pos limit) ≡ true
        → ((n : ℕ) → r ≡ ok n → (n ≡ suc before) × (after ≡ suc before))
        → before ≤ after
        → one_if (is_allowed (judged l r)) + (limit - after)
          ≤ (limit - before) + one_if (is_failure r)
    room limit l before after (err e) h a g = omega (arith, g)
    room limit l before after (ok n) h a g =
        let (reply, grown) = a n refl in ground (arith, h, reply, grown)

    counted :
        (k : String) (limit : ℕ) (c : Call)
        → is_counted k limit c ≡ true
        → (rate_key c.now c.key_id ≡ k)
          × (leb_ℤ c.limit (pos 0) ≡ false)
          × (leb_ℤ c.limit (pos limit) ≡ true)
    unfolding is_counted
    counted k limit c h = elim (Bool-cases (same (rate_key c.now c.key_id) k)) [
      | inr e ↦ cc (rw e at h)
      | inl e ↦
          let positive : leb_ℤ (pos 1) c.limit && leb_ℤ c.limit (pos limit) ≡ true = rw e at h in
          (same→eq _ _ e, ground (arith, positive), ground (arith, positive))
    ]

    -- A call of the window, under a limit of at most `limit`.
    counted_step :
        (k : String) (limit : ℕ) (c : Call) (s : Server)
        → rate_key c.now c.key_id ≡ k
        → leb_ℤ c.limit (pos 0) ≡ false
        → leb_ℤ c.limit (pos limit) ≡ true
        → one_if (is_allowed (allow redis c.now c.key_id c.limit s).0)
            + (limit - count k (allow redis c.now c.key_id c.limit s).1)
          ≤ (limit - count k s)
            + one_if (is_failure (eval (rate_limit_script redis (rate_key c.now c.key_id) 70) s).0)
    unfolding allow
    counted_step k limit c s e positive bound =
        rw (positive, e)
          (room limit c.limit (count k s) _ _ bound (answered k s) (eval_grows k s k))

    step :
        (k : String) (limit : ℕ) (c : Call) (s : Server)
        → one_if (is_counted k limit c && is_allowed (allow redis c.now c.key_id c.limit s).0)
            + (limit - count k (allow redis c.now c.key_id c.limit s).1)
          ≤ (limit - count k s)
            + one_if (
                is_counted k limit c
                && is_failure (eval (rate_limit_script redis (rate_key c.now c.key_id) 70) s).0)
    step k limit c s = elim (Bool-cases (is_counted k limit c)) [
      | inr e ↦ rw e (omega (arith, allow_grows c s k))
      | inl e ↦
          let (path, positive, bound) = counted k limit c e in
          rw e (counted_step k limit c s path positive bound)
    ]

    run_room :
        (k : String) (limit : ℕ) (cs : List Call) (s : Server)
        → let_through k limit cs s ≤ (limit - count k s) + unanswered k limit cs s
    unfolding let_through unanswered
    run_room k limit [] s = omega arith
    run_room k limit (c ∷ cs) s =
        omega
          (arith, step k limit c s, run_room k limit cs (allow redis c.now c.key_id c.limit s).1)

    -- Of the calls of one key in one window whose limit is positive and at most `limit`, in any
    -- order and among calls of other windows and keys, at most `limit` get through, and one more for
    -- each whose script fails.
    pub let_through_limited :
        (now : Time) (id : String) (limit : ℕ) (cs : List Call) (s : Server)
        → let_through (rate_key now id) limit cs s ≤ limit + unanswered (rate_key now id) limit cs s
    let_through_limited now id limit cs s = omega (arith, run_room (rate_key now id) limit cs s)
