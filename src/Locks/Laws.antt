-- ===== src/Locks/Laws.antt =====
-- Who holds a driver: exclusion, fencing and what a batch of leases grants
-- (infrastructure/internal/locks/lease.go).
use ride_matching_engine.Common.{
  ◌≢◌, ℕ, ◌<◌, ◌≡◌, refl, sym, ap, ◌∙◌, inl, inr, Bool, true, false, ◌||◌, String, Option, none,
  some, List, [], ◌∷◌, ◌++◌, arith, same, same→eq, same-false, <>_cancel, Bool-cases, if◌then◌else◌,
  ◌==◌, All, All-append, All-map,
}
use ride_matching_engine.Errors.{Error, Fallible, ok, err, has, redis_nil, not_acquired}
use ride_matching_engine.Locks.{
  Commands, Lease, Options, key, milliseconds, granted, claim, acquire, gather, acquire_from,
  acquire_many, Acquired, is_token, release_script, reply_is_one, release, extend_script, extended,
  extend,
}
use ride_matching_engine.Locks.Views.{KeyLaws}

-- Drivers of one tenant have keys of their own.
pub key_injective : (o : Options) (d e : String) → key o d ≡ key o e → d ≡ e
unfolding key
key_injective o d e h =
    <>_cancel ":" d e (<>_cancel o.tenant_id _ _ (<>_cancel "lock:driver:" _ _ h))

module _ (redis : Commands) (laws : KeyLaws redis) (o : Options) where
  open redis use {Server, read, eval}

  -- The lease is the current one of its driver.
  abbrev pub IsCurrent : Server → Lease → Type 0
  IsCurrent s l = read (key o l.driver_id) s ≡ some l.token

  pub granted_ok :
      (context driver token : String) (r : Fallible Bool) (l : Lease)
      → granted redis o context driver token r ≡ ok l
      → (r ≡ ok true) × (l.driver_id ≡ driver) × (l.token ≡ token)
  unfolding granted
  granted_ok context driver token (err e) l h = cc
  granted_ok context driver token (ok false) l h = cc
  granted_ok context driver token (ok true) l h = ground arith

  claim-IsCurrent :
      (context driver : String) (token : Fallible String) (s : Server) (l : Lease)
      → (claim redis o context (key o driver) driver token s).0 ≡ ok l
      → (l.driver_id ≡ driver)
        × (token ≡ ok l.token)
        × (read (key o driver) s ≡ none)
        × IsCurrent (claim redis o context (key o driver) driver token s).1 l
  unfolding claim
  claim-IsCurrent context driver (err f) s l h = cc
  claim-IsCurrent context driver (ok t) s l h =
      let (won, same_driver, same_token) = granted_ok context driver t _ l h in
      let (free, now) = laws.set_nx_won (key o driver) t o.ttl s won in
      (same_driver, ap ok (sym same_token), free, rw (same_driver, same_token) now)

  -- A lease is granted only on a driver that no one holds, under the token drawn for it, and is then
  -- the current one.
  pub acquire-IsCurrent :
      (driver : String) (token : Fallible String) (s : Server) (l : Lease)
      → (acquire redis o driver token s).0 ≡ ok l
      → (l.driver_id ≡ driver)
        × (token ≡ ok l.token)
        × (read (key o driver) s ≡ none)
        × IsCurrent (acquire redis o driver token s).1 l
  unfolding acquire
  acquire-IsCurrent driver token s l h = elim (Bool-cases (same driver "")) [
    | inl e ↦ cc (rw e at h)
    | inr e ↦ rw e (claim-IsCurrent _ driver token s l (rw e at h))
  ]

  claim_held :
      (context driver j w : String) (token : Fallible String) (s : Server)
      → read (key o j) s ≡ some w
      → read (key o j) (claim redis o context (key o driver) driver token s).1 ≡ some w
  unfolding claim
  claim_held context driver j w (err f) s h = h
  claim_held context driver j w (ok t) s h = elim (Bool-cases (same j driver)) [
    | inl e ↦
        rw (same→eq j driver e)
          (laws.set_nx_held (key o driver) t w o.ttl s (rw (same→eq j driver e) at h))
    | inr e ↦
        laws.set_nx_other (key o driver) t o.ttl s (key o j)
          (λ k. same-false j driver e (key_injective o j driver k))
        ∙ h
  ]

  acquire_leaves :
      (driver j w : String) (token : Fallible String) (s : Server)
      → read (key o j) s ≡ some w
      → read (key o j) (acquire redis o driver token s).1 ≡ some w
  unfolding acquire
  acquire_leaves driver j w token s h = elim (Bool-cases (same driver "")) [
    | inl e ↦ rw e h
    | inr e ↦ rw e (claim_held _ driver j w token s h)
  ]

  -- A held driver is granted to no one, and an attempt on any driver leaves its holder's token.
  pub acquire_held :
      (j w : String) (s : Server)
      → read (key o j) s ≡ some w
      → ((token : Fallible String) (l : Lease) → (acquire redis o j token s).0 ≢ ok l)
        × ((driver : String) (token : Fallible String)
            → read (key o j) (acquire redis o driver token s).1 ≡ some w)
  acquire_held j w s h = (
    λ token l e. cc (h, (acquire-IsCurrent j token s l e).2),
    λ driver token. acquire_leaves driver j w token s h,
  )

  is_token_iff :
      (t : Option String) (token : String) → is_token redis o t token ≡ true → t ≡ some token
  unfolding is_token
  is_token_iff none token h = cc
  is_token_iff (some t) token h = ap some (same→eq t token h)

  one : (n : ℕ) → (n == 1) ≡ true → n ≡ 1
  one n h = ground arith

  pub reply_one :
      (context : String) (r : Fallible ℕ) → reply_is_one redis o context r ≡ ok true → r ≡ ok 1
  unfolding reply_is_one
  reply_one context (ok n) h = ap ok (one n (ok_true h))
    where
      ok_true : {b : Bool} → ok b ≡ ok true → b ≡ true
      ok_true e = ground arith
  reply_one context (err e) h = elim (Bool-cases (has e redis_nil)) [
    | inl n ↦ cc (rw n at h)
    | inr n ↦ cc (rw n at h)
  ]

  -- A script that acts under a token at a key: without it, nothing happens and the reply is 0.
  abbrev pub guarded : String → String → (Server → ℕ × Server) → Server → ℕ × Server
  guarded k token f s = if is_token redis o (read k s) token then f s else (0, s)

  guarded_stale :
      (k token : String) (f : Server → ℕ × Server) (s : Server)
      → read k s ≢ some token
      → guarded k token f s ≡ (0, s)
  guarded_stale k token f s h = elim (Bool-cases (is_token redis o (read k s) token)) [
    | inl e ↦ absurd (h (is_token_iff _ token e))
    | inr e ↦ rw e refl
  ]

  pub eval_stale :
      (k token : String) (f : Server → ℕ × Server) (s : Server)
      → read k s ≢ some token
      → (eval (guarded k token f) s).1 ≡ s
  eval_stale k token f s h = elim (laws.eval_once (guarded k token f) s) [
    | inl e ↦ e
    | inr e ↦ e ∙ ap (λ p. p.1) (guarded_stale k token f s h)
  ]

  pub eval_won :
      (k token : String) (f : Server → ℕ × Server) (s : Server)
      → (eval (guarded k token f) s).0 ≡ ok 1
      → (read k s ≡ some token) × ((eval (guarded k token f) s).1 ≡ (f s).1)
  eval_won k token f s h =
      let (replied, ran) = laws.eval_done (guarded k token f) s 1 h in
      elim (Bool-cases (is_token redis o (read k s) token)) [
        | inl e ↦ (is_token_iff _ token e, ran ∙ rw e refl)
        | inr e ↦ absurd (zero_one (rw e at replied))
      ]
    where
      zero_one : ◌≡◌ {A = ℕ} 0 1 → ⊥
      zero_one e = omega arith

  -- Fencing. A release under a token that is not the driver's current one changes nothing, and never
  -- says that it released; one that says so was of the current lease, and frees the driver.
  pub release_fenced :
      (l : Lease) (s : Server)
      → (¬ IsCurrent s l → (release redis o l s).1 ≡ s)
        × ((release redis o l s).0 ≡ ok true
            → IsCurrent s l × (read (key o l.driver_id) (release redis o l s).1 ≡ none))
  unfolding release release_script
  release_fenced l s =
      let f = redis.del (key o l.driver_id) in
      elim (Bool-cases (same l.driver_id "" || same l.token "")) [
        | inl e ↦ rw e (λ h. refl, λ h. absurd (refused h))
        | inr e ↦ rw e (
          eval_stale (key o l.driver_id) l.token f s,
          λ h.
              let (now, ran) = eval_won (key o l.driver_id) l.token f s (reply_one _ _ h) in
              (now, ap (read (key o l.driver_id)) ran ∙ laws.del_own (key o l.driver_id) s),
        )
      ]
    where
      refused : {e : Error} → ◌≡◌ {A = Fallible Bool} (err e) (ok true) → ⊥
      refused k = cc

  extended_ok :
      (l l' : Lease) (r : Fallible Bool)
      → extended redis o l r ≡ ok l'
      → (r ≡ ok true) × (l'.driver_id ≡ l.driver_id) × (l'.token ≡ l.token)
  unfolding extended
  extended_ok l l' (err e) h = cc
  extended_ok l l' (ok false) h = cc
  extended_ok l l' (ok true) h = ground arith

  -- A lease is extended only while it is the current one, and keeps its driver and token. With a TTL
  -- of a millisecond or more the driver stays held under it; with a shorter one, the extension that
  -- succeeds has freed the driver.
  pub extend_fenced :
      (l l' : Lease) (s : Server)
      → (extend redis o l s).0 ≡ ok l'
      → IsCurrent s l
        × (l'.driver_id ≡ l.driver_id)
        × (l'.token ≡ l.token)
        × (0 < milliseconds o.ttl → IsCurrent (extend redis o l s).1 l)
        × (milliseconds o.ttl ≡ 0 → read (key o l.driver_id) (extend redis o l s).1 ≡ none)
  unfolding extend extend_script
  extend_fenced l l' s h =
      let k = key o l.driver_id in
      let f = redis.pexpire k (milliseconds o.ttl) in
      let (replied, driver, token) = extended_ok l l' _ h in
      let (now, ran) = eval_won (key o l.driver_id) l.token f s (reply_one _ _ replied) in
      (
        now,
        driver,
        token,
        λ long. ap (read k) ran ∙ laws.pexpire_keeps k (milliseconds o.ttl) s k (inr long) ∙ now,
        λ short.
            ap (read k) ran
            ∙ ap (λ ms. read k (redis.pexpire k ms s).1) short
            ∙ laws.pexpire_zero k s,
      )

  holders_stay :
      (driver : String) (token : Fallible String) (s : Server) (ls : List Lease)
      → All (IsCurrent s) ls
      → All (IsCurrent (acquire redis o driver token s).1) ls
  holders_stay driver token s ls h =
      All-map (λ l. acquire_leaves driver l.driver_id l.token token s) ls h

  gather-IsCurrent :
      (ls : List Lease) (p : Fallible Lease × Server)
      (next : List Lease → Server → Acquired redis o)
      → All (IsCurrent p.1) ls
      → ((l : Lease) → p.0 ≡ ok l → IsCurrent p.1 l)
      → ((ms : List Lease) (s : Server)
          → All (IsCurrent s) ms
          → All (IsCurrent (next ms s).2) (next ms s).0)
      → All (IsCurrent (gather redis o ls p next).2) (gather redis o ls p next).0
  unfolding gather
  gather-IsCurrent ls (ok l, s) next h new k =
      k (ls ++ l ∷ []) s (All-append (IsCurrent s) ls _ h (new l refl, tt))
  gather-IsCurrent ls (err e, s) next h new k = elim (Bool-cases (has e not_acquired)) [
    | inl busy ↦ rw busy (k ls s h)
    | inr failed ↦ rw failed h
  ]

  acquire_from-IsCurrent :
      (drivers : List (String × Fallible String)) (ls : List Lease) (s : Server)
      → All (IsCurrent s) ls
      → All (IsCurrent (acquire_from redis o drivers ls s).2) (acquire_from redis o drivers ls s).0
  unfolding acquire_from
  acquire_from-IsCurrent [] ls s h = h
  acquire_from-IsCurrent ((driver, token) ∷ rest) ls s h =
      gather-IsCurrent ls (acquire redis o driver token s) (acquire_from redis o rest)
        (holders_stay driver token s ls h) (λ l e. (acquire-IsCurrent driver token s l e).3)
        (acquire_from-IsCurrent rest)

  -- Every lease that `AcquireMany` returns, also where it stops at an error, is the current one of
  -- its driver when it returns.
  pub acquire_many-IsCurrent :
      (drivers : List (String × Fallible String)) (s : Server)
      → All (IsCurrent (acquire_many redis o drivers s).2) (acquire_many redis o drivers s).0
  unfolding acquire_many
  acquire_many-IsCurrent drivers s = acquire_from-IsCurrent drivers [] s tt
