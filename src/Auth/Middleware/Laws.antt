-- ===== src/Auth/Middleware/Laws.antt =====
-- Which requests the authentication lets through to the handler, and how it refuses the others.
use ride_matching_engine.Common.{
  ℕ, ◌≡◌, ◌≢◌, refl, sym, ap, subst, ◌∙◌, ◌⊎◌, inl, inr, true, false, String, Option, none, some,
  List, [], ◌∷◌, same, ne→same, if◌then◌else◌, Bool-cases, arith,
}
use ride_matching_engine.Errors.{
  Error, Fallible, ok, err, has, sentinel, invalid_key, rate_limited, key_not_found,
}
use ride_matching_engine.Time.{Time}
use ride_matching_engine.Auth.{
  ApiKey, active, parse_key, Store, Verified, check_key, found, parsed, verify,
}
use ride_matching_engine.Auth.Laws.{IsGranted, found_ok, verified_key}
use ride_matching_engine.Auth.Middleware.{
  Request, Decision, serve, refuse, presented_key, any_same, decide, decide_on, middleware,
}

module _ (hash_secret : String → String) (store : Store) where
  open store use {State, lookup, allow}

  asked :
      (skip_paths : List String) (r : Request) (now : Time) (s : State)
      → any_same r.path skip_paths ≡ false
      → same (presented_key r.headers) "" ≡ false
      → middleware hash_secret store skip_paths r now s
        ≡ decide_on hash_secret store (verify hash_secret store (presented_key r.headers) now s)
  unfolding middleware
  asked skip_paths r now s guarded given = rw (guarded, given) refl

  -- Why a presented key is no good: it does not parse, its id is unknown, its secret is not the one
  -- that was hashed, or the key is revoked or expired.
  pub data IsBad (raw : String) (now : Time) (s : State) : Type 0 where
    malformed : (e : Error) → parse_key raw ≡ err e → IsBad raw now s
    unknown :
        (id secret : String) (e : Error)
        → parse_key raw ≡ ok (id, secret)
        → (lookup id s).0 ≡ err e
        → has e key_not_found ≡ true
        → IsBad raw now s
    forged :
        (id secret : String) (k : ApiKey)
        → parse_key raw ≡ ok (id, secret)
        → (lookup id s).0 ≡ ok k
        → k.secret_hash ≢ hash_secret secret
        → IsBad raw now s
    spent :
        (id secret : String) (k : ApiKey)
        → parse_key raw ≡ ok (id, secret)
        → (lookup id s).0 ≡ ok k
        → active k now ≡ false
        → IsBad raw now s

  -- A failure of the store's lookup that is none of the errors that `Verify` names.
  pub record IsOutage (raw : String) (s : State) : Type 0 where
    pub id : String
    pub secret : String
    pub error : Error
    pub parsed_as : parse_key raw ≡ ok (id, secret)
    pub failed : (lookup id s).0 ≡ err error
    pub not_unknown : has error key_not_found ≡ false
    pub not_limited : has error rate_limited ≡ false
    pub not_invalid : has error invalid_key ≡ false

  failed_lookup :
      (id secret : String) (now : Time) (e : Error) (p : Fallible ApiKey × State)
      → p.0 ≡ err e
      → found hash_secret store id secret now p
        ≡ (none, some (if has e key_not_found then sentinel invalid_key else e), p.1)
  unfolding found
  failed_lookup id secret now e (ok k, s) h = cc
  failed_lookup id secret now e (err f, s) h =
      let same_error : f ≡ e = ground (arith, h) in rw same_error refl

  rejected :
      (id secret : String) (now : Time) (k : ApiKey) (s : State)
      → (k.secret_hash ≢ hash_secret secret) ⊎ (active k now ≡ false)
      → check_key hash_secret store id secret now k s ≡ (none, some (sentinel invalid_key), s)
  unfolding check_key
  rejected id secret now k s (inl h) = rw (ne→same k.secret_hash (hash_secret secret) h) refl
  rejected id secret now k s (inr h) = elim (Bool-cases (same k.secret_hash (hash_secret secret))) [
    | inl e ↦ rw (e, h) refl
    | inr e ↦ rw e refl
  ]

  verified_as :
      (raw id secret : String) (now : Time) (s : State)
      → parse_key raw ≡ ok (id, secret)
      → verify hash_secret store raw now s ≡ found hash_secret store id secret now (lookup id s)
  unfolding verify parsed
  verified_as raw id secret now s h = rw h refl

  verified_none :
      (raw : String) (e : Error) (now : Time) (s : State)
      → parse_key raw ≡ err e
      → verify hash_secret store raw now s ≡ (none, some (sentinel invalid_key), s)
  unfolding verify parsed
  verified_none raw e now s h = rw h refl

  abbrev error_of : Verified hash_secret store → Option Error
  error_of v = v.1

  verify_bad :
      (raw : String) (now : Time) (s : State)
      → IsBad raw now s
      → error_of (verify hash_secret store raw now s) ≡ some (sentinel invalid_key)
  verify_bad raw now s (malformed e h) = ap error_of (verified_none raw e now s h)
  verify_bad raw now s (unknown id secret e h f known) =
      ap error_of
        (verified_as raw id secret now s h ∙ failed_lookup id secret now e (lookup id s) f)
      ∙ rw known refl
  verify_bad raw now s (forged id secret k h f wrong) = ap error_of (
      verified_as raw id secret now s h
      ∙ found_ok hash_secret store id secret now k (lookup id s) f
      ∙ rejected id secret now k _ (inl wrong))
  verify_bad raw now s (spent id secret k h f off) = ap error_of (
      verified_as raw id secret now s h
      ∙ found_ok hash_secret store id secret now k (lookup id s) f
      ∙ rejected id secret now k _ (inr off))

  verify_outage :
      (raw : String) (now : Time) (s : State) (o : IsOutage raw s)
      → error_of (verify hash_secret store raw now s) ≡ some o.error
  verify_outage raw now s o =
      ap error_of (
        verified_as raw o.id o.secret now s o.parsed_as
        ∙ failed_lookup o.id o.secret now o.error (lookup o.id s) o.failed)
      ∙ rw o.not_unknown refl

  refused_by :
      (v : Verified hash_secret store) (e : Error)
      → error_of v ≡ some e
      → (decide_on hash_secret store v).0 ≡ decide v.0 (some e)
  unfolding decide_on
  refused_by (k, f, s) e h = ap (decide k) h

  decide_outage :
      (k : Option ApiKey) (e : Error)
      → has e rate_limited ≡ false
      → has e invalid_key ≡ false
      → decide k (some e)
        ≡ refuse 503
            (("Retry-After", "1") ∷ [])
            "unavailable"
            "could not verify credentials right now; please retry"
  unfolding decide
  decide_outage k e h g = rw (h, g) refl

  decide_invalid :
      (k : Option ApiKey)
      → decide k (some (sentinel invalid_key)) ≡ refuse 401 [] "unauthorized" "invalid API key"
  unfolding decide has
  decide_invalid k = refl

  -- On a path that is not skipped: a presented key that is no good is refused with 401, and in the
  -- same words whatever the reason; and one whose lookup fails with an error other than those that
  -- `Verify` names is refused with 503.
  pub middleware_refuses :
      (skip_paths : List String) (r : Request) (now : Time) (s : State)
      → any_same r.path skip_paths ≡ false
      → presented_key r.headers ≢ ""
      → (IsBad (presented_key r.headers) now s
          → (middleware hash_secret store skip_paths r now s).0
            ≡ refuse 401 [] "unauthorized" "invalid API key")
        × (IsOutage (presented_key r.headers) s
            → (middleware hash_secret store skip_paths r now s).0
              ≡ refuse 503
                  (("Retry-After", "1") ∷ [])
                  "unavailable"
                  "could not verify credentials right now; please retry")
  middleware_refuses skip_paths r now s guarded given =
      let e =
        ap (λ (d : Decision × State). d.0) (asked skip_paths r now s guarded (ne→same _ _ given)) in
      (
        λ bad. e ∙ refused_by _ _ (verify_bad _ now s bad) ∙ decide_invalid _,
        λ o.
            e
            ∙ refused_by _ _ (verify_outage _ now s o)
            ∙ decide_outage _ o.error o.not_limited o.not_invalid,
      )

  -- The statuses of a refusal.
  abbrev pub IsRefusal : ℕ → Type 0
  IsRefusal status = (status ≡ 401) ⊎ (status ≡ 429) ⊎ (status ≡ 503)

  -- What is behind each decision on a path that is not skipped.
  abbrev pub Meaning : String → Time → State → Decision → Type 0
  Meaning raw now s (serve key) =
      (k : ApiKey) × IsGranted hash_secret store raw now s k × (key ≡ some k)
  Meaning raw now s (refuse status headers code message) = IsRefusal status

  decide-Meaning :
      (raw : String) (now : Time) (s : State) (v : Verified hash_secret store)
      → verify hash_secret store raw now s ≡ v
      → Meaning raw now s (decide_on hash_secret store v).0
  unfolding decide decide_on
  decide-Meaning raw now s (key, some e, s') h = elim (Bool-cases (has e rate_limited)) [
    | inl a ↦ rw a (inr (inl refl))
    | inr a ↦ elim (Bool-cases (has e invalid_key)) [
      | inl b ↦ rw (a, b) (inl refl)
      | inr b ↦ rw (a, b) (inr (inr refl))
    ]
  ]
  decide-Meaning raw now s (key, none, s') h =
      let (k, granted, same_key) = verified_key hash_secret store raw now s (ap error_of h) in
      (k, granted, sym (ap (λ (v : Verified hash_secret store). v.0) h) ∙ same_key)

  no_key-Meaning :
      (skip_paths : List String) (r : Request) (now : Time) (s : State)
      → any_same r.path skip_paths ≡ false
      → same (presented_key r.headers) "" ≡ true
      → Meaning (presented_key r.headers) now s (middleware hash_secret store skip_paths r now s).0
  unfolding middleware
  no_key-Meaning skip_paths r now s guarded missing = rw (guarded, missing) (inl refl)

  -- On a path that is not skipped, what is served is served for a granted key, and what is refused is
  -- refused with one of three statuses.
  pub middleware-Meaning :
      (skip_paths : List String) (r : Request) (now : Time) (s : State)
      → any_same r.path skip_paths ≡ false
      → Meaning (presented_key r.headers) now s (middleware hash_secret store skip_paths r now s).0
  middleware-Meaning skip_paths r now s guarded =
      elim (Bool-cases (same (presented_key r.headers) "")) [
        | inl missing ↦ no_key-Meaning skip_paths r now s guarded missing
        | inr given ↦
            subst (λ (d : Decision × State). Meaning (presented_key r.headers) now s d.0)
              (sym (asked skip_paths r now s guarded given))
              (decide-Meaning (presented_key r.headers) now s _ refl)
      ]
