-- ===== src/Auth/Laws.antt =====
-- Which keys `ParseKey` reads and `Verify` lets through.
use ride_matching_engine.Common.{
  ℕ, ◌≡◌, ◌≢◌, refl, sym, ap, subst, ◌∙◌, ◌↔◌, Bool, true, false, String, ◌<>◌, none, some, List,
  [], ◌∷◌, ℤ, same, same→eq, ne→same, same_iff, Bool-cases, inl, inr, arith,
}
use mathlib.Core.Option.{some-injective}
use ride_matching_engine.Common.Chars.{split, split-Lacks, split_underscore, hex, hex-Lacks, Lacks}
use ride_matching_engine.Errors.{Fallible, ok, err}
use ride_matching_engine.Time.{Time}
use ride_matching_engine.Auth.{
  ApiKey, active, generate_key, key_parts, parse_key, Store, Verified, within_limit, check_key,
  found, parsed, verify,
}

split_raw :
    (a b c : String)
    → Lacks b'_' a
    → Lacks b'_' b
    → Lacks b'_' c
    → split b'_' (a <> ("_" <> (b <> ("_" <> c)))) ≡ a ∷ b ∷ c ∷ []
split_raw a b c ha hb hc =
    split_underscore a _ ha
    ∙ ap (λ ps. a ∷ ps) (split_underscore b c hb ∙ ap (λ ps. b ∷ ps) (split-Lacks b'_' c hc))

hex-ne : (bs : List ℕ) → bs ≢ [] → same (hex bs) "" ≡ false
unfolding hex
hex-ne [] h = absurd (h refl)
hex-ne (b ∷ bs) h = ne→same _ "" (λ e. cc)

-- A key that `GenerateKey` mints, of bytes that are not empty, is parsed into the id and the secret
-- that it was minted from.
pub parse_key-generate_key :
    (hash_secret : String → String) (id secret : List ℕ)
    → id ≢ []
    → secret ≢ []
    → parse_key (generate_key hash_secret id secret).0 ≡ ok (hex id, hex secret)
unfolding parse_key generate_key key_parts same
parse_key-generate_key hash_secret id secret n m =
    rw
      (
        split_raw "rmk" (hex id) (hex secret) (ground arith) (hex-Lacks id) (hex-Lacks secret),
        hex-ne id n,
        hex-ne secret m,
      )
      refl

ok_inj : (j k : ApiKey) → ok j ≡ ok k → j ≡ k
ok_inj j k h = ground arith

module _ (hash_secret : String → String) (store : Store) where
  open store use {State, lookup, allow}

  -- A presented key that is let through: its id names a stored key with the hash of its secret, the
  -- key is neither revoked nor expired, and the limit has room for the call.
  pub record IsGranted (raw : String) (now : Time) (s : State) (k : ApiKey) : Type 0 where
    pub id : String
    pub secret : String
    pub parsed_as : parse_key raw ≡ ok (id, secret)
    pub stored : (lookup id s).0 ≡ ok k
    pub secret_known : k.secret_hash ≡ hash_secret secret
    pub in_force : active k now ≡ true
    pub left : ℤ
    pub has_room : (allow id k.rate_limit_per_minute (lookup id s).1).0 ≡ ok (true, left)

  within_limit-none :
      (k : ApiKey) (p : Fallible (Bool × ℤ) × State)
      → (within_limit hash_secret store k p).1 ≡ none
      → (left : ℤ) × (p.0 ≡ ok (true, left)) × ((within_limit hash_secret store k p).0 ≡ some k)
  unfolding within_limit
  within_limit-none k (err e, s) h = cc
  within_limit-none k (ok (false, left), s) h = cc
  within_limit-none k (ok (true, left), s) h = (left, refl, refl)

  check_key-none :
      (id secret : String) (now : Time) (k : ApiKey) (s : State)
      → (check_key hash_secret store id secret now k s).1 ≡ none
      → (k.secret_hash ≡ hash_secret secret)
        × (active k now ≡ true)
        × (left : ℤ) × ((allow id k.rate_limit_per_minute s).0 ≡ ok (true, left))
        × ((check_key hash_secret store id secret now k s).0 ≡ some k)
  unfolding check_key
  check_key-none id secret now k s h = elim (Bool-cases (same k.secret_hash (hash_secret secret))) [
    | inr wrong ↦ cc (rw wrong at h)
    | inl right ↦ elim (Bool-cases (active k now)) [
      | inr off ↦ cc (rw (right, off) at h)
      | inl on ↦
          let (left, room, key) = within_limit-none k _ (rw (right, on) at h) in
          (same→eq _ _ right, on, left, room, rw (right, on) key)
    ]
  ]

  parsed-none :
      (raw : String) (now : Time) (p : Fallible (String × String)) (s : State)
      → parse_key raw ≡ p
      → (parsed hash_secret store now p s).1 ≡ none
      → (k : ApiKey) × IsGranted raw now s k × ((parsed hash_secret store now p s).0 ≡ some k)
  unfolding parsed found
  parsed-none raw now (err e) s q h = cc
  parsed-none raw now (ok (id, secret)) s q h = looked (lookup id s) refl h
    where
      looked :
          (r : Fallible ApiKey × State)
          → lookup id s ≡ r
          → (found hash_secret store id secret now r).1 ≡ none
          → (k : ApiKey) × IsGranted raw now s k
            × ((found hash_secret store id secret now r).0 ≡ some k)
      looked (err e, s') e' h = cc
      looked (ok k, s') e h =
          let (known, on, left, room, key) = check_key-none id secret now k s' h in
          (
            k,
            record {
              id = id;
              secret = secret;
              parsed_as = q;
              stored = ap (λ p. p.0) e;
              secret_known = known;
              in_force = on;
              left = left;
              has_room =
                  ap (λ (p : Fallible ApiKey × State). (allow id k.rate_limit_per_minute p.1).0) e
                  ∙ room;
            },
            key,
          )

  allowed :
      (k : ApiKey) (left : ℤ) (p : Fallible (Bool × ℤ) × State)
      → p.0 ≡ ok (true, left)
      → within_limit hash_secret store k p ≡ (some k, none, p.1)
  unfolding within_limit
  allowed k left (err e, s) h = cc
  allowed k left (ok (false, l), s) h = cc
  allowed k left (ok (true, l), s) h = refl

  pub found_ok :
      (id secret : String) (now : Time) (k : ApiKey) (p : Fallible ApiKey × State)
      → p.0 ≡ ok k
      → found hash_secret store id secret now p ≡ check_key hash_secret store id secret now k p.1
  unfolding found
  found_ok id secret now k (err e, s) h = cc
  found_ok id secret now k (ok j, s) h =
      ap (λ (x : ApiKey). check_key hash_secret store id secret now x s) (ok_inj j k h)

  check_key_ok :
      (id secret : String) (now : Time) (k : ApiKey) (s : State) (left : ℤ)
      → k.secret_hash ≡ hash_secret secret
      → active k now ≡ true
      → (allow id k.rate_limit_per_minute s).0 ≡ ok (true, left)
      → check_key hash_secret store id secret now k s
        ≡ (some k, none, (allow id k.rate_limit_per_minute s).1)
  unfolding check_key
  check_key_ok id secret now k s left e on room =
      rw ((same_iff k.secret_hash (hash_secret secret)).1 e, on) (allowed k left _ room)

  -- No error comes with a key.
  pub verified_key :
      (raw : String) (now : Time) (s : State)
      → (verify hash_secret store raw now s).1 ≡ none
      → (k : ApiKey) × IsGranted raw now s k × ((verify hash_secret store raw now s).0 ≡ some k)
  unfolding verify
  verified_key raw now s h = parsed-none raw now (parse_key raw) s refl h

  -- `Verify` returns no error exactly for a granted key, which is then the key that it returns.
  pub verify_grants_iff :
      (raw : String) (now : Time) (s : State) (k : ApiKey)
      → (((verify hash_secret store raw now s).1 ≡ none)
          × ((verify hash_secret store raw now s).0 ≡ some k))
        ↔ IsGranted raw now s k
  unfolding verify parsed found
  verify_grants_iff raw now s k = (
    λ (h, g). go (parsed-none raw now (parse_key raw) s refl h) g,
    λ g.
        let all = verified g in
        (
          ap (λ (v : Verified hash_secret store). v.1) all,
          ap (λ (v : Verified hash_secret store). v.0) all,
        ),
  )
    where
      verified :
          (g : IsGranted raw now s k)
          → verify hash_secret store raw now s
            ≡ (some k, none, (allow g.id k.rate_limit_per_minute (lookup g.id s).1).1)
      verified g =
          ap (λ p. parsed hash_secret store now p s) g.parsed_as
          ∙ found_ok g.id g.secret now k (lookup g.id s) g.stored
          ∙ check_key_ok g.id g.secret now k (lookup g.id s).1 g.left g.secret_known g.in_force
              g.has_room

      go :
          (k' : ApiKey) × IsGranted raw now s k'
            × ((verify hash_secret store raw now s).0 ≡ some k')
          → (verify hash_secret store raw now s).0 ≡ some k
          → IsGranted raw now s k
      go (k', granted, key) g =
          subst (IsGranted raw now s) (some-injective k' k (sym key ∙ g)) granted
