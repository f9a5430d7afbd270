-- ===== src/Auth/Redis/Revocation.antt =====
-- What a revocation means to the verification of keys.
use ride_matching_engine.Common.{
  ℕ, zero, suc, ◌≡◌, ◌≢◌, refl, sym, ap, ◌∙◌, true, false, String, Option, none, some, [], ◌∷◌, ℤ,
  same_self, arith,
}
use ride_matching_engine.Common.Decimal.{itoa}
use ride_matching_engine.Common.Int.{leb_ℤ}
use ride_matching_engine.Errors.{Error, Fallible, ok, err}
use ride_matching_engine.Time.{Time, is_zero, unix_milli, from_milli}
use ride_matching_engine.Queue.Codec.{Fields, Numerals}
use ride_matching_engine.Auth.{ApiKey, active, parse_key, verify}
use ride_matching_engine.Auth.Laws.{verified_key}
use ride_matching_engine.Auth.Redis.{
  Commands, key_path, find, instant, of_hash, looked_up, lookup, failed_revoke, revoke_found,
  revoke, redis_store,
}
use ride_matching_engine.Auth.Redis.Views.{over, HashLaws}

module _ (redis : Commands) (laws : HashLaws redis) where
  open redis use {Server, hgetall, hset, exists}
  open laws use {field}

  failed_revoke-none : (e : Option Error) → failed_revoke e ≡ none → e ≡ none
  failed_revoke-none none h = refl
  failed_revoke-none (some e) h = cc

  find_only : (k v : String) → find k ((k, v) ∷ []) ≡ some v
  unfolding find
  find_only k v = rw (same_self k) refl

  revoke_found_writes :
      (id : String) (now : Time) (p : Fallible ℕ × Server)
      → (revoke_found redis id now p).0 ≡ none
      → field (key_path id) "revoked_at" (revoke_found redis id now p).1
        ≡ some (itoa (unix_milli now))
  unfolding revoke_found
  revoke_found_writes id now (err e, s) h = cc
  revoke_found_writes id now (ok zero, s) h = cc
  revoke_found_writes id now (ok (suc n), s) h =
      laws.hset_own (key_path id) (("revoked_at", itoa (unix_milli now)) ∷ []) s "revoked_at"
        (failed_revoke-none _ h)
      ∙ ap (λ o. over o (field (key_path id) "revoked_at" s))
          (find_only "revoked_at" (itoa (unix_milli now)))

  revoke_writes :
      (id : String) (now : Time) (s : Server)
      → (revoke redis id now s).0 ≡ none
      → field (key_path id) "revoked_at" (revoke redis id now s).1 ≡ some (itoa (unix_milli now))
  unfolding revoke
  revoke_writes id now s h = revoke_found_writes id now (exists (key_path id) s) h

  -- What a lookup says of a revocation.
  looked_up_revoked :
      (n : Numerals) (id : String) (s : Server) (v : String) (ms : ℤ) (k : ApiKey)
      (r : Fallible Fields)
      → (hgetall (key_path id) s).0 ≡ r
      → looked_up n id r ≡ ok k
      → field (key_path id) "revoked_at" s ≡ some v
      → n.parse_int v ≡ some ms
      → k.revoked_at ≡ from_milli ms
  unfolding looked_up of_hash
  looked_up_revoked n id s v ms k (err e) a h f g = cc
  looked_up_revoked n id s v ms k (ok []) a h f g = cc
  looked_up_revoked n id s v ms k (ok (x ∷ fs)) a h f g =
      sym (key_eq _ k h) ∙ ap (instant n) (laws.hgetall_shows _ s _ "revoked_at" a ∙ f) ∙ rw g refl
    where
      key_eq : (j k' : ApiKey) → ok j ≡ ok k' → j.revoked_at ≡ k'.revoked_at
      key_eq j k' e = ground arith

  lookup_revoked :
      (n : Numerals) (id : String) (s : Server) (v : String) (ms : ℤ) (k : ApiKey)
      → (lookup redis n id s).0 ≡ ok k
      → field (key_path id) "revoked_at" s ≡ some v
      → n.parse_int v ≡ some ms
      → k.revoked_at ≡ from_milli ms
  unfolding lookup
  lookup_revoked n id s v ms k h f g = looked_up_revoked n id s v ms k _ refl h f g

  revoked_inactive :
      (k : ApiKey) (t later : Time)
      → k.revoked_at ≡ t
      → is_zero t ≡ false
      → leb_ℤ t later ≡ true
      → active k later ≡ false
  unfolding active
  revoked_inactive k t later e set come = rw (e, set, come) refl

  -- Once `Revoke` of an id has succeeded at an instant that is not zero and that `strconv` reads
  -- back, and as long as its `revoked_at` is not written again, `Verify` returns an error for every
  -- key under that id, from that instant on, cut to milliseconds.
  pub revoke_refuses :
      (hash_secret : String → String) (n : Numerals) (id secret raw : String) (now later : Time)
      (s s' : Server)
      → (revoke redis id now s).0 ≡ none
      → field (key_path id) "revoked_at" s'
        ≡ field (key_path id) "revoked_at" (revoke redis id now s).1
      → n.parse_int (itoa (unix_milli now)) ≡ some (unix_milli now)
      → is_zero (from_milli (unix_milli now)) ≡ false
      → leb_ℤ (from_milli (unix_milli now)) later ≡ true
      → parse_key raw ≡ ok (id, secret)
      → (verify hash_secret (redis_store redis n later) raw later s').1 ≢ none
  revoke_refuses hash_secret n id secret raw now later s s' done kept back set come parses h =
      let (k, g, same_key) = verified_key hash_secret (redis_store redis n later) raw later s' h in
      let same_id = id_eq g.id g.secret (sym g.parsed_as ∙ parses) in
      let revoked =
        lookup_revoked n id s' (itoa (unix_milli now)) (unix_milli now) k
          (ap (λ i. (lookup redis n i s').0) (sym same_id) ∙ g.stored)
          (kept ∙ revoke_writes id now s done) back in
      cc (revoked_inactive k _ later revoked set come, g.in_force)
    where
      id_eq :
          (i j : String)
          → ◌≡◌ {A = Fallible (String × String)} (ok (i, j)) (ok (id, secret))
          → i ≡ id
      id_eq i j e = ground arith
