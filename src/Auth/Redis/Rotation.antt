-- ===== src/Auth/Redis/Rotation.antt =====
-- What a rotation of API keys leaves in the store.
use ride_matching_engine.Common.{
  ◌≡◌, ◌≢◌, refl, sym, ap, subst, ◌∙◌, false, String, ◌<>◌, Option, none, some, [], ◌∷◌, same,
  Bool-cases, inl, inr, arith,
}
use ride_matching_engine.Common.Chars.{hex}
use ride_matching_engine.Common.Decimal.{itoa}
use ride_matching_engine.Common.Int.{◌+ℤ◌}
use ride_matching_engine.Errors.{Error, Fallible, ok, err}
use ride_matching_engine.Time.{Duration, is_zero, unix_milli}
use ride_matching_engine.Queue.Codec.{Fields, Numerals}
use ride_matching_engine.Auth.{ApiKey, generate_key}
use ride_matching_engine.Auth.Redis.{
  Commands, Draws, Clock, key_path, find, to_hash, of_hash, save, looked_up, lookup, minted,
  new_key, create, time_left, retire, replace, rotate_found, rotate,
}
use ride_matching_engine.Auth.Redis.Views.{over, HashLaws}
use ride_matching_engine.Auth.Redis.Records.{unset, find_revoked}
use ride_matching_engine.Auth.Redis.Saves.{
  over-some, to_hash_linked, IsStored, IsFree, save_own, save_other, save-IsStored,
}

module _ (redis : Commands) (laws : HashLaws redis) where
  open redis use {Server, hgetall, hset, sadd}
  open laws use {field}

  abbrev linked_key : ApiKey → String → ApiKey
  linked_key k id = record k { rotated_from = id }

  minted_ok :
      (raw raw' : String) (k fresh : ApiKey) (q : Option Error × Server)
      → (minted redis raw k q).0 ≡ ok (raw', fresh)
      → (q.0 ≡ none) × (fresh ≡ k) × ((minted redis raw k q).1 ≡ q.1)
  minted_ok raw raw' k fresh (some e, s) h = cc
  minted_ok raw raw' k fresh (none, s) h = (refl, ground (arith, h), refl)

  retire_ok :
      (ret k : ApiKey) (raw raw' : String) (fresh : ApiKey) (q : Option Error × Server)
      → (retire redis ret raw k q).0 ≡ ok (raw', fresh)
      → (q.0 ≡ none)
        × ((save redis ret q.1).0 ≡ none)
        × (fresh ≡ k)
        × ((retire redis ret raw k q).1 ≡ (save redis ret q.1).1)
  unfolding retire
  retire_ok ret k raw raw' fresh (some e, s) h = cc
  retire_ok ret k raw raw' fresh (none, s) h =
      let (last, same_key, after) = minted_ok raw raw' k fresh (save redis ret s) h in
      (refl, last, same_key, after)

  -- What a rotation that succeeds has saved, in its order: the new key, the new key with its link,
  -- and the old key.
  replace_ok :
      (old ret k : ApiKey) (raw raw' : String) (fresh : ApiKey) (p : Option Error × Server)
      → (replace redis old ret (minted redis raw k p)).0 ≡ ok (raw', fresh)
      → (p.0 ≡ none)
        × ((save redis (linked_key k old.key_id) p.1).0 ≡ none)
        × ((save redis ret (save redis (linked_key k old.key_id) p.1).1).0 ≡ none)
        × (fresh ≡ linked_key k old.key_id)
        × ((replace redis old ret (minted redis raw k p)).1
            ≡ (save redis ret (save redis (linked_key k old.key_id) p.1).1).1)
  unfolding replace
  replace_ok old ret k raw raw' fresh (some e, s) h = cc
  replace_ok old ret k raw raw' fresh (none, s) h =
      let (one, two, same_key, after) =
        retire_ok ret (linked_key k old.key_id) raw raw' fresh
          (save redis (linked_key k old.key_id) s) h in
      (refl, one, two, same_key, after)

  -- What the store holds after the three saves.
  three_saves :
      (k ret : ApiKey) (id : String) (s : Server)
      → k.rotated_from ≡ ""
      → k.key_id ≢ ret.key_id
      → IsFree redis laws k.key_id s
      → (save redis k s).0 ≡ none
      → (save redis (linked_key k id) (save redis k s).1).0 ≡ none
      → let s2 = (save redis (linked_key k id) (save redis k s).1).1 in
        (save redis ret s2).0 ≡ none
        → IsStored redis laws (linked_key k id) (save redis ret s2).1
          × ((name v : String)
              → find name (to_hash ret) ≡ some v
              → field (key_path ret.key_id) name (save redis ret s2).1 ≡ some v)
  three_saves k ret id s unlinked other free one two three = (
    λ name.
        save_other redis laws ret _ k.key_id name other
        ∙ save_own redis laws (linked_key k id) _ name two
        ∙ ap (over (find name (to_hash (linked_key k id))))
            (save-IsStored redis laws k s one free name)
        ∙ to_hash_linked k id name unlinked,
    λ name v h. save_own redis laws ret _ name three ∙ over-some _ _ v h,
  )

  module _ (hash_secret : String → String) (n : Numerals) (d : Draws) (clock : Clock)
      (overlap : Duration) where
    -- The key that `Rotate` mints, and the old one as it saves it.
    unfoldable pub minted_key : ApiKey → ApiKey
    minted_key old =
        new_key hash_secret d clock.created_at old.tenant_id (old.name <> " (rotated)")
          (time_left old clock.looked_at) old.rate_limit_per_minute

    abbrev pub retired : ApiKey → ApiKey
    retired old = record old { revoked_at = clock.revoked_at +ℤ overlap }

    created :
        (old : ApiKey) (raw : String) (fresh : ApiKey) (s : Server)
        → (rotate_found redis hash_secret d clock overlap (ok old, s)).0 ≡ ok (raw, fresh)
        → rotate_found redis hash_secret d clock overlap (ok old, s)
          ≡ replace redis old (retired old) (
              minted redis
                (generate_key hash_secret d.id d.secret).0
                (minted_key old)
                (save redis (minted_key old) s))
    unfolding rotate_found create minted_key replace
    created old raw fresh s h = elim (Bool-cases (same old.tenant_id "")) [
      | inl e ↦ absurd (ground (arith, rw e at h))
      | inr e ↦ rw e refl
    ]

    key_id_found :
        (id : String) (r : Fallible Fields) (old : ApiKey)
        → looked_up n id r ≡ ok old
        → old.key_id ≡ id
    unfolding looked_up of_hash
    key_id_found id (err e) old h = cc
    key_id_found id (ok []) old h = cc
    key_id_found id (ok (f ∷ fs)) old h = ground (arith, h)

    found_old :
        (id : String) (old : ApiKey) (s : Server)
        → (lookup redis n id s).0 ≡ ok old
        → (old.key_id ≡ id)
          × ((j name : String) → field j name (lookup redis n id s).1 ≡ field j name s)
    unfolding lookup
    found_old id old s h =
        (key_id_found id _ old h, λ j name. laws.hgetall_keeps (key_path id) s j name)

    ids_differ :
        (old : ApiKey) → hex d.id ≢ old.key_id → (minted_key old).key_id ≢ (retired old).key_id
    unfolding minted_key new_key generate_key
    ids_differ old h = h

    minted-IsFree :
        (old : ApiKey) (s : Server)
        → IsFree redis laws (hex d.id) s
        → IsFree redis laws (minted_key old).key_id s
    unfolding minted_key new_key generate_key
    minted-IsFree old s h = h

    minted_unlinked : (old : ApiKey) → (minted_key old).rotated_from ≡ ""
    unfolding minted_key new_key
    minted_unlinked old = refl

    retired_revoked :
        (old : ApiKey)
        → is_zero (clock.revoked_at +ℤ overlap) ≡ false
        → find "revoked_at" (to_hash (retired old))
          ≡ some (itoa (unix_milli (clock.revoked_at +ℤ overlap)))
    unfolding unset
    retired_revoked old set = find_revoked (retired old) ∙ rw set refl

    retired_secret :
        (old : ApiKey) → find "secret_hash" (to_hash (retired old)) ≡ some old.secret_hash
    unfolding find to_hash same
    retired_secret old = refl

    -- What a rotation leaves in the store.
    abbrev Rotated : String → ApiKey → ApiKey → Server → Type 0
    Rotated id old fresh s =
        (fresh ≡ linked_key (minted_key old) id)
        × IsStored redis laws fresh s
        × (field (key_path id) "revoked_at" s
            ≡ some (itoa (unix_milli (clock.revoked_at +ℤ overlap))))
        × (field (key_path id) "secret_hash" s ≡ some old.secret_hash)

    IsStored-eq :
        {k j : ApiKey} {s : Server} → k ≡ j → IsStored redis laws j s → IsStored redis laws k s
    IsStored-eq {s = s} e h = subst (λ x. IsStored redis laws x s) (sym e) h

    rotate_from :
        (old : ApiKey) (raw : String) (fresh : ApiKey) (s : Server)
        → hex d.id ≢ old.key_id
        → IsFree redis laws (hex d.id) s
        → is_zero (clock.revoked_at +ℤ overlap) ≡ false
        → (rotate_found redis hash_secret d clock overlap (ok old, s)).0 ≡ ok (raw, fresh)
        → Rotated old.key_id old fresh
            (rotate_found redis hash_secret d clock overlap (ok old, s)).1
    rotate_from old raw fresh s other free set h =
        let e = created old raw fresh s h in
        let (one, two, three, same_key, after) =
          replace_ok old (retired old) (minted_key old) _ raw fresh _ (sym (ap (λ r. r.0) e) ∙ h) in
        let (stored, over_old) =
          three_saves (minted_key old) (retired old) old.key_id s (minted_unlinked old)
            (ids_differ old other) (minted-IsFree old s free) one two three in
        subst (Rotated old.key_id old fresh) (sym (ap (λ r. r.1) e ∙ after)) (
          same_key,
          IsStored-eq same_key stored,
          over_old "revoked_at" _ (retired_revoked old set),
          over_old "secret_hash" _ (retired_secret old),
        )

    on_found : (old : ApiKey) (p : Fallible ApiKey × Server) → p.0 ≡ ok old → p ≡ (ok old, p.1)
    on_found old (r, s) h = ap (λ (x : Fallible ApiKey). (x, s)) h

    -- A rotation of a key that is found, which succeeds, and whose overlap does not end at the zero
    -- instant, mints a new key, whose id is another and was free: then the new key, with the id that
    -- it replaces, stands in the store, and the old key stands there with its secret and is to be
    -- revoked at the end of the overlap, whatever it said of a revocation before.
    pub rotate_lem :
        (id raw : String) (old fresh : ApiKey) (s : Server)
        → (lookup redis n id s).0 ≡ ok old
        → hex d.id ≢ id
        → IsFree redis laws (hex d.id) s
        → is_zero (clock.revoked_at +ℤ overlap) ≡ false
        → (rotate redis hash_secret n d clock id overlap s).0 ≡ ok (raw, fresh)
        → let s' = (rotate redis hash_secret n d clock id overlap s).1 in
          (fresh ≡ record (minted_key old) { rotated_from = id })
          × IsStored redis laws fresh s'
          × (field (key_path id) "revoked_at" s'
              ≡ some (itoa (unix_milli (clock.revoked_at +ℤ overlap))))
          × (field (key_path id) "secret_hash" s' ≡ some old.secret_hash)
    unfolding rotate
    rotate_lem id raw old fresh s found other free set h =
        let (named, keeps) = found_old id old s found in
        let e =
          ap (rotate_found redis hash_secret d clock overlap)
            (on_found old (lookup redis n id s) found) in
        subst (λ i. Rotated i old fresh (rotate redis hash_secret n d clock id overlap s).1) named
          (subst (Rotated old.key_id old fresh) (sym (ap (λ r. r.1) e)) (
            rotate_from old raw fresh (lookup redis n id s).1 (λ q. other (q ∙ named))
              (λ name. keeps _ name ∙ free name) set (sym (ap (λ r. r.0) e) ∙ h)))
