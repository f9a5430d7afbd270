-- ===== src/Auth/Redis/Records.antt =====
-- What a stored API key reads back as, and what a rotation leaves in the store.
use ride_matching_engine.Common.{
  ◌≡◌, refl, ◌∙◌, Bool, true, false, not, String, Option, none, some, [], ◌∷◌, ◌++◌, same, same→eq,
  if◌then◌else◌, Bool-cases, inl, inr,
}
use ride_matching_engine.Common.Decimal.{itoa}
use ride_matching_engine.Time.{Time, is_zero, unix_milli, from_milli, zero_time}
use ride_matching_engine.Queue.Codec.{Fields, Numerals}
use ride_matching_engine.Auth.{ApiKey}
use ride_matching_engine.Auth.Redis.{find, or_empty, to_hash, instant, of_hash, optional}

-- What `strconv` promises of the numbers of one key: their decimal texts parse to them.
pub record ReadsBack (n : Numerals) (k : ApiKey) : Type 0 where
  pub created_back : n.parse_int (itoa (unix_milli k.created_at)) ≡ some (unix_milli k.created_at)
  pub expires_back : n.parse_int (itoa (unix_milli k.expires_at)) ≡ some (unix_milli k.expires_at)
  pub revoked_back : n.parse_int (itoa (unix_milli k.revoked_at)) ≡ some (unix_milli k.revoked_at)
  pub limit_back : n.atoi (itoa k.rate_limit_per_minute) ≡ k.rate_limit_per_minute

-- An instant as the store keeps it: cut to milliseconds, unless it is not set.
unfoldable pub kept_instant : Time → Time
kept_instant t = if is_zero t then zero_time else from_milli (unix_milli t)

-- A key as the store keeps it.
unfoldable pub kept_key : ApiKey → ApiKey
kept_key k = record k {
  created_at = from_milli (unix_milli k.created_at);
  expires_at = kept_instant k.expires_at;
  revoked_at = kept_instant k.revoked_at;
}

unfoldable pub unset : Bool → String → Option String
unset true v = none
unset false v = some v

find_expires :
    (k : ApiKey)
    → find "expires_at" (to_hash k) ≡ unset (is_zero k.expires_at) (itoa (unix_milli k.expires_at))
unfolding find to_hash same unset
find_expires k = elim (Bool-cases (is_zero k.expires_at)) [
  | inl e ↦ rw e (rest (is_zero k.revoked_at) (same k.rotated_from ""))
  | inr e ↦ rw e refl
]
  where
    rest :
        (b c : Bool)
        → find "expires_at" (
            optional (not b) "revoked_at" (itoa (unix_milli k.revoked_at))
            ++ optional (not c) "rotated_from" k.rotated_from)
          ≡ none
    rest true true = refl
    rest true false = refl
    rest false true = refl
    rest false false = refl

pub find_revoked :
    (k : ApiKey)
    → find "revoked_at" (to_hash k) ≡ unset (is_zero k.revoked_at) (itoa (unix_milli k.revoked_at))
unfolding find to_hash same unset
find_revoked k = go (is_zero k.expires_at) (is_zero k.revoked_at) (same k.rotated_from "")
  where
    go :
        (a b c : Bool)
        → find "revoked_at" (
            optional (not a) "expires_at" (itoa (unix_milli k.expires_at))
            ++ (optional (not b) "revoked_at" (itoa (unix_milli k.revoked_at))
                ++ optional (not c) "rotated_from" k.rotated_from))
          ≡ unset b (itoa (unix_milli k.revoked_at))
    go true true true = refl
    go true true false = refl
    go false true true = refl
    go false true false = refl
    go true false c = refl
    go false false c = refl

find_rotated : (k : ApiKey) → or_empty (find "rotated_from" (to_hash k)) ≡ k.rotated_from
unfolding find to_hash same
find_rotated k = elim (Bool-cases (same k.rotated_from "")) [
  | inl e ↦ rw (e, same→eq _ _ e) (absent (is_zero k.expires_at) (is_zero k.revoked_at))
  | inr e ↦ rw e (present (is_zero k.expires_at) (is_zero k.revoked_at))
]
  where
    fields : (a b : Bool) → Fields → Fields
    fields a b fs =
        optional (not a) "expires_at" (itoa (unix_milli k.expires_at))
        ++ (optional (not b) "revoked_at" (itoa (unix_milli k.revoked_at)) ++ fs)

    absent : (a b : Bool) → or_empty (find "rotated_from" (fields a b [])) ≡ ""
    absent true true = refl
    absent true false = refl
    absent false true = refl
    absent false false = refl

    present :
        (a b : Bool)
        → or_empty (find "rotated_from" (fields a b (("rotated_from", k.rotated_from) ∷ [])))
          ≡ k.rotated_from
    present true true = refl
    present true false = refl
    present false true = refl
    present false false = refl

back_instant :
    (n : Numerals) (t : Time)
    → n.parse_int (itoa (unix_milli t)) ≡ some (unix_milli t)
    → instant n (unset (is_zero t) (itoa (unix_milli t))) ≡ kept_instant t
unfolding unset kept_instant
back_instant n t back = elim (Bool-cases (is_zero t)) [
  | inl e ↦ rw e refl
  | inr e ↦ rw (e, back) refl
]

-- The other fields are always there.
plain_fields :
    (n : Numerals) (k : ApiKey)
    → of_hash n k.key_id (to_hash k) ≡ record {
      key_id = k.key_id;
      tenant_id = k.tenant_id;
      name = k.name;
      secret_hash = k.secret_hash;
      created_at = instant n (some (itoa (unix_milli k.created_at)));
      expires_at = instant n (find "expires_at" (to_hash k));
      revoked_at = instant n (find "revoked_at" (to_hash k));
      rate_limit_per_minute = n.atoi (itoa k.rate_limit_per_minute);
      rotated_from = or_empty (find "rotated_from" (to_hash k));
    }
unfolding of_hash to_hash find same
plain_fields n k = refl

pub of_hash-to_hash :
    (n : Numerals) (k : ApiKey) → ReadsBack n k → of_hash n k.key_id (to_hash k) ≡ kept_key k
unfolding kept_key
of_hash-to_hash n k back =
    plain_fields n k
    ∙ rw
        (
          find_expires k,
          find_revoked k,
          find_rotated k,
          back.created_back,
          back.limit_back,
          back_instant n k.expires_at back.expires_back,
          back_instant n k.revoked_at back.revoked_back,
        )
        refl

-- A record depends on what is found in the hash alone.
pub of_hash_found :
    (n : Numerals) (id : String) (fs gs : Fields)
    → ((name : String) → find name fs ≡ find name gs)
    → of_hash n id fs ≡ of_hash n id gs
unfolding of_hash
of_hash_found n id fs gs h =
    rw
      (
        h "tenant_id",
        h "name",
        h "secret_hash",
        h "created_at",
        h "expires_at",
        h "revoked_at",
        h "rate_limit",
        h "rotated_from",
      )
      refl
