-- ===== src/Auth/Redis/Saves.antt =====
-- The writes of one save of an API key, and what is looked up after it.
use ride_matching_engine.Common.{
  ◌≡◌, ◌≢◌, refl, ap, ◌∙◌, not, String, <>_cancel, Option, none, some, [], ◌∷◌, ◌++◌, same,
  Bool-cases, inl, inr,
}
use ride_matching_engine.Common.Decimal.{itoa}
use ride_matching_engine.Errors.{Error, ok}
use ride_matching_engine.Time.{is_zero, unix_milli}
use ride_matching_engine.Queue.Codec.{Fields, Numerals}
use ride_matching_engine.Auth.{ApiKey}
use ride_matching_engine.Auth.Redis.{
  Commands, key_path, find, to_hash, of_hash, save, looked_up, lookup, optional, first_error, saved,
}
use ride_matching_engine.Auth.Redis.Views.{over, HashLaws}
use ride_matching_engine.Auth.Redis.Records.{ReadsBack, kept_key, of_hash-to_hash, of_hash_found}

-- With more fields at the end, at least as much is found.
find_more :
    (name : String) (xs ys zs : Fields)
    → over (find name ys) (find name zs) ≡ find name ys
    → over (find name (xs ++ ys)) (find name (xs ++ zs)) ≡ find name (xs ++ ys)
unfolding find
find_more name [] ys zs h = h
find_more name ((j, v) ∷ xs) ys zs h = elim (Bool-cases (same j name)) [
  | inl e ↦ rw e refl
  | inr e ↦ rw e (find_more name xs ys zs h)
]

over-none : (o : Option String) → over o none ≡ o
over-none none = refl
over-none (some v) = refl

pub over-some : (o p : Option String) (v : String) → o ≡ some v → over o p ≡ some v
over-some o p v h = rw h refl

pub over_nothing : (name : String) (ys : Fields) → over (find name ys) (find name []) ≡ find name ys
unfolding find
over_nothing name ys = over-none _

-- The hash of a key that is told what it was rotated from.
pub to_hash_linked :
    (k : ApiKey) (id name : String)
    → k.rotated_from ≡ ""
    → over (find name (to_hash (record k { rotated_from = id }))) (find name (to_hash k))
      ≡ find name (to_hash (record k { rotated_from = id }))
unfolding to_hash same
to_hash_linked k id name e = rw e (
    find_more name
      (("tenant_id", k.tenant_id)
        ∷ ("name", k.name)
        ∷ ("secret_hash", k.secret_hash)
        ∷ ("created_at", itoa (unix_milli k.created_at))
        ∷ ("rate_limit", itoa k.rate_limit_per_minute)
        ∷ [])
      _ _
      (find_more name
        (optional (not (is_zero k.expires_at)) "expires_at" (itoa (unix_milli k.expires_at))) _ _
        (find_more name
          (optional (not (is_zero k.revoked_at)) "revoked_at" (itoa (unix_milli k.revoked_at))) _ _
          (over_nothing name _))))

key_path_ne : (i j : String) → i ≢ j → key_path i ≢ key_path j
unfolding key_path
key_path_ne i j h e = h (<>_cancel "apikey:" i j e)

module _ (redis : Commands) (laws : HashLaws redis) where
  open redis use {Server, hgetall, hset, sadd}
  open laws use {field}

  -- The hash of a key stands in the store.
  abbrev pub IsStored : ApiKey → Server → Type 0
  IsStored k s = (name : String) → field (key_path k.key_id) name s ≡ find name (to_hash k)

  -- No hash stands under the id.
  abbrev pub IsFree : String → Server → Type 0
  IsFree id s = (name : String) → field (key_path id) name s ≡ none

  saved-none : (e f : Option Error) → saved (first_error e f) ≡ none → e ≡ none
  saved-none none f h = refl
  saved-none (some e) f h = cc

  pub save_own :
      (k : ApiKey) (s : Server) (name : String)
      → (save redis k s).0 ≡ none
      → field (key_path k.key_id) name (save redis k s).1
        ≡ over (find name (to_hash k)) (field (key_path k.key_id) name s)
  unfolding save
  save_own k s name h = laws.sadd_keeps _ _ _ _ _ ∙ laws.hset_own _ _ _ _ (saved-none _ _ h)

  pub save_other :
      (k : ApiKey) (s : Server) (id name : String)
      → id ≢ k.key_id
      → field (key_path id) name (save redis k s).1 ≡ field (key_path id) name s
  unfolding save
  save_other k s id name h =
      laws.sadd_keeps _ _ _ _ _ ∙ laws.hset_other _ _ _ _ _ (key_path_ne _ _ h)

  pub save-IsStored :
      (k : ApiKey) (s : Server)
      → (save redis k s).0 ≡ none
      → IsFree k.key_id s
      → IsStored k (save redis k s).1
  save-IsStored k s h free name =
      save_own k s name h ∙ ap (over (find name (to_hash k))) (free name) ∙ over-none _

  looked_up_some :
      (n : Numerals) (id : String) (fs : Fields) (v : String)
      → find "tenant_id" fs ≡ some v
      → looked_up n id (ok fs) ≡ ok (of_hash n id fs)
  unfolding looked_up find
  looked_up_some n id [] v h = cc
  looked_up_some n id (f ∷ fs) v h = refl

  tenant_found : (k : ApiKey) → find "tenant_id" (to_hash k) ≡ some k.tenant_id
  unfolding find to_hash same
  tenant_found k = refl

  -- A stored key is looked up as it was, with its instants cut to milliseconds.
  lookup-IsStored :
      (n : Numerals) (k : ApiKey) (s : Server) (fs : Fields)
      → ReadsBack n k
      → IsStored k s
      → (hgetall (key_path k.key_id) s).0 ≡ ok fs
      → (lookup redis n k.key_id s).0 ≡ ok (kept_key k)
  unfolding lookup
  lookup-IsStored n k s fs back stored reply =
      ap (looked_up n k.key_id) reply
      ∙ looked_up_some n k.key_id fs k.tenant_id (shown "tenant_id" ∙ tenant_found k)
      ∙ ap ok (of_hash_found n k.key_id fs (to_hash k) shown ∙ of_hash-to_hash n k back)
    where
      shown : (name : String) → find name fs ≡ find name (to_hash k)
      shown name = laws.hgetall_shows _ s fs name reply ∙ stored name

  -- A key saved under a free id, and whose numbers `strconv` reads back, is looked up as it was
  -- whenever HGETALL replies, but for its instants: they are cut to milliseconds.
  pub lookup-save :
      (n : Numerals) (k : ApiKey) (s : Server) (fs : Fields)
      → ReadsBack n k
      → IsFree k.key_id s
      → (save redis k s).0 ≡ none
      → (hgetall (key_path k.key_id) (save redis k s).1).0 ≡ ok fs
      → (lookup redis n k.key_id (save redis k s).1).0 ≡ ok (kept_key k)
  lookup-save n k s fs back free h reply =
      lookup-IsStored n k (save redis k s).1 fs back (save-IsStored k s h free) reply
