-- ===== src/Tests/KeyRecords.antt =====
-- API keys in memory, and the theorems on their store at concrete keys.
use ride_matching_engine.Common.{
  ℕ, suc, ◌≡◌, ◌≢◌, inl, inr, refl, ◌∙◌, ap, ◌+◌, ◌≤◌, String, none, some, List, [], ◌∷◌, ◌++◌, pos,
  ◌<>◌, same, same_self, same-false, ne→same, if◌then◌else◌, Bool-cases, arith,
}
use ride_matching_engine.Common.Chars.{split, hex, hex_digit}
use ride_matching_engine.Common.Decimal.{itoa}
use ride_matching_engine.Common.Int.{◌+ℤ◌, ◌-ℤ◌}
use ride_matching_engine.Errors.{ok}
use ride_matching_engine.Time.{is_zero, unix_milli, from_milli}
use ride_matching_engine.Queue.Codec.{Fields}
use ride_matching_engine.Auth.{generate_key, parse_key, key_parts, verify}
use ride_matching_engine.Auth.Redis.{
  revoke, redis_store, Commands, Draws, Clock, find, save, lookup, rotate, rate_key, key_path,
  tenant_path, looked_up, to_hash, of_hash, create, new_key,
}
use ride_matching_engine.Auth.Redis.Views.{over, HashLaws, CountLaws}
use ride_matching_engine.Auth.Redis.Limits.{Call, let_through, unanswered, let_through_limited}
use ride_matching_engine.Auth.Redis.Records.{ReadsBack, kept_key}
use ride_matching_engine.Auth.Redis.Saves.{lookup-save}
use ride_matching_engine.Auth.Redis.Rotation.{rotate_lem}
use ride_matching_engine.Auth.Redis.Revocation.{revoke_refuses}
use ride_matching_engine.Tests.Access.{fleet_key}
use ride_matching_engine.Tests.Numbers.{numerals, number}

-- The hashes, and the numbers.
abbrev Memory : Type 0
Memory = (String → Fields) × (String → ℕ)

abbrev changed : {A : Type 0} → String → A → (String → A) → String → A
changed k v s = λ j. if same j k then v else s j

abbrev pub memory : Commands
memory = record {
  Server = Memory;
  hgetall = λ k s. (ok (s.0 k), s);
  hset = λ k fs s. (none, (changed k (fs ++ s.0 k) s.0, s.1));
  sadd = λ k v s. (none, s);
  exists = λ k s. (ok 1, s);
  incr = λ k s. (suc (s.1 k), (s.0, changed k (suc (s.1 k)) s.1));
  expire = λ k ttl s. s;
  smembers = λ k s. (ok [], s);
  eval = λ f s. (ok (f s).0, (f s).1);
}

find-append :
    (name : String) (fs gs : Fields) → find name (fs ++ gs) ≡ over (find name fs) (find name gs)
unfolding find
find-append name [] gs = refl
find-append name ((j, v) ∷ fs) gs = elim (Bool-cases (same j name)) [
  | inl e ↦ rw e refl
  | inr e ↦ rw e (find-append name fs gs)
]

changed_own : {A : Type 0} (k : String) (v : A) (s : String → A) → changed k v s k ≡ v
changed_own k v s = rw (same_self k) refl

changed_other :
    {A : Type 0} (k : String) (v : A) (s : String → A) (j : String) → j ≢ k → changed k v s j ≡ s j
changed_other k v s j h = rw (ne→same j k h) refl

memory-HashLaws : HashLaws memory
memory-HashLaws = record {
  field = λ k name s. find name (s.0 k);
  hgetall_shows = λ k s fs name h. ap (find name) (ground (arith, h));
  hgetall_keeps = λ k s j name. refl;
  hset_own = λ k fs s name h.
      ap (find name) (changed_own k (fs ++ s.0 k) s.0) ∙ find-append name fs (s.0 k);
  hset_other = λ k fs s j name h. ap (find name) (changed_other k (fs ++ s.0 k) s.0 j h);
  sadd_keeps = λ k v s j name. refl;
  exists_keeps = λ k s j name. refl;
}

memory-CountLaws : CountLaws memory
memory-CountLaws = record {
  count = λ k s. s.1 k;
  incr_reply = λ k s. refl;
  incr_own = λ k s. changed_own k (suc (s.1 k)) s.1;
  incr_other = λ k s j h. changed_other k (suc (s.1 k)) s.1 j h;
  expire_keeps = λ k ttl s j h. refl;
  eval_done = λ f s n h. (ground (arith, h), refl);
  eval_once = λ f s. inr refl;
}

abbrev nothing : Memory
nothing = (λ k. [], λ k. 0)

-- Three calls of one key in one minute, under a limit of 2, with one of another key between them.
abbrev calls : List Call
calls =
    record { now = pos 0; key_id = "01"; limit = pos 2 }
    ∷ record { now = pos 1; key_id = "02"; limit = pos 9 }
    ∷ record { now = pos 2; key_id = "01"; limit = pos 2 }
    ∷ record { now = pos 3; key_id = "01"; limit = pos 2 }
    ∷ []

let_through_limited_example :
    let_through memory (rate_key (pos 0) "01") 2 calls nothing
    ≤ 2 + unanswered memory (rate_key (pos 0) "01") 2 calls nothing
let_through_limited_example =
    let_through_limited memory memory-CountLaws (pos 0) "01" 2 calls nothing

fleet_key-ReadsBack : ReadsBack numerals fleet_key
unfolding number itoa unix_milli same
fleet_key-ReadsBack = record {
  created_back = refl;
  expires_back = refl;
  revoked_back = refl;
  limit_back = refl;
}

lookup-save_example :
    (lookup memory numerals "01" (save memory fleet_key nothing).1).0 ≡ ok (kept_key fleet_key)
unfolding save memory-HashLaws find
lookup-save_example =
    lookup-save memory memory-HashLaws numerals fleet_key nothing _ fleet_key-ReadsBack
      (λ name. refl) refl refl

abbrev draws : Draws
draws = record { id = 2 ∷ []; secret = 3 ∷ [] }

abbrev clock : Clock
clock = record { looked_at = pos 0; created_at = pos 1000000; revoked_at = pos 2000000 }

abbrev with_fleet : Memory
with_fleet = (save memory fleet_key nothing).1

rotate_lem_example :
    find "revoked_at"
      ((rotate memory (λ s. s) numerals draws clock "01" (pos 60000000) with_fleet).1.0 "apikey:01")
    ≡ some "62"
unfolding save memory-HashLaws lookup looked_up same key_path ◌<>◌ to_hash of_hash find number itoa
    is_zero unix_milli from_milli hex hex_digit rotate create new_key generate_key tenant_path ◌+ℤ◌
    ◌-ℤ◌
rotate_lem_example =
    (rotate_lem memory memory-HashLaws (λ s. s) numerals draws clock (pos 60000000) "01" "rmk_02_03"
      fleet_key _ with_fleet refl (λ e. same-false "02" "01" refl e) (λ name. refl) refl refl).2

revoke_refuses_example :
    (verify
      (λ s. s)
      (redis_store memory numerals (pos 8000000))
      "rmk_01_ab"
      (pos 8000000)
      (revoke memory "01" (pos 7000000) with_fleet).1).1
    ≢ none
unfolding revoke parse_key key_parts split same number itoa is_zero unix_milli from_milli
revoke_refuses_example =
    revoke_refuses memory memory-HashLaws (λ s. s) numerals "01" "ab" "rmk_01_ab" (pos 7000000)
      (pos 8000000) with_fleet (revoke memory "01" (pos 7000000) with_fleet).1 refl refl refl refl
      refl refl
