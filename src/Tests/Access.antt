-- ===== src/Tests/Access.antt =====
-- A key store with one key, and the theorems on keys and on the middleware at a concrete request.
use ride_matching_engine.Common.{
  ℕ, ◌+◌, ◌≡◌, refl, String, none, some, [], ◌∷◌, pos, same, same-false, if◌then◌else◌,
}
use ride_matching_engine.Common.Chars.{
  hex, hex_digit, trim_space, trim_right, trim_left, is_space, split,
}
use ride_matching_engine.Common.Int.{leb_ℤ}
use ride_matching_engine.Errors.{Fallible, ok, err, sentinel, key_not_found, plain}
use ride_matching_engine.Time.{zero_time, is_zero}
use ride_matching_engine.Auth.{ApiKey, active, key_parts, generate_key, parse_key, Store, verify}
use ride_matching_engine.Auth.Laws.{parse_key-generate_key, IsGranted, verify_grants_iff}
use ride_matching_engine.Auth.Middleware.{Request, refuse, presented_key, any_same, middleware}
use ride_matching_engine.Auth.Middleware.Laws.{middleware_refuses, IsBad}

parse_key-generate_key_example :
    parse_key (generate_key (λ s. s) (1 ∷ []) (0xab ∷ [])).0 ≡ ok ("01", "ab")
unfolding hex hex_digit
parse_key-generate_key_example =
    parse_key-generate_key (λ s. s) (1 ∷ []) (0xab ∷ []) (λ e. cc) (λ e. cc)

abbrev pub fleet_key : ApiKey
fleet_key = record {
  key_id = "01";
  tenant_id = "fleet";
  name = "dispatcher";
  secret_hash = "ab";
  created_at = pos 0;
  expires_at = zero_time;
  revoked_at = zero_time;
  rate_limit_per_minute = pos 2;
  rotated_from = "";
}

abbrev look : String → ℕ → Fallible ApiKey × ℕ
look id n =
    if same id "01"
    then (ok fleet_key, n)
    else if same id "down"
    then (err (plain "connection refused"), n)
    else (err (sentinel key_not_found), n)

-- Its state is the number of calls so far.
abbrev pub key_store : Store
key_store = record {
  State = ℕ;
  lookup = look;
  allow = λ id limit n. (ok (leb_ℤ (pos (n + 1)) limit, pos 0), n + 1);
}

abbrev pub call_with : String → Request
call_with raw = record {
  path = "/v1/ride-requests";
  headers = λ name. if same name "X-API-Key" then raw else "";
}

-- The key is granted to the first call.
fleet-IsGranted : IsGranted (λ s. s) key_store "rmk_01_ab" (pos 5) 0 fleet_key
unfolding parse_key key_parts split same active is_zero
fleet-IsGranted = record {
  id = "01";
  secret = "ab";
  parsed_as = refl;
  stored = refl;
  secret_known = refl;
  in_force = refl;
  left = pos 0;
  has_room = refl;
}

verify_grants_iff_example :
    ((verify (λ s. s) key_store "rmk_01_ab" (pos 5) 0).1 ≡ none)
    × ((verify (λ s. s) key_store "rmk_01_ab" (pos 5) 0).0 ≡ some fleet_key)
verify_grants_iff_example =
    (verify_grants_iff (λ s. s) key_store "rmk_01_ab" (pos 5) 0 fleet_key).1 fleet-IsGranted

-- A forged secret.
middleware_refuses_example :
    (middleware (λ s. s) key_store ("/healthz" ∷ []) (call_with "rmk_01_cd") (pos 5) 0).0
    ≡ refuse 401 [] "unauthorized" "invalid API key"
unfolding presented_key any_same same trim_space trim_right trim_left is_space parse_key key_parts
    split
middleware_refuses_example =
    (middleware_refuses (λ s. s) key_store ("/healthz" ∷ []) (call_with "rmk_01_cd") (pos 5) 0 refl
        (λ e. same-false "rmk_01_cd" "" refl e)).0
      (IsBad.forged "01" "cd" fleet_key refl refl (λ e. same-false "ab" "cd" refl e))
