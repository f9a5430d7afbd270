-- ===== src/Cmd/Healthcheck.antt =====
-- The container's health probe: infrastructure/cmd/healthcheck/main.go. What the network answers is a
-- parameter.
use ride_matching_engine.Common.{
  ℕ, ◌≤◌, ◌<◌, ◌≡◌, ◌↔◌, refl, Bool, true, false, ◌||◌, String, Option, none, some, List, [], ◌∷◌,
  if◌then◌else◌, ltb, leb, arith,
}
use ride_matching_engine.Common.Chars.{cut_prefix}

abbrev is_some : Option String → Bool
is_some none = false
is_some (some rest) = true

-- `strings.HasPrefix(target, "http://") || strings.HasPrefix(target, "https://")`.
abbrev pub is_url : String → Bool
is_url target = is_some (cut_prefix "http://" target) || is_some (cut_prefix "https://" target)

-- `probeHTTP`: the status of the answer, or none where the request fails.
unfoldable pub probe_http : Option ℕ → ℕ
probe_http none = 1
probe_http (some status) = if ltb status 200 || leb 300 status then 1 else 0

-- `probeTCP`: whether the dial succeeds.
unfoldable pub probe_tcp : Bool → ℕ
probe_tcp true = 0
probe_tcp false = 1

-- `main`: the exit code for the arguments behind the program's name.
unfoldable pub exit_code : (String → Option ℕ) → (String → Bool) → List String → ℕ
exit_code get dial [] = 2
exit_code get dial (target ∷ more) =
    if is_url target then probe_http (get target) else probe_tcp (dial target)

probe_http_iff :
    (r : Option ℕ)
    → (probe_http r ≡ 0) ↔ ((status : ℕ) × (r ≡ some status) × (200 ≤ status) × (status < 300))
unfolding probe_http
probe_http_iff none = (λ h. absurd (omega arith), λ (status, e, low, high). cc)
probe_http_iff (some status) =
    (λ h. (status, refl, ground arith, ground arith), λ (k, e, low, high). ground (arith, e))
