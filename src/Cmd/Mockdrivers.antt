-- ===== src/Cmd/Mockdrivers.antt =====
-- The simulated drivers: `runDriver` of infrastructure/cmd/mockdrivers/main.go, as its counters see
-- it. What the network and the JSON encoder answer is a parameter.
use ride_matching_engine.Common.{
  ℕ, suc, ◌+◌, ◌-◌, ◌≡◌, ◌≤◌, Bool, true, false, Option, none, some, List, [], ◌∷◌, ◌==◌,
  if◌then◌else◌, arith,
}

-- The counters that the drivers share.
pub record Counters : Type 0 where
  pub connected : ℕ
  pub sent : ℕ
  pub failed : ℕ
  pub refused : ℕ

-- One turn of the driver's loop: the ticker, with a ping that is written, or fails to be encoded or
-- written; or the end of the context.
pub data Turn : Type 0 where
  ping_sent ping_failed stopped : Turn

-- The loop behind the connection. A list that ends is a driver that runs on.
unfoldable pub drive : List Turn → Counters → Counters
drive [] c = c
drive (ping_sent ∷ ts) c = drive ts (record c { sent = c.sent + 1 })
drive (ping_failed ∷ ts) c = record c { failed = c.failed + 1 }
drive (stopped ∷ ts) c = c

-- What the dial ends with: a connection, or an error with the status of a response if there was one.
pub data Dial : Type 0 where
  open_conn : Dial
  dial_error : Option ℕ → Dial

abbrev is_503 : Option ℕ → Bool
is_503 none = false
is_503 (some code) = code == 503

-- `runDriver`, from its dial to its return; the Boolean says that the context outlives the first wait.
unfoldable pub run_driver : Dial → Bool → List Turn → Counters → Counters
run_driver (dial_error status) waits ts c =
    if is_503 status
    then record c { refused = c.refused + 1 }
    else record c { failed = c.failed + 1 }
run_driver open_conn waits ts c =
    let up = record c { connected = c.connected + 1 } in
    let done = if waits then drive ts up else up in record done { connected = done.connected - 1 }

-- The pings before the first turn that ends the loop.
abbrev pings : List Turn → ℕ
pings [] = 0
pings (ping_sent ∷ ts) = suc (pings ts)
pings (ping_failed ∷ ts) = 0
pings (stopped ∷ ts) = 0

drive_lem :
    (ts : List Turn) (c : Counters)
    → ((drive ts c).connected ≡ c.connected)
      × ((drive ts c).sent ≡ c.sent + pings ts)
      × ((drive ts c).failed ≤ c.failed + 1)
      × ((drive ts c).refused ≡ c.refused)
unfolding drive
drive_lem [] c = omega arith
drive_lem (ping_sent ∷ ts) c =
    let (a, b, d, e) = drive_lem ts (record c { sent = c.sent + 1 }) in (a, omega arith, d, e)
drive_lem (ping_failed ∷ ts) c = omega arith
drive_lem (stopped ∷ ts) c = omega arith

-- A driver leaves no trace in the count of connected ones, and ends in one failure or refusal at most.
run_driver_lem :
    (d : Dial) (waits : Bool) (ts : List Turn) (c : Counters)
    → let r = run_driver d waits ts c in
      (r.connected ≡ c.connected) × (r.failed + r.refused ≤ c.failed + c.refused + 1)
unfolding run_driver
run_driver_lem (dial_error status) waits ts c = ground arith
run_driver_lem open_conn true ts c =
    omega (arith, drive_lem ts (record c { connected = c.connected + 1 }))
run_driver_lem open_conn false ts c = omega arith
