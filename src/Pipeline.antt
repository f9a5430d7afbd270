-- ===== src/Pipeline.antt =====
-- The ingest pipeline, which coalesces driver pings in a bounded buffer and flushes it to the tenants'
-- stores: infrastructure/internal/pipeline/pipeline.go. The stores are parameters.
pub mod Laws
pub mod Tenants
use ride_matching_engine.Common.{
  ℕ, ◌+◌, ◌*◌, Bool, true, false, ◌&&◌, not, String, ◌<>◌, Option, none, some, List, [], ◌∷◌, ◌++◌,
  map, ℤ, pos, same, if◌then◌else◌, length,
}
use ride_matching_engine.Common.Int.{leb_ℤ, ltb_ℤ}
use ride_matching_engine.Errors.{Error, Fallible, ok, err, plain}
use ride_matching_engine.Floats.{Floats}
use ride_matching_engine.Time.{Time, Duration}
use ride_matching_engine.Locations.{DriverLocation}

pub record Config : Type 0 where
  pub window : Duration
  pub max_buffered_drivers : ℤ
  pub flush_timeout : Duration

abbrev positive_or : ℤ → ℤ → ℤ
positive_or x d = if leb_ℤ x (pos 0) then d else x

unfoldable pub apply_defaults : Config → Config
apply_defaults c = record {
  window = positive_or c.window (pos 3000000000);
  max_buffered_drivers = positive_or c.max_buffered_drivers (pos 100000);
  flush_timeout = positive_or c.flush_timeout (pos 2000000000);
}

-- `New`; `show` is the text of a duration. A missing store has no counterpart.
pub new : (Duration → String) → Config → Fallible Config
new show c =
    let d = apply_defaults c in
    if ltb_ℤ d.window d.flush_timeout
    then err (
        plain (
          "pipeline: FlushTimeout ("
          <> show d.flush_timeout
          <> ") must not exceed Window ("
          <> show d.window
          <> ")"))
    else ok d

-- `ingest.Ping`, but for the client's clock, which the pipeline does not read.
pub record Ping (F : Type 0) : Type 0 where
  pub tenant_id : String
  pub driver_id : String
  pub lat : F
  pub lng : F

abbrev pub Buffer : Type 0 → Type 0
Buffer F = List (String × DriverLocation F)

pub record Pipeline (F : Type 0) : Type 0 where
  pub buffer : Buffer F
  pub pings : ℕ
  pub shed : ℕ
  pub flushed : ℕ
  pub windows : ℕ
  pub flush_failures : ℕ

pub record WindowStats : Type 0 where
  pub window : ℕ
  pub pings_accepted : ℕ
  pub pings_shed : ℕ
  pub drivers_flushed : ℕ
  pub flush_duration : Duration
  pub flush_error : Option Error

-- `bufKey`.
unfoldable pub buf_key : String → String → String
buf_key tenant driver = tenant <> ("\0" <> driver)

unfoldable pub look_up : {F : Type 0} → String → Buffer F → Option (DriverLocation F)
look_up k [] = none
look_up k ((j, l) ∷ b) = if same j k then some l else look_up k b

unfoldable pub put : {F : Type 0} → String → DriverLocation F → Buffer F → Buffer F
put k l [] = (k, l) ∷ []
put k l ((j, m) ∷ b) = let rest = put k l b in if same j k then (j, l) ∷ b else (j, m) ∷ rest

abbrev pub is_some : {A : Type 0} → Option A → Bool
is_some none = false
is_some (some a) = true

-- One group of `byTenant`: a tenant and its locations.
abbrev pub Groups : Type 0 → Type 0
Groups F = List (String × List (DriverLocation F))

-- `byTenant[l.TenantID] = append(byTenant[l.TenantID], l)`.
unfoldable pub add_to : {F : Type 0} → DriverLocation F → Groups F → Groups F
add_to l [] = (l.tenant_id, l ∷ []) ∷ []
add_to l ((t, ls) ∷ gs) =
    let rest = add_to l gs in if same t l.tenant_id then (t, ls ++ l ∷ []) ∷ gs else (t, ls) ∷ rest

unfoldable pub add_all : {F : Type 0} → List (DriverLocation F) → Groups F → Groups F
add_all [] gs = gs
add_all (l ∷ ls) gs = add_all ls (add_to l gs)

pub by_tenant : {F : Type 0} → List (DriverLocation F) → Groups F
by_tenant batch = add_all batch []

-- The stores of all tenants: `storeFor(tenant).UpsertMany`, or the single store's.
pub record Stores (F : Type 0) : Type 1 where
  pub State : Type 0
  pub upsert_many : String → List (DriverLocation F) → State → Option Error × State

-- What a flush meets: the orders in which Go ranges over the two maps, and how long the writes took.
pub record Outside (F : Type 0) : Type 0 where
  pub range_buffer : List (DriverLocation F) → List (DriverLocation F)
  pub range_groups : Groups F → Groups F
  pub took : Duration

-- `Stats`, and the snapshot of the method of that name.
pub record Stats : Type 0 where
  pub total_pings : ℕ
  pub total_shed : ℕ
  pub total_flushed : ℕ
  pub total_windows : ℕ
  pub flush_failures : ℕ
  pub buffered : ℕ

pub snapshot : {F : Type 0} → Pipeline F → Stats
snapshot s = record {
  total_pings = s.pings;
  total_shed = s.shed;
  total_flushed = s.flushed;
  total_windows = s.windows;
  flush_failures = s.flush_failures;
  buffered = length s.buffer;
}

module _ (fl : Floats) where
  open fl use {F, literal}

  unfoldable pub location : Time → Ping F → DriverLocation F
  location now p = record {
    tenant_id = p.tenant_id;
    driver_id = p.driver_id;
    lat = p.lat;
    lng = p.lng;
    distance_meters = literal (pos 0);
    last_seen = now;
  }

  -- `Accept`, at the instant that the server's clock shows.
  unfoldable pub accept : Config → Time → Ping F → Pipeline F → Pipeline F
  accept c now p s =
      let k = buf_key p.tenant_id p.driver_id in
      if not (is_some (look_up k s.buffer)) && leb_ℤ c.max_buffered_drivers (pos (length s.buffer))
      then record s { shed = s.shed + 1 }
      else record s { buffer = put k (location now p) s.buffer; pings = s.pings + 1 }

module _ {F : Type 0} (stores : Stores F) where
  open stores use {State, upsert_many}

  abbrev keep_last : Option Error → Option Error → Option Error
  keep_last e none = e
  keep_last e (some f) = some f

  -- The loop over the tenants: an error is kept, and the loop goes on.
  pub write_all : Groups F → Option Error → State → Option Error × State
  write_all [] e w = (e, w)
  write_all ((t, ls) ∷ gs) e w = let (f, w') = upsert_many t ls w in write_all gs (keep_last e f) w'

  abbrev pub Flushed : Type 0
  Flushed = WindowStats × Pipeline F × State

  finished : WindowStats → ℕ → Pipeline F → Duration → Option Error × State → Flushed
  finished st n s took (some e, w) = (
    record st { flush_duration = took; flush_error = some e },
    record s { flush_failures = s.flush_failures + 1 },
    w,
  )
  finished st n s took (none, w) =
      (record st { flush_duration = took }, record s { flushed = s.flushed + n }, w)

  write_batch : Outside F → WindowStats → Buffer F → Pipeline F → State → Flushed
  write_batch o st [] s w = (st, s, w)
  write_batch o st (b ∷ bs) s w =
      finished st (length (b ∷ bs)) s o.took
        (write_all (o.range_groups (by_tenant (o.range_buffer (map (λ x. x.1) (b ∷ bs))))) none w)

  -- `flush`: the buffer is swapped for an empty one before anything is written.
  pub flush : Outside F → Pipeline F → State → Flushed
  flush o s w =
      let swapped = record s { buffer = []; windows = s.windows + 1 } in
      write_batch o
        (record {
          window = s.windows + 1;
          pings_accepted = s.pings;
          pings_shed = s.shed;
          drivers_flushed = length s.buffer;
          flush_duration = pos 0;
          flush_error = none;
        })
        s.buffer swapped w

-- The events that the pipeline's mutex puts in an order: a ping taken at an instant, and a flush.
pub data Event (F : Type 0) : Type 0 where
  pinged : Time → Ping F → Event F
  flush_due : Outside F → Event F

module _ (fl : Floats) (stores : Stores fl.F) (c : Config) where
  open stores use {State}

  unfoldable pub handle : Event fl.F → Pipeline fl.F × State → Pipeline fl.F × State
  handle (pinged now p) (s, w) = (accept fl c now p s, w)
  handle (flush_due o) (s, w) = let (st, s', w') = flush stores o s w in (s', w')

  unfoldable pub run : List (Event fl.F) → Pipeline fl.F × State → Pipeline fl.F × State
  run [] s = s
  run (e ∷ es) s = run es (handle e s)
