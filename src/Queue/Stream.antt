-- ===== src/Queue/Stream.antt =====
-- `RedisStream`: the queue on a Redis stream (infrastructure/internal/queue/redis_stream.go). The
-- Redis commands are parameters, each from the server's state to its reply and the next state.
use ride_matching_engine.Common.{
  ℕ, suc, ◌+◌, ◌≡◌, refl, Bool, true, false, ◌||◌, String, ◌<>◌, Option, none, some, List, [], ◌∷◌,
  ◌++◌, map, same, if◌then◌else◌, ltb, leb, arith, pos,
}
use ride_matching_engine.Common.Decimal.{decimal, itoa}
use ride_matching_engine.Errors.{
  Error, Fallible, ok, err, sentinel, wrap, plain, has, text, redis_nil, context_canceled,
  deadline_exceeded, empty_request_id,
}
use ride_matching_engine.Floats.{Floats}
use ride_matching_engine.Time.{Time, Duration, zero_time, unix_milli}
use ride_matching_engine.Queue.{RideRequest, Message, Queue, retried}
use ride_matching_engine.Queue.Codec.{Fields, Entry, Numerals, to_fields, decode}
pub mod Views
pub mod NoLoss
pub mod DeadLetter
pub mod Reclaim
pub mod Gauges

-- XADD with a key and a length cap, XACK, XREADGROUP with a count and a block, the extended XPENDING
-- (ids with their delivery counts), and XCLAIM, each for a consumer group.
pub record Commands : Type 1 where
  pub Server : Type 0
  pub xadd : String → ℕ → Fields → Server → Fallible String × Server
  pub xack : String → String → List String → Server → Option Error × Server
  pub xread_group :
      String → String → String → ℕ → Duration → Server → Fallible (List Entry) × Server
  pub xpending : String → String → Duration → ℕ → Server → Fallible (List (String × ℕ)) × Server
  pub xclaim :
      String → String → String → Duration → List String → Server → Fallible (List Entry) × Server

-- `StreamOptions`, with the instant that `Now` returns.
pub record StreamOptions : Type 0 where
  pub tenant_id : String
  pub group : String
  pub consumer : String
  pub max_len : ℕ
  pub max_deliveries : ℕ
  pub now : Time

pub stream_key : StreamOptions → String
stream_key o = "requests:stream:" <> o.tenant_id

pub dead_key : StreamOptions → String
dead_key o = "requests:dead:" <> o.tenant_id

abbrev at_least_one : ℕ → ℕ
at_least_one max = if leb max 0 then 1 else max

module _ (fl : Floats) (n : Numerals) (redis : Commands) (o : StreamOptions) where
  open fl use {F, format}
  open redis use {Server, xadd, xack, xread_group, xpending, xclaim}

  abbrev wrapped : String → Option Error → Option Error
  wrapped before none = none
  wrapped before (some e) = some (wrap before e "")

  published : Fallible String → Fallible String
  published (ok id) = ok id
  published (err e) = err (wrap "queue: publish: " e "")

  pub publish : RideRequest F → Server → Fallible String × Server
  publish r s =
      let (reply, s') = xadd (stream_key o) o.max_len (to_fields fl o.now r) s in
      if same r.request_id "" then (err (sentinel empty_request_id), s) else (published reply, s')

  pub ack : List String → Server → Option Error × Server
  ack [] s = (none, s)
  ack (i ∷ ids) s =
      let (e, s') = xack (stream_key o) o.group (i ∷ ids) s in (wrapped "queue: ack: " e, s')

  -- `Republish` behind its `Publish`.
  pub ack_original : Message F → Fallible String × Server → Option Error × Server
  ack_original m (err e, s) = (some (wrap "queue: republish: " e ""), s)
  ack_original m (ok id, s) =
      let (e, s') = ack (m.id ∷ []) s in
      if same m.id "" then (none, s) else (wrapped "queue: republish ack: " e, s')

  pub republish : Message F → Server → Option Error × Server
  republish m s = ack_original m (publish (retried m.request) s)

  pub dead_fields : Message F → String → Fields
  dead_fields m why =
      ("original_id", m.id)
      ∷ ("request_id", m.request.request_id)
      ∷ ("tenant_id", m.request.tenant_id)
      ∷ ("rider_id", m.request.rider_id)
      ∷ ("lat", format m.request.lat)
      ∷ ("lng", format m.request.lng)
      ∷ ("deliveries", decimal m.deliveries)
      ∷ ("reason", why)
      ∷ ("dead_at", itoa (unix_milli o.now))
      ∷ []

  -- The commands of a pipeline are all sent; its error is that of the first that failed.
  abbrev first_error : Fallible String → Option Error → Option Error
  first_error (err e) later = some e
  first_error (ok id) later = later

  pub dead_letter : Message F → String → Server → Option Error × Server
  dead_letter m why s =
      let (added, s') = xadd (dead_key o) o.max_len (dead_fields m why) s in
      let (acked, s'') = xack (stream_key o) o.group (m.id ∷ []) s' in
      if same m.id ""
      then (wrapped "queue: dead-letter: " (first_error added none), s')
      else (wrapped "queue: dead-letter: " (first_error added acked), s'')

  -- A message that carries nothing but the broker's id.
  pub bare : String → Message F
  bare i = record {
    id = i;
    request = record {
      request_id = "";
      tenant_id = "";
      rider_id = "";
      lat = fl.literal (pos 0);
      lng = fl.literal (pos 0);
      requested_at = zero_time;
      match_attempts = pos 0;
    };
    deliveries = 0;
  }

  -- The loop of `Consume` over the claimed entries: what does not decode is set aside at once.
  unfoldable pub fresh :
      Entry → Fallible (Message F) → List (Message F) × Server → List (Message F) × Server
  fresh e (ok m) (ms, s) = (ms ++ record m { deliveries = 1 } ∷ [], s)
  fresh e (err f) (ms, s) = (ms, (dead_letter (bare e.id) (text f) s).1)

  unfoldable pub take_fresh : List Entry → List (Message F) × Server → List (Message F) × Server
  take_fresh [] out = out
  take_fresh (e ∷ es) out = take_fresh es (fresh e (decode fl n e) out)

  unfoldable pub consumed : Fallible (List Entry) → Server → Fallible (List (Message F)) × Server
  consumed (ok es) s = let (ms, s') = take_fresh es ([], s) in (ok ms, s')
  consumed (err e) s =
      if has e redis_nil
      then (ok [], s)
      else if has e context_canceled || has e deadline_exceeded
      then (err e, s)
      else (err (wrap "queue: consume: " e ""), s)

  unfoldable pub consume : ℕ → Duration → Server → Fallible (List (Message F)) × Server
  consume max block s =
      let (reply, s') = xread_group (stream_key o) o.group o.consumer (at_least_one max) block s in
      consumed reply s'

  -- `deliveries[id]` of `Reclaim`: the last count that XPENDING reported for the id.
  pub count_of : String → List (String × ℕ) → ℕ → ℕ
  count_of i [] d = d
  count_of i ((j, k) ∷ rest) d = count_of i rest (if same j i then k else d)

  exceeded : String
  exceeded = "exceeded MaxDeliveries (" <> decimal o.max_deliveries <> ")"

  -- The loop of `Reclaim` over the claimed entries. A dead letter that fails ends it.

  abbrev pub Taken : Type 0
  Taken = List (Message F) × Option Error × Server

  set_aside : List (Message F) → Message F → Server → Taken
  set_aside ms m s = let (e, s') = dead_letter m exceeded s in (ms, e, s')

  again : List (String × ℕ) → Entry → Fallible (Message F) → List (Message F) → Server → Taken
  again counts e (err f) ms s = (ms, none, (dead_letter (bare e.id) (text f) s).1)
  again counts e (ok m) ms s =
      let m' = record m { deliveries = count_of e.id counts 0 + 1 } in
      if ltb o.max_deliveries m'.deliveries then set_aside ms m' s else (ms ++ m' ∷ [], none, s)

  -- `return out, err` on an error, and on to the next entry otherwise.
  or_stop : Taken → (List (Message F) → Server → Taken) → Taken
  or_stop (ms, some e, s) next = (ms, some e, s)
  or_stop (ms, none, s) next = next ms s

  pub take_again : List (String × ℕ) → List Entry → List (Message F) → Server → Taken
  take_again counts [] ms s = (ms, none, s)
  take_again counts (e ∷ es) ms s =
      or_stop (again counts e (decode fl n e) ms s) (take_again counts es)

  reclaimed : List (String × ℕ) → Fallible (List Entry) → Server → Taken
  reclaimed counts (ok es) s = take_again counts es [] s
  reclaimed counts (err e) s =
      if has e redis_nil then ([], none, s) else ([], some (wrap "queue: xclaim: " e ""), s)

  claim : Duration → List (String × ℕ) → Server → Taken
  claim min_idle [] s = ([], none, s)
  claim min_idle (p ∷ ps) s =
      let (reply, s') =
        xclaim (stream_key o) o.group o.consumer min_idle (map (λ q. q.0) (p ∷ ps)) s in
      reclaimed (p ∷ ps) reply s'

  scanned : Duration → Fallible (List (String × ℕ)) → Server → Taken
  scanned min_idle (ok ps) s = claim min_idle ps s
  scanned min_idle (err e) s =
      if has e redis_nil then ([], none, s) else ([], some (wrap "queue: xpending: " e ""), s)

  pub reclaim : Duration → ℕ → Server → Taken
  reclaim min_idle max s =
      let (reply, s') = xpending (stream_key o) o.group min_idle (at_least_one max) s in
      scanned min_idle reply s'

  -- The stream as a `Queue`.
  abbrev pub stream_queue : Queue F
  stream_queue = record {
    State = Server;
    publish = publish;
    consume = consume;
    ack = ack;
    reclaim = reclaim;
    republish = republish;
    dead_letter = dead_letter;
  }
