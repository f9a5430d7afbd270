-- ===== src/Lib.antt =====
-- The dispatch core of the ride-matching engine's Go infrastructure: from a rider's request in the
-- durable queue, through the gathering of a batch, to its solving and settling; and the leases that
-- keep two batchers from assigning one driver twice. Beside it, the pipeline that takes drivers'
-- positions in, and the services that put these parts together.
--
-- Parts and files:
--   Queue           infrastructure/internal/queue/queue.go. The interface is a record of operations
--                   from a state to a result and the next state; what its documentation promises is
--                   the record Promises.
--   Queue.Codec     the layout of a stream entry: Publish and decode of queue/redis_stream.go.
--   Queue.Stream    RedisStream of queue/redis_stream.go: Publish, Republish, Consume, Reclaim, Ack
--                   and DeadLetter; Queue.Stream.Gauges has NewRedisStream, ensureGroup and the
--                   lengths Depth, Pending and DeadLetterDepth. The Redis commands are the
--                   parameter Commands; StreamLaws in Queue.Stream.Views says what is relied on of
--                   them.
--   Batcher         infrastructure/internal/batcher/batcher.go. Batcher.Config has the defaults and
--                   the checks of New; Batcher.Wait medianWait; Batcher.Batch and Batcher.Settle
--                   processBatch, one function per stage, each passing the World on; Batcher.Loop
--                   Run, as a step for each turn of its select, and the reclaimer's tick;
--                   Batcher.Export the id and the MatchRate of a batch, and its updates of the
--                   metrics.
--   Engine          infrastructure/internal/engine/errors.go and client.go: the taxonomy of failures
--                   and the calls, over the gRPC stub as a parameter; Engine.Connection has Dial.
--   Locks           infrastructure/internal/locks/lease.go: the leases, over SET NX, GET, DEL,
--                   PEXPIRE and EVAL as parameters; KeyLaws in Locks.Views says what is relied on.
--                   Locks.Partitions has the leases on a partition of the map, Locks.Geohash the
--                   choice of a partition: Geohash, PartitionFor and SpreadScore, over the
--                   halving of floats as a parameter.
--   Pipeline        infrastructure/internal/pipeline/pipeline.go: the bounded buffer of driver pings
--                   (Accept) and its flush to the tenants' stores, which are the parameter Stores; an
--                   order of pings and flushes is a list of Event.
--   Locations       the types of infrastructure/internal/locations/repository.go, and the Redis store
--                   of locations/redis.go: Locations.Retry withRetry, Locations.Redis.Searches
--                   Nearby and NearbyMany, Locations.Redis.Writes UpsertMany, RemoveDriver, Reap and
--                   Count, Locations.Redis.Reaper StartReaper. The GEO and sorted-set commands are
--                   the parameter Commands; Answers in Locations.Redis.Same and Scores in
--                   Locations.Redis.Fresh say what is relied on of them.
--   Auth            API keys, infrastructure/internal/auth: apikey.go (GenerateKey, ParseKey, Verify),
--                   Auth.Middleware middleware.go, Auth.Redis redis_store.go over the parameter
--                   Commands, with the laws that are relied on in Auth.Redis.Views. SHA-256 is a
--                   parameter. AuthSetup has Open of infrastructure/internal/authsetup.
--   Api             the HTTP API, infrastructure/internal/api: ids, decoding errors and validation in
--                   Api, the handlers and their composition with the middleware in Api.Handlers, the
--                   answer to a panic in Api.Recovery. The JSON decoder and the router of net/http
--                   are parameters.
--   Ingest          the WebSocket server, infrastructure/internal/ingest/server.go. Ingest.Server has
--                   the handlers and the connections' goroutines as routines that advance by one
--                   atomic operation in any order, with the calls of Shutdown between them;
--                   Ingest.Server.Stamped has the orders in which handshakes are genuine, and
--                   Ingest.Server.OnPipeline the pipeline as the sink. Ingest.Pumps has the frames
--                   of writePump and the deadline of readPump.
--   Metrics, AdminServer   infrastructure/internal/metrics/metrics.go and adminserver/server.go: the
--                   promises on latency, labels, buckets, and the routes of the admin port.
--   Cmd             the commands, infrastructure/cmd: Cmd.Requestd from the flags to the handler,
--                   Cmd.Batcherd the warm-up and the start of a batcher, Cmd.Ingestd the pipeline
--                   from its start to the end of the process and the printing of counters,
--                   Cmd.Keyadmin, Cmd.Healthcheck, Cmd.Mockdrivers a driver's connection, and
--                   Cmd.Loadtest the statistics of the load test and, in Cmd.Loadtest.Sweep, its
--                   sweep, analysis and tables. Cmd.Batcherd.Wiring is the start of batcherd
--                   from the set-up of its queue, and Cmd.Pages the lines of the /stats pages.
--   Errors, Time, Floats, Common   Go's error values, time, floats (parameters), and shared helpers.
--   Tests           concrete servers and the theorems at concrete inputs.
--
-- How they interact: the batcher takes the queue through the record Queue, and its theorems take
-- Promises as a parameter; Queue.Stream.DeadLetter fills both for the Redis stream, and
-- Batcher.Settle.OnStream puts the two together, and Batcher.Settle.OnLocations the batcher and the
-- Redis location store. The HTTP API and the WebSocket server take keys through the record Store of
-- Auth; the API publishes through Queue, and Ingest.Server.OnPipeline gives the WebSocket server the
-- Pipeline for its sink. Cmd.Requestd composes the set-up of the queue,
-- AuthSetup and the API; Cmd.Batcherd the engine's answers and the checks of Batcher.Config;
-- Cmd.Ingestd has the events of the Pipeline in the order in which its shutdown makes them.
--
-- Bounds: numbers are unbounded but for the conversion to int32 that the source writes out;
-- counters, lengths and delivery counts are natural numbers. Every loop is structural recursion
-- over the list that it ranges over, or, in withRetry, over the retries that are left. Three
-- functions are on fuel: decimal printing, which is given n + 1 and uses a digit for each tenfold of
-- n; the scan of a geohash, which is given the five turns that each character takes; and the warm-up
-- of the batcher, for which 24 is enough, since it sleeps two seconds behind each probe and its
-- deadline is after 45. The buffer of itoa has its 20 cells, and a write outside of it is a result of its own.
--
-- A Redis server's state is passed on from command to command. The laws of the stream
-- let a length cap trim entries, and let a write that fails be refused, or be carried out with its
-- reply lost, or be lost with its connection, and with it the ack that was sent behind it. The laws of keys are those of a server on which no key expires while
-- commands run; an expiry is a change of the server between two operations.
--
-- Not modelled: logging, the Prometheus registry, connection set-up and the client of redisconn, the
-- retries inside the Redis client; the sockets of a WebSocket; signals and listeners of the
-- commands, random positions and the prose of reports: all of it is input and output around what is
-- modelled. The helpers of tests under testutil and the tests of
-- tenancy serve no request. The C++ engine is another program, whose answer is a parameter.

pub mod Common
pub mod Errors
pub mod Engine
pub mod Time
pub mod Locations
pub mod Queue
pub mod Floats
pub mod Batcher
pub mod AuthSetup
pub mod Metrics
pub mod AdminServer
pub mod Cmd
pub mod Locks
pub mod Auth
pub mod Api
pub mod Ingest
pub mod Pipeline
pub mod Tests
