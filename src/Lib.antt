-- ===== src/Lib.antt =====
-- The backend of the real-time taxi ETA and dispatch system: a model of its Go code under backend/ and
-- what holds of it.
--
-- A request to create a trip comes to the handlers, which store it in the trip store, let the fleet
-- choose and book a driver, and broadcast an event to the WebSocket clients. A request for a prediction
-- is validated, looked up in the cache in Redis, and else queued for a pool of workers that call the
-- prediction service with retries. A rate limiter and metrics stand around them.
--
--   Models             backend/internal/models/models.go: the records. Times are numbers.
--   Geo                backend/pkg/geo/geo.go: HaversineKm. `Float` is float64 with package math, of
--                      which only an order without NaN, and for one theorem the sign laws, is asked.
--   Dispatch.Driver    backend/internal/dispatch/driver.go: Seed, FindNearestAvailable, SetStatus. The
--                      map is a list in the order in which range may visit it. Fleet proves what the
--                      operations do to the map, Nearest what the search returns.
--   Dispatch.Assign    backend/internal/dispatch/postgres_repository.go: AssignTrip. `Postgres` holds
--                      the statements of the transaction as parameters. Ranking is about the sorted
--                      candidates, Assigning about the whole.
--   Dispatch.Assigner  the interface TripAssigner of backend/internal/dispatch/driver.go with what it
--                      promises of the table of trips, and AssignTrip as one.
--   Dispatch.Persistent
--                      backend/internal/dispatch/postgres_repository.go: SeedIfEmpty,
--                      FindNearestAvailable and SetStatus; Seeding is about SeedIfEmpty.
--   Trips.Memory       backend/internal/repositories/trip_repository.go: MemoryTripRepository. Trips are
--                      objects on a heap, so that the handler's writes through its pointer are seen in
--                      the store. Page, Records and Listing are about its operations.
--   Trips.Postgres     backend/internal/repositories/postgres_trip_repository.go over the statements of
--                      `TripDb`; Table is the abstract table of trips, Refining what relates them; a
--                      TIMESTAMPTZ may round the times that it keeps.
--   Handlers           backend/internal/handlers/handlers.go. CreateTrip is the handler over the two
--                      in-memory stores, Dispatching and Booking what it does; Persistent is its branch
--                      of a TripAssigner, over the PostgreSQL stores; Queries is GetTrip and
--                      ListTrips, Validation validatePredictionRequest, Predict and Predicting the
--                      prediction with its cache and counters. Status has the handlers that report, and
--                      Reporting is about SystemStatus.
--   Workers            backend/internal/workers/pool.go: Pool is the state and the atomic actions of
--                      Submit, runWorker, process and Shutdown, and the relation of their
--                      interleavings; Working, Invariant and Draining are about it.
--   Websocket.Frame    backend/internal/wsserver/websocket.go: readFrame, writeFrame, ReadMessage and
--                      WriteMessage on a connection given by the bytes that are still to come, those
--                      written, and the outcomes of the writes to come. Header and Masking are
--                      about one frame, Reading and Messages about ReadMessage. Handshake is Upgrade and
--                      Close; Session is about Upgrade and the messages behind it.
--   Websocket.Hub      backend/internal/wsserver/hub.go: Register, Broadcast and writePump as a step
--                      relation; Delivery is about one client, Reachable about all states.
--   Redis              backend/internal/cache/redis_client.go: Decimal and Protocol are the bytes of
--                      commands and replies, Commands the connection pool and the commands.
--   Cache              backend/internal/cache/prediction_cache.go: the key, Get and Set.
--   Client             backend/internal/mlclient/client.go: the retry loop of Predict;
--                      Exchange is doOnce and HealthCheck, Retrying and Answering are about Predict.
--   RateLimit          backend/internal/ratelimit/limiter.go: Allow, with the panic of a window of 0.
--   Middleware         backend/internal/middleware/ratelimit.go: RateLimit and clientIP, in front of any
--                      handler. Wrapping is middleware.go and metrics.go beside it: Logging, Recover,
--                      CORS and Metrics on a response writer with its recorders; Responding is what a
--                      handler does to it, Serving is about them together, in the order of
--                      backend/cmd/server/main.go.
--   Metrics            backend/internal/metrics/metrics.go: Histogram has counters, vectors and
--                      histograms, Exposition gauges, the registry and the text format, App the metrics
--                      of backend/internal/metrics/app_metrics.go; Samples and Scraping are about the
--                      text format.
--   Config             backend/internal/config/config.go: Load on an environment.
--   Identifiers        backend/pkg/idgen/idgen.go: NewID; Stamping is about it.
--   Server             backend/cmd/server/main.go: the requests, the worker pool and the shutdown as one
--                      step relation; Invariant and Stopping are about it. Fleet is seedDrivers with the
--                      seeding of the database, Startup the stores that the start opens and closes.
--   Simulator          backend/simulator/cmd/simulator/simulator_main.go: the loading of the rows.
--   LoadTest           backend/tools/loadtest/main.go: what is recorded of the requests, and the
--                      percentiles; Measuring is about it.
--   Common             names of the libraries, lists, integers, bytes and orders that the parts share.
--
-- Go's int is ℤ with an addition that wraps around at 64 bits; words and counters have their modulus
-- written out. A run-time panic is a result `panics`. Errors keep what a caller can tell apart; log
-- lines are left out. A mutex makes what it guards one step. CreateTrip over the in-memory stores takes
-- several such steps, and over PostgreSQL several transactions: what is proved of it is about a request
-- that no other one interleaves with, and about requests that are handled one after the other. Two at one
-- time can book one driver, FindNearestAvailable and SetStatus being two steps. Distances are those of
-- numbers: a NaN, which coordinates that CreateTrip does not check can lead to, is left out. The words of
-- counters are their values below 2^63; the queue of the pool has at least one place; a frame's length
-- from 0 on fits the memory.
--
-- Fuel: ReadMessage loops as often as there are bytes to come, plus one, and each round takes two of
-- them; readReply nests as deep as there are bytes to come, plus one, and each call reads a line. That
-- neither runs out is proved. The retry loop runs its number of retries.
--
-- Not modelled: the SQL texts, JSON, HTTP and TCP themselves, the connections of the stores and the
-- routes of the server, the closing of the Redis pool, the pacing and the sending of the simulator, the
-- payloads and the printing of the load test; the frontend and the prediction service are other
-- languages. What the code takes from them is an argument of the definitions that use it.
pub mod Common
pub mod Websocket
pub mod Geo
pub mod Dispatch
pub mod Models
pub mod Trips
pub mod Handlers
pub mod Workers
pub mod Metrics
pub mod Middleware
pub mod Client
pub mod Redis
pub mod Cache
pub mod Config
pub mod Identifiers
pub mod LoadTest
pub mod Simulator
pub mod Server
pub mod RateLimit
