-- ===== src/Lib.antt =====
-- RouteForge is a gateway that accepts chat completions and passes each one on to the providers of
-- language models, in an order that a routing policy chooses, with fallback to the next provider.
-- For each attempt the service asks the circuit breaker for admission, measures the attempt, records
-- its outcome with the circuit and the telemetry, and its usage with the accounting.
--
-- The files, and the code that they model:
--   Base               shared: tests on numbers, lists, integers, strings as bytes, maps, sorting
--   Outcome            internal/gateway/outcome.go, internal/provider/provider.go and http.go: errors,
--                      `classifyProviderOutcome`, `eligibleForFallback`, `HTTPStatusError`
--   Circuit            internal/gateway/circuit.go: `begin`, `eligible`, `success`, `failure`, `ignore`
--                      of one provider; Circuit/Tracker the map of providers; Circuit/System any
--                      interleaving of requests on one provider, as a sequence of operations
--   Telemetry          internal/gateway/telemetry.go: counters and samples; Telemetry/Rings the rings
--   Accounting         internal/accounting/pricing.go: `EstimateMicroUSD`; Accounting/Price
--                      `ParseUSDPerMillion`; Accounting/Tracker internal/accounting/tracker.go
--   Routing            internal/gateway/routing.go: Routing/Dominance and Routing/PriceOrder
--                      `orderByPriceDominance`, Routing/Latency the policies that read latencies,
--                      Routing/Switching what the latency policy decides, Routing/Policy their
--                      construction and `order`
--   Runtime            internal/gateway/runtime_routing.go: the settings an operator may change
--   History            internal/gateway/persistence.go: the record of a request and its attempts
--   Service            internal/gateway/service.go, internal/openai/types.go and
--                      internal/model/resolver.go: requests, the state, validation, `Resolve`,
--                      `candidatePrices`; Service/Attempt `orderedProviders` and one
--                      attempt; Service/Complete `Complete`; Service/Stream `Stream`;
--                      Service/Refusals which requests `Complete` refuses
--   Sse                internal/provider/sse.go: from the bytes of a stream to its events
--   Adapters           internal/provider/http.go `ReadResponse`; Adapters/Anthropic and
--                      Adapters/AnthropicStream internal/provider/anthropic/anthropic.go,
--                      Adapters/Openai internal/provider/openai/openai.go: `Complete`, `Stream`, `Next`
--   Recorder           internal/persistence/recorder.go: the queue of records and its worker
--   Auth               internal/adminapi/auth.go: sessions and login; Auth/Handler the handler in front
--                      of the administration
--   Operations         internal/gateway/operations.go: the snapshot for the operators
--   HttpErrors         internal/httpapi/errors.go: the answer to an error
--   HttpStream         internal/httpapi/handler.go: `streamChatCompletions`
--   Cache              internal/cache/cache.go: `Encode` and `Decode`; internal/gateway/cache.go
--   Configuration      internal/config/config.go and admin_auth.go: Configuration/Stages what `Load`
--                      reads, Configuration/Checks its checks, Configuration/Load `Load`
--   Startup            cmd/routeforge/main.go `buildService`, internal/provider/registry.go;
--                      Service/Construct the constructors of internal/gateway/service.go
--   Storage            internal/persistence/postgres/store.go and reader.go: the batch of a record, the
--                      statement of a list, the migrations; Storage/Constraints what
--                      internal/persistence/postgres/migrations/0001_initial.sql demands of a row
--   Benchmark          internal/benchmark: Benchmark/Fixture, Benchmark/Decode and Benchmark/Scenario the
--                      scenarios, Benchmark/Player the simulated streams, Benchmark/Metrics and
--                      Benchmark/Summary what is counted
--   Load               internal/loadtest: Load/Phase the workers of `phase` in any interleaving,
--                      Load/Report the bounds, the counts of `Run` and `difference`
--   Tests              the theorems at concrete inputs
--
-- How the code is modelled. A mutex makes an operation atomic, so a concurrent history is a sequence
-- of operations, and the clock's reading is an argument of each. Times are nanoseconds since Go's zero
-- time, and durations are integers; neither is cut off at the range of an int64, 292 years. A counter
-- of type uint64 wraps around (`% 2 ^ 64`) or saturates where the code says so. A Go string is the
-- list of its bytes, and `strings.TrimSpace` trims ASCII spaces. A map is an association list, a
-- pointer to a number is an option, and `sort.Slice` is an insertion sort. The loops are structural on
-- a list, except that the loop of `orderByPriceDominance` runs for as many rounds as there are
-- candidates, since each round selects one, and the padding of a price's fraction runs for at most
-- six. A text in the history is cut off by its bytes, which are its characters if it is ASCII.
--
-- The service asks the outside for the time, whether the request is done, a provider's reply and a
-- cached response. `World` holds these as functions of the number of questions asked so far, so that
-- the answers may change from one question to the next.
--
-- A stream of events is all of its bytes, with whether an error breaks it off; the lines are those
-- that `bufio.ScanLines` gives. The loop of `Next` of an adapter runs on fuel, one round for each
-- event, and more rounds than there are lines left are enough. JSON, base64, SHA-256, the media
-- types and the HTTP client are parameters, in the records `Wire`, `Codes`, `Client` and `Json` and as
-- decoders. The recorder is a sequence of steps of its callers and its worker, and a login is two
-- steps, so that both interleave.
--
-- The configuration reads the environment and the parsers of durations, URLs and addresses
-- through `Host`. A duration that has been found positive is passed on as a number. The
-- migrations talk to PostgreSQL through `Postgres`, whose sessions say which statements fail, and
-- `IsTransactional` is what its transactions promise. The gateway makes no negative durations or
-- counts of a record, so they are natural numbers. Submitting a record is one step with its
-- report to the observer. The reading of a simulated stream runs for four rounds, more than it
-- has steps.
--
-- Not modelled: traces and metrics; the HTTP servers and clients, the idle watchdog of a stream, the
-- connections to PostgreSQL and Redis and OpenTelemetry, which are I/O and calls of libraries; the other
-- endpoints of the administration; the requests of the load tool; of the benchmark the loop around the
-- gateway, and the rates in floating point; the start of the listeners and the flags of the commands.
pub mod Base
pub mod Outcome
pub mod Circuit
pub mod Telemetry
pub mod Accounting
pub mod Routing
pub mod Runtime
pub mod History
pub mod Service
pub mod Operations
pub mod HttpErrors
pub mod HttpStream
pub mod Cache
pub mod Sse
pub mod Recorder
pub mod Auth
pub mod Adapters
pub mod Tests
pub mod Configuration
pub mod Startup
pub mod Benchmark
pub mod Storage
pub mod Load
