-- ===== src/Lib.antt =====
-- webhook-event-router: an HTTP service that receives signed webhook events, stores them, matches
-- them against rules and forwards them to targets, with retries and a dead-letter state.
--
-- The parts, and the file that models each:
--  - Prelude: lists, texts (a Go string is the list of its bytes), integers, Boolean tests.
--  - Domain: internal/domain/domain.go, the structs and statuses. `Value` is what encoding/json and
--    the code put into an `any`.
--  - Errs: internal/errs/errs.go.
--  - Runtime: the functions of Go's standard library that the engine and the checks call, as a record.
--  - Engine: internal/engine. Engine/Path is path.go (ParsePath, Lookup, step, wildcard), with the
--    relation between a path and the values that it reaches in Path/Reach; Engine/Expression is
--    expression.go (Eval and its operators), with the meaning of a condition in Expression/Leaf and
--    Expression/Meaning; Engine/Match is engine.go (Match, resolveTargets, MatchRules,
--    SelectTargets).
--  - Webhook: internal/webhook (Sign, Verify, ValidatePayload, ValidateEventType, ValidateTimestamp).
--  - Strconv: the decimal integers and Booleans of strconv, as the path parser, the handlers and the
--    settings read them.
--  - Config: internal/config/config.go, the record of settings; Config/Load is `Load`.
--  - Store: internal/store/store.go, the interface to the database, over any type of states:
--    Store has the operations of the traffic (events and deliveries), Store/Resources those of the
--    configuration and the queries. Store/Kept says what it is for them to keep a property.
--  - Sqlite: internal/store/sqlite. Tables is the schema of db.go; Events, Deliveries, Sources,
--    Targets, Rules, Rules/Writes and Audit are the statements of the stores; Tx is `tx` with the
--    pool of connections that a transaction and its reads share. Instance and Configured fill the
--    two records. Invariant has the constraints on the rows of the traffic, Intact those on the
--    configuration and the references to it. Readback and Pages are about what the reads return,
--    Settled about the rows that a turn of the worker leaves alone, Budget about the tries that are
--    left, Sound about the columns of a delivery that fit together.
--    Rows has the rows of deliveries as texts, their statements and scans, and their relation to the
--    structs. Open is `Open` and `migrate` of db.go, on the file.
--  - Dispatcher: internal/dispatcher. Allow is allow.go, Backoff is backoff.go, World is what a
--    dispatcher acts on, Send is Deliver, send, markFailed and Requeue, Worker is Retry.
--    Send/Kept is about the writes of the store that these make, Operated about whole operations.
--  - Metrics: internal/metrics/metrics.go.
--  - Httpapi/Events: handleCreateEvent of internal/httpapi/events.go. `admit` is the handler up to the
--    check of the timestamp, `deduplicate` the lookup of an earlier event, `store_event` CreateEvent,
--    `route_event` the rest; `visit_targets` and `visit_matches` are its loops.
--  - Httpapi/Resources: sources.go, targets.go and rules.go. For each kind `check_new_…` is the handler
--    of a POST up to the call of the store, and `check_…_change` that of a PUT.
--  - Httpapi/Queries: handleGetEvent, deliveries.go, audit.go, retry.go and metrics.go.
--  - Httpapi/Api: the routes of server.go; `serve` answers one call. Api/Status has the status line of
--    each answer (respondJSON, respondErr), Api/Failed is about the calls that are answered by an error.
--  - Httpapi/History: the service as a step relation: calls of `serve` and turns of Retry, one after
--    the other.
--  - Process: cmd/server/main.go. `start` is main up to its goroutines, `advance` what a call, a tick, the
--    signal and the end of Shutdown do to the process, `lives` one process after the other on the same
--    database file. Process/Once follows an event through them.
--  - Tests: runs on small inputs.
--
-- How the parts interact: the handler calls the checks of Webhook, the engine, the store and the
-- dispatcher; the dispatcher calls the store and the network. Both take the store as a record of
-- operations on a state that is passed on, and the rest of the world as an `Env`: the clock as a
-- function of the number of readings made so far, the random numbers, the reply of the network to a
-- request. A `World` has the state of the database, that number and the requests that were handed to
-- `http.Client` so far, in order; those that the client makes by itself to follow a redirect are not
-- among them. What the statements of the SQLite stores get from outside is in `Conn` and `Host`: the
-- texts of times and of JSON, the readings of the clock after the first, and the error with which the
-- reading of the rules ends, if it does. Other reads fail only where a row is missing. A theorem on every store, environment and world thus holds for each behaviour of database,
-- clock and network, failures included.
--
-- Bounds: identifiers, counts, sizes and times (nanoseconds since the zero time) are natural numbers.
-- The wait of the backoff, the durations of the settings and the offset of a page wrap as an int64.
-- No recursion runs on fuel but `settle` and `turns`, whose number of turns is an argument: the theorem
-- on `settle` bounds it, and that on `turns` is about every number.
--
-- Identifiers in a path may be negative, those in a body are natural numbers: SQLite gives out no
-- others, so a negative one refers to no row.
--
-- A process ends after any of its steps, so a kill is the end of its list of happenings. The SQLite of
-- the driver is taken to run a schema as a whole or not at all.
--
-- Not modelled: the matching of paths by net/http, the writing of responses as JSON, the time
-- limits of requests, and the conversion of rows from and to text but for those of deliveries. Each
-- call of the interface and each turn of the worker is one step: requests that run at the same time
-- are not interleaved, and no process is killed inside of one. `Load` accepts a negative
-- RETRY_BASE_MS, with which the code panics at the first failed delivery; the model's Config has no
-- such base, and `base_allowed` excludes it.
pub mod Prelude
pub mod Domain
pub mod Errs
pub mod Strconv
pub mod Runtime
pub mod Engine
pub mod Webhook
pub mod Config
pub mod Store
pub mod Dispatcher
pub mod Metrics
pub mod Sqlite
pub mod Httpapi
pub mod Process
pub mod Tests
