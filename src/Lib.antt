-- ===== src/Lib.antt =====
-- A verification library for imposter-go, a mock server: a request is matched against configured
-- resources, and the best match gives the response.
--
-- How the program works. A handler makes an exchange (internal/exchange) for a request and gives it
-- to the pipeline (internal/pipeline). Interceptors come first, those that internal/config/security.go
-- makes of security blocks before the others; one that matches captures data of the request
-- (internal/capture) into a store (internal/store), may answer and may end the pipeline. Then every
-- resource gets a score (internal/matcher), and the best match is checked against its concurrency
-- limits (internal/common/ratelimit.go, internal/ratelimiter), captured, and answered
-- (internal/response). The state that results is written to the client (internal/exchange/state.go),
-- which also runs the cleanup functions that give a place of the rate limiter back.
--
-- Files.
--   Common        shared types and lemmas: int64 arithmetic, maps, lists, Go's string functions
--   External      what is called and not implemented here: packages, the file system, MIME tables
--   Config        internal/config/model.go; Config/Match its Match methods; Config/Security the
--                 transformation of internal/config/security.go, Config/ResourceIds the keys of
--                 internal/config/resource_ids.go, Config/Validate validate.go, Config/Loading config.go
--                 and prefix.go
--   Store         internal/store/inmemory_store.go; Store/Handle internal/store/store.go and
--                 request_store.go, Store/Preload its PreloadStores; the other files
--                 hold proofs
--   RateLimiter   internal/ratelimiter/ratelimiter.go over an interface of counters, which
--                 RateLimiter/InMemory fills with the in-memory store; RateLimiter/Interleaving the
--                 atomic calls of concurrent requests as steps
--   Exchange      internal/exchange; Exchange/Write the writing of a response; Exchange/Context the
--                 exchange with the stores it reaches
--   Matcher       internal/matcher/matcher.go and internal/query/jsonpath.go, by parts
--   Path          pkg/utils/files.go and the functions of path/filepath that it calls
--   Response      internal/response/response.go
--   Capture       internal/capture/capture.go and ExtractPathParams of pkg/utils/http.go
--   Pipeline      internal/pipeline/pipeline.go and internal/common/ratelimit.go
--   Handler       internal/handler: Handler/Entry handler.go, notfound.go and
--                 status.go, Handler/Cors cors.go, Handler/StoreApi store_handler.go
--   Scheduler     internal/scheduler/runner.go; Scheduler/Start scheduler.go
--   WebSocket     plugin/websocket: connection.go and schedule.go; WebSocket/Upgrade handler.go
--   Passthrough   internal/passthrough: copied headers and joined paths; Passthrough/Proxy the rest
--   Oidc          external/plugins/oidc-server: Settings config.go, Configure and Plugin plugin.go,
--                 Authorize auth.go, Pkce pkce.go, Token token.go, Claims users.go, Userinfo
--                 userinfo.go, Logout logout.go; the other files hold proofs
--
-- Conventions. Functions keep the names of the code. Mutated objects are records that a function
-- returns anew; a nil pointer is `none`; a function that may panic returns `none` where it does. Maps
-- are association lists, whose order stands for the order of a loop. Numbers are unbounded but where
-- the code adds int64 values, which wrap around. A mutex makes an operation one function; the calls
-- of concurrent requests are steps of a relation. All functions recurse on their data, so that no
-- fuel is needed.
--
-- The OIDC server gets the time and the fresh random values of a request as a `Moment`, and what it
-- calls (JWT, hashes, JSON, URLs, templates) as `OidcExternal` and `KeyExternal`. The checks of a
-- configuration get the parsers of URLs, durations and cron expressions as `Parsers`.
--
-- Messages and timers of a WebSocket connection are a list of occurrences, each of which runs to its
-- end before the next, although the code lets timers and messages overlap; the frames of an exchange
-- are those that its hooks have put into the queue of the writer, which the code drops where the
-- connection ends or a write fails before they are sent.
--
-- Not modelled: the reading and decoding of configuration files, with their variables and legacy
-- formats, the Redis and DynamoDB providers, and the REST, OpenAPI and SOAP plugins, which
-- HandleRequest takes as functions on exchanges. The pipeline takes the step runner, the template
-- engine, the upstream proxy (which Passthrough/Proxy models) and XPath queries as parameters
-- (External, Pipeline.Engines), as well as regular expressions, JSON, JSONPath and the hash of a
-- matcher. Logging has no effect and is left out.
pub mod Capture
pub mod Common
pub mod Config
pub mod Exchange
pub mod External
pub mod Handler
pub mod Matcher
pub mod Oidc
pub mod Passthrough
pub mod Path
pub mod Pipeline
pub mod RateLimiter
pub mod Response
pub mod Scheduler
pub mod Store
pub mod WebSocket
