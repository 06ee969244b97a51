-- ===== src/Lib.antt =====
-- Verification of rust-proxy, the proxy server of this repository (rust-proxy/src).
--
-- A listener hands each request to `get_destination` (proxy/proxy_trait.rs), which locks the
-- configuration, lets every route of the port's service match and rewrite the path, takes the best
-- match, runs the checks of its middlewares, and asks its router for a target. Before the request
-- is forwarded (proxy/http1/http_proxy.rs), the middlewares change its headers; after the answer
-- they record its outcome and change the response. The admin API changes the configuration under
-- the same lock, and the health checks mark the targets. The files and what they model:
--
-- - Prelude and its children: shared helpers. ℤ is Rust's signed integer with the casts of `i32`;
--   Assoc is a HashMap in its order of iteration; Outcome is a value, an AppError or a panic.
-- - External: the crates http, regex, ipnet, url, flate2 and zstd and the numbers f64, as records
--   of operations with the documented laws that proofs use. External/Samples has values of these
--   records. Serde: the values between serde's readers and writers.
-- - Errors: vojo/app_error.rs. Response and Upstream: hyper's messages and the servers that answer.
-- - Denial: CheckResult and Denial of middleware/middlewares.rs.
-- - Breaker: middleware/circuit_breaker.rs. Step has the calls as events, Invariant what every run
--   keeps, Traces when the breaker opens and closes.
-- - RateLimit: middleware/rate_limit.rs, with Scope for the requests that count and the windows,
--   TokenBucket and FixedWindow for the two limiters.
-- - Router: vojo/router.rs, with Base for targets, Poll for the round-robin and the random router,
--   Weight for the weighted one and HeaderRule for the one by headers. HeaderRule/Saving is how
--   a rule of the latter is written to the configuration and read from it; RouterForm is how a
--   static route and a whole router are read.
-- - Matcher: vojo/matcher.rs. Route: a route of vojo/app_config.rs. Config: the configuration.
-- - AllowDeny, Authentication, Headers: the files allow_deny_ip.rs, authentication.rs,
--   forward_header.rs and request_headers.rs of middleware. Cors, StaticHeaders, Compression: the
--   files cors_config.rs, headers.rs and compression.rs there, which change responses.
-- - Middleware: the dispatch of middleware/middlewares.rs and the passes over a route's list.
--   Limiters and breakers that routes share are cells of a store, each with its poisoning.
--   Middleware/Responses is the pass over a response.
-- - Destination: `get_destination`. ControlPlane: control_plane/rest_api.rs.
-- - Proxy: proxy/http1/http_proxy.rs, from the destination of a request to its answer, with Adapter
--   for a whole request of a port. The call that goes to an upstream server, over HTTP or of
--   gRPC, is part of the result.
--   Websocket: proxy/http1/websocket_proxy.rs. TcpProxy: proxy/tcp/tcp_proxy.rs.
-- - Grpc: proxy/http2/grpc_proxy.rs, a gRPC request from its destination to the frames of its answer,
--   with Grpc/Streams for the copy of a body. Grpc/Clients: proxy/http1/grpc_client.rs and
--   app_clients.rs, which fill in the gRPC clients that Upstream asks for.
-- - Config/Saving: how the services of a configuration are written and read, where the writer and
--   the reader of one service, which serde derives, are parameters. Duration:
--   utils/duration_urils.rs. OpenApi: command/openapi_converter.rs.
-- - Certificates: control_plane/cert_loader.rs, the tests of control_plane/certificate_manager.rs
--   and vojo/sni_cert_resolver.rs. Startup: which listener a service starts, in
--   configuration_service/app_config_service.rs.
-- - HealthCheck: health_check/health_check_task.rs, the answers of a round of checks, with
--   Requests for a whole round; Tasks is the map of the tasks, brought in line with the configuration.
--
-- A call that changes its receiver returns the new state beside its outcome. Readings of the clock
-- are arguments, in nanoseconds, one for each place where the code reads it. Random numbers, the
-- first key of a map's iteration, paths joined by std and the text of a poisoned lock are arguments.
-- Each connection of TCP has random numbers of its own.
-- Arithmetic wraps at its width, as in the release profile of rust-proxy/Cargo.toml, which also
-- unwinds panics. All loops are structural recursion on lists; the decimal digits of a `u64` are
-- printed with fuel 20, which is the most that it has.
--
-- Not modelled: connections, TLS, the issue of certificates, files, logs and metrics, which are
-- calls of libraries; what serde derives; the loops of the HTTP and gRPC listeners; the timers of
-- health checks; the readers of most settings; the files and prints of the command line.
pub mod Prelude
pub mod External
pub mod Breaker
pub mod Denial
pub mod Errors
pub mod HealthCheck
pub mod RateLimit
pub mod Router
pub mod Matcher
pub mod AllowDeny
pub mod Authentication
pub mod Grpc
pub mod Headers
pub mod Response
pub mod Cors
pub mod Startup
pub mod StaticHeaders
pub mod Serde
pub mod Upstream
pub mod Websocket
pub mod Duration
pub mod OpenApi
pub mod Proxy
pub mod TcpProxy
pub mod RouterForm
pub mod Certificates
pub mod Compression
pub mod Middleware
pub mod Route
pub mod Config
pub mod Destination
pub mod ControlPlane
