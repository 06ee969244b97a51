-- ===== src/Proxy/Tests.antt =====
-- A request that goes to an upstream server, with an answer and without one.
use silverwind.Prelude.{
  ℕ, ◌/◌, String, ◌≡◌, refl, false, Option, none, some, List, [], ◌∷◌, leb, ℤ, pos, Outcome, ok,
  err, string_eq, ◌⧺◌, strip_prefix, starts_with, contains_str,
}
use silverwind.External.{Float}
use silverwind.External.Samples.{plain_http, plain_codecs, plain_uris, prefix_regex, plain_nets}
use silverwind.Authentication.{Crypto}
use silverwind.Matcher.{MatcherRule, PathMatchType, matches}
use silverwind.Router.Base.{
  BaseRoute, RouterDestination, to_destination, at, alive_indices, has_unconfigured,
}
use silverwind.Router.Poll
use silverwind.Router.Poll.{RandomRoute}
use silverwind.Router.{Router, get_route}
use silverwind.RateLimit.{Ratelimit, token_bucket}
use silverwind.RateLimit.Scope.{LimitLocation, TimeUnit}
use silverwind.Breaker.{CircuitBreaker, closed, is_call_allowed}
use silverwind.Middleware
use silverwind.Middleware.{
  MiddleWares, circuit_breaker, Store, Reading, check_request, check_all, record_all,
}
use silverwind.Route.{RouteConfig, match_and_rewrite}
use silverwind.Config.{ServiceType}
use silverwind.Prelude.Assoc.{lookup}
use silverwind.Destination.{HandlingResult, matched, Shared, find_best, match_len, get_destination}
use silverwind.Upstream.{Request, Sent, to_server, Servers, contains_key}
use silverwind.Proxy.{
  after_destination, is_preflight, is_websocket, upstream_request, upstream_call, cors_configed,
  finish, route_request,
}
use silverwind.Proxy.Adapter.{Clocks, proxy, with_shared}
use silverwind.Proxy.Sent.{IsAsked}
use silverwind.Proxy.Requests.{proxy-sent}

abbrev no_crypto : Crypto
no_crypto = record { encode = λ s. s; decodes = λ auth token. false }

abbrev no_key : List (String × ℤ) → Option String
no_key m = none

abbrev whole : Float
whole = record { F64 = ℕ; of_u64 = λ n. n; divide = λ a b. a / b; ge = λ a b. leb b a }

abbrev breaker : CircuitBreaker whole
breaker = record {
  failure_rate_threshold = 1;
  consecutive_failure_threshold = 2;
  open_duration = 100;
  half_open_max_requests = 3;
  min_requests_for_rate_calculation = 10;
  state = closed 0 0 0;
}

abbrev bucket : Ratelimit
bucket = token_bucket (record {
  rate_per_unit = pos 1;
  unit = TimeUnit.second;
  capacity = pos 2;
  scope = LimitLocation.ip "10.0.0.1";
  current_count = pos 0;
  last_update_time = 0;
})

abbrev store : Store whole
store = record {
  limiters = λ r. record { value = bucket; poisoned = false };
  breakers = λ r. record { value = breaker; poisoned = false };
}

abbrev backend : BaseRoute
backend = record { endpoint = "http://backend"; is_alive = none }

abbrev bare : String → Option String
bare k = none

abbrev req : Request plain_http plain_codecs plain_uris
req = record { method = "GET"; uri = "/a"; headers = bare; body = ok (1 ∷ []) }

-- The servers answer nothing in time.
abbrev silent : Servers plain_http plain_codecs plain_uris
silent = record {
  answer = λ call. none;
  serve_file = λ root r. err "no such file";
  GrpcClient = String;
  grpc = none;
  do_request = λ c s m b. err "unavailable";
}

abbrev hr : HandlingResult
hr = record {
  request_path = "http://backend/a";
  router_destination = RouterDestination.http backend;
  timeout = 5000;
  middlewares = some (circuit_breaker 3 ∷ []);
}

abbrev date : ℕ → ℕ → Outcome String
date a b = ok ""

abbrev sent_request : Request plain_http plain_codecs plain_uris
sent_request = record {
  method = "GET";
  uri = "http://backend/a";
  headers = plain_http.insert bare "host" "backend";
  body = ok (1 ∷ []);
}

prepared :
    upstream_request plain_http plain_codecs plain_uris prefix_regex whole silent "" date "10.0.0.1"
      hr req
    ≡ ok sent_request
unfolding upstream_request Middleware.handle_all Middleware.handle_request
prepared = refl

abbrev route : RouteConfig prefix_regex
route = record {
  route_id = "api";
  matchers = MatcherRule.path "/" PathMatchType.prefix none ∷ [];
  path_rewrite = none;
  transcode = none;
  liveness_config = none;
  health_check = none;
  router = Router.random (record { routes = backend ∷ [] });
  middlewares = some (circuit_breaker 3 ∷ []);
  timeout = some 6000;
}

abbrev shared : Shared prefix_regex whole
shared = record {
  shared_data = record {
    value = record {
      upstream_timeout_secs = some (pos 5000);
      api_service_config =
          (
            pos 80,
            record {
              listen_port = pos 80;
              server_type = ServiceType.http;
              domain_config = [];
              route_configs = route ∷ [];
            },
          )
          ∷ [];
    };
    poisoned = false;
  };
  store = store;
}

abbrev clocks : Clocks
clocks = record {
  checks = λ i. record { clock = record { first = 5; second = 5; third = 5 }; instant = 5 };
  outcomes = λ i. i;
  responses = λ i j. j;
}

abbrev call : Sent plain_http plain_codecs plain_uris
call = to_server (record { https = false; timeout = 6000; request = sent_request })

sends :
    (proxy plain_http plain_codecs plain_uris prefix_regex whole no_crypto plain_nets no_key
      "poisoned"
      (λ n. 0)
      (λ a b. a ⧺ b)
      silent
      ""
      date
      clocks
      "10.0.0.1"
      (pos 80)
      req
      shared).exchange.sent
    ≡ some call
unfolding proxy with_shared after_destination get_destination find_best match_and_rewrite match_len
    matches starts_with strip_prefix lookup Middleware.is_allowed check_all check_request
    Middleware.breaker_check is_call_allowed get_route Poll.random at alive_indices has_unconfigured
    Middleware.locked to_destination is_preflight is_websocket contains_key cors_configed
    upstream_request upstream_call route_request finish contains_str Middleware.handle_all
    Middleware.handle_request
sends = refl

proxy-sent_example :
    (h : HandlingResult) × ((get_destination plain_http prefix_regex no_crypto plain_nets whole
        no_key "poisoned"
        (λ n. 0)
        (λ a b. a ⧺ b)
        clocks.checks
        (some "/a")
        "GET"
        "10.0.0.1"
        bare
        (pos 80)
        shared).1
      ≡ ok (matched h))
    × IsAsked plain_http plain_codecs plain_uris req h call
proxy-sent_example =
    proxy-sent plain_http plain_codecs plain_uris prefix_regex whole no_crypto plain_nets no_key
      "poisoned" (λ n. 0) (λ a b. a ⧺ b) silent "" date clocks "10.0.0.1" (pos 80) req shared call
      sends
