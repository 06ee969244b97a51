-- ===== src/Grpc/Tests.antt =====
-- A gRPC request that is sent on, and its answer.
use silverwind.Prelude.{
  ℕ, ◌/◌, String, ◌≡◌, refl, false, Option, none, some, List, [], ◌∷◌, map, leb, All, ℤ, pos, ok,
  string_eq, ◌⧺◌, strip_prefix, starts_with, decimal, contains_str,
}
use silverwind.External.{Float}
use silverwind.External.Samples.{
  plain_http, plain_codecs, plain_uris, plain_urls, prefix_regex, plain_nets,
}
use silverwind.Authentication.{Crypto}
use silverwind.Matcher.{MatcherRule, PathMatchType, matches}
use silverwind.Router.Base.{BaseRoute, to_destination, at, alive_indices, has_unconfigured}
use silverwind.Router.Poll
use silverwind.Router.{Router, get_route}
use silverwind.RateLimit.{token_bucket}
use silverwind.RateLimit.Scope.{LimitLocation, TimeUnit}
use silverwind.Breaker.{closed}
use silverwind.Middleware
use silverwind.Middleware.{Store, Reading, Cell}
use silverwind.Route.{RouteConfig, match_and_rewrite}
use silverwind.Config.{ServiceType, AppConfig, ApiService, int_eq}
use silverwind.Prelude.Assoc.{lookup}
use silverwind.Destination.{HandlingResult, matched, Shared, find_best, match_len, get_destination}
use silverwind.Grpc.{Call, Trip, Network, is_grpc_status_ok, Inbound, request_outbound}
use silverwind.Grpc.Streams.{RecvStream, SendStream, copy_io}
use silverwind.Grpc.Sent.{IsAsked, request_outbound-sent}
use silverwind.Grpc.Answered.{IsAnswer, request_outbound-responded}
use silverwind.Grpc.Streams.Frames.{IsOpen, copy_io-IsOpen}

abbrev no_crypto : Crypto
no_crypto = record { encode = λ s. s; decodes = λ auth token. false }

abbrev no_key : List (String × ℤ) → Option String
no_key m = none

abbrev whole : Float
whole = record { F64 = ℕ; of_u64 = λ n. n; divide = λ a b. a / b; ge = λ a b. leb b a }

abbrev store : Store whole
store = record {
  limiters = λ r. record {
    value = token_bucket (record {
      rate_per_unit = pos 1;
      unit = TimeUnit.second;
      capacity = pos 2;
      scope = LimitLocation.ip "10.0.0.1";
      current_count = pos 0;
      last_update_time = 0;
    });
    poisoned = false;
  };
  breakers = λ r. record {
    value = record {
      failure_rate_threshold = 1;
      consecutive_failure_threshold = 2;
      open_duration = 100;
      half_open_max_requests = 3;
      min_requests_for_rate_calculation = 10;
      state = closed 0 0 0;
    };
    poisoned = false;
  };
}

abbrev accepting : SendStream plain_http plain_codecs
accepting = record { send = λ sent frame. ok tt; release_capacity = λ sent n. ok tt }

abbrev bare : String → Option String
bare k = none

abbrev one_chunk : RecvStream plain_http plain_codecs
one_chunk = record { chunks = map ok ((1 ∷ []) ∷ []); trailers = ok none }

copy_io-IsOpen_example :
    All (IsOpen plain_http plain_codecs) (copy_io plain_http plain_codecs accepting one_chunk).0
copy_io-IsOpen_example = copy_io-IsOpen plain_http plain_codecs accepting one_chunk λ header e. cc

abbrev network : Network plain_http plain_codecs plain_uris
network = record {
  Addr = String;
  Stream = String;
  ServerName = String;
  SendRequest = String;
  to_socket_addrs = λ s. ok (s ∷ []);
  connect = λ a. ok a;
  server_name = λ s. ok s;
  tls_connect = λ name s. ok s;
  handshake = λ s. ok s;
  ready = λ s. ok s;
  send_request = λ s call. ok accepting;
  response = λ call frames. ok (record { status = 200; headers = bare }, one_chunk);
  send_response = λ head ends. ok accepting;
}

abbrev backend : BaseRoute
backend = record { endpoint = "http://backend:80"; is_alive = none }

abbrev route : Router → RouteConfig prefix_regex
route router = record {
  route_id = "api";
  matchers = MatcherRule.path "/" PathMatchType.prefix none ∷ [];
  path_rewrite = none;
  transcode = some (record { proto_descriptor_set = "greeter.pb" });
  liveness_config = none;
  health_check = none;
  router = router;
  middlewares = none;
  timeout = some 5000;
}

abbrev service : List (RouteConfig prefix_regex) → ApiService prefix_regex
service routes = record {
  listen_port = pos 80;
  server_type = ServiceType.http2;
  domain_config = [];
  route_configs = routes;
}

abbrev config : List (RouteConfig prefix_regex) → Cell (AppConfig prefix_regex)
config routes = record {
  value = record {
    upstream_timeout_secs = some (pos 5000);
    api_service_config = (pos 80, service routes) ∷ [];
  };
  poisoned = false;
}

abbrev shared : Shared prefix_regex whole
shared = record {
  shared_data = config (route (Router.random (record { routes = backend ∷ [] })) ∷ []);
  store = store;
}

abbrev inbound : Inbound plain_http plain_codecs
inbound = record {
  ip = "10.0.0.1";
  method = "POST";
  path_and_query = some "/Greeter/Hello";
  headers = bare;
  body = one_chunk;
}

abbrev now : ℕ → Reading
now i = record { clock = record { first = 5; second = 5; third = 5 }; instant = 5 }

abbrev call : Call plain_http plain_uris String
call = record {
  https = false;
  addr = "backend:80";
  method = "POST";
  uri = "http://backend:80/Greeter/Hello";
  headers =
      plain_http.append (plain_http.append bare "content-type" "application/grpc") "te" "trailers";
}

sends :
    (request_outbound plain_http plain_codecs plain_uris plain_urls network "" prefix_regex
      no_crypto plain_nets whole no_key "poisoned"
      (λ n. 0)
      (λ a b. a ⧺ b)
      now
      (pos 80)
      inbound
      shared).1.sent
    ≡ some call
unfolding request_outbound get_destination find_best match_and_rewrite match_len matches starts_with
    strip_prefix lookup Middleware.is_allowed get_route Poll.random at alive_indices
    has_unconfigured to_destination contains_str decimal copy_io
sends = refl

request_outbound-sent_example :
    (h : HandlingResult) × ((get_destination plain_http prefix_regex no_crypto plain_nets whole
        no_key "poisoned"
        (λ n. 0)
        (λ a b. a ⧺ b)
        now
        (some "/Greeter/Hello")
        "POST"
        "10.0.0.1"
        bare
        (pos 80)
        shared).1
      ≡ ok (matched h))
    × IsAsked plain_http plain_codecs plain_uris plain_urls network "" h call
request_outbound-sent_example =
    request_outbound-sent plain_http plain_codecs plain_uris plain_urls network "" prefix_regex
      no_crypto plain_nets whole no_key "poisoned" (λ n. 0) (λ a b. a ⧺ b) now (pos 80) inbound
      shared call sends

abbrev trip : Trip plain_http plain_codecs plain_uris String
trip =
    (request_outbound plain_http plain_codecs plain_uris plain_urls network "" prefix_regex
      no_crypto plain_nets whole no_key "poisoned" (λ n. 0) (λ a b. a ⧺ b) now (pos 80) inbound
      shared).1

-- The head goes without the mark, since it has no `grpc-status`.
responds : trip.responded ≡ some (record { status = 200; headers = bare }, false)
unfolding request_outbound get_destination find_best match_and_rewrite match_len matches starts_with
    strip_prefix lookup Middleware.is_allowed get_route Poll.random at alive_indices
    has_unconfigured to_destination contains_str decimal copy_io is_grpc_status_ok
responds = refl

request_outbound-responded_example :
    IsAnswer plain_http plain_codecs plain_uris plain_urls network "" trip
      (record { status = 200; headers = bare })
      false
request_outbound-responded_example =
    request_outbound-responded plain_http plain_codecs plain_uris plain_urls network "" prefix_regex
      no_crypto plain_nets whole no_key "poisoned" (λ n. 0) (λ a b. a ⧺ b) now (pos 80) inbound
      shared (record { status = 200; headers = bare }) false responds
