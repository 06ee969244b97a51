-- ===== src/Destination/Tests.antt =====
-- A service with two routes, and a shared state whose limiter panics.
use silverwind.Prelude.{
  ℕ, ◌/◌, String, ◌≡◌, refl, false, Option, none, some, List, [], ◌∷◌, leb, ℤ, pos, panic,
  string_eq, ◌⧺◌, strip_prefix, starts_with,
}
use silverwind.External.{Float}
use silverwind.External.Samples.{plain_http, prefix_regex, plain_nets}
use silverwind.Authentication.{Crypto}
use silverwind.Matcher.{MatcherRule, PathMatchType, matches}
use silverwind.Router.{Router}
use silverwind.RateLimit.{Ratelimit, token_bucket}
use silverwind.RateLimit
use silverwind.RateLimit.Scope.{LimitLocation, TimeUnit, matched, get_million_second}
use silverwind.RateLimit.TokenBucket
use silverwind.RateLimit.TokenBucket.{tokens_to_add}
use silverwind.Breaker.{CircuitBreaker, closed}
use silverwind.Middleware.{MiddleWares, rate_limit, Store, Reading, Cell, check_request, check_all}
use silverwind.Middleware
use silverwind.Route.{RouteConfig, match_and_rewrite}
use silverwind.Config.{ServiceType}
use silverwind.Prelude.Assoc.{lookup}
use silverwind.Destination.{Shared, find_best, match_len, get_destination}
use silverwind.Destination.Best.{Selected, find_best-Selected}
use silverwind.Destination.Panics.{Incoming, serve}

abbrev bare : String → Option String
bare k = none

abbrev route : String → String → Option (List MiddleWares) → RouteConfig prefix_regex
route id prefix middlewares = record {
  route_id = id;
  matchers = MatcherRule.path prefix PathMatchType.prefix none ∷ [];
  path_rewrite = none;
  transcode = none;
  liveness_config = none;
  health_check = none;
  router = Router.static_file (record { doc_root = "/srv" });
  middlewares = middlewares;
  timeout = none;
}

abbrev routes : List (RouteConfig prefix_regex)
routes = route "all" "/" none ∷ route "api" "/api" (some (rate_limit 0 ∷ [])) ∷ []

find_best-Selected_example :
    Selected plain_http prefix_regex "/api/x" "GET" bare 0 none routes
      (find_best plain_http prefix_regex "/api/x" "GET" bare 0 none routes).1
find_best-Selected_example = find_best-Selected plain_http prefix_regex "/api/x" "GET" bare routes

longer_wins :
    (find_best plain_http prefix_regex "/api/x" "GET" bare 0 none routes).1
    ≡ some (record { place = 1; rest_path = "/api/x"; best_len = 4 })
unfolding find_best match_and_rewrite match_len matches starts_with strip_prefix
longer_wins = refl

abbrev no_crypto : Crypto
no_crypto = record { encode = λ s. s; decodes = λ auth token. false }

abbrev no_key : List (String × ℤ) → Option String
no_key m = none

abbrev whole : Float
whole = record { F64 = ℕ; of_u64 = λ n. n; divide = λ a b. a / b; ge = λ a b. leb b a }

abbrev breaker : CircuitBreaker whole
breaker = record {
  failure_rate_threshold = 1;
  consecutive_failure_threshold = 2;
  open_duration = 100;
  half_open_max_requests = 3;
  min_requests_for_rate_calculation = 10;
  state = closed 0 0 0;
}

abbrev empty_bucket : Ratelimit
empty_bucket = token_bucket (record {
  rate_per_unit = pos 0;
  unit = TimeUnit.second;
  capacity = pos 2;
  scope = LimitLocation.ip "10.0.0.1";
  current_count = pos 0;
  last_update_time = 0;
})

abbrev shared : Shared prefix_regex whole
shared = record {
  shared_data = record {
    value = record {
      upstream_timeout_secs = some (pos 5000);
      api_service_config =
          (
            pos 80,
            record {
              listen_port = pos 80;
              server_type = ServiceType.http;
              domain_config = [];
              route_configs = routes;
            },
          )
          ∷ [];
    };
    poisoned = false;
  };
  store = record {
    limiters = λ r. record { value = empty_bucket; poisoned = false };
    breakers = λ r. record { value = breaker; poisoned = false };
  };
}

abbrev request :
    String
    → Incoming plain_http prefix_regex no_crypto plain_nets whole no_key "poisoned"
        (λ n. 0)
        (λ a b. a ⧺ b)
request target = record {
  now = λ i. record { clock = record { first = 5; second = 5; third = 5 }; instant = 5 };
  target = target;
  verb = "GET";
  ip = "10.0.0.1";
  headers = bare;
  port = pos 80;
}

panics :
    (serve plain_http prefix_regex no_crypto plain_nets whole no_key "poisoned"
      (λ n. 0)
      (λ a b. a ⧺ b)
      (request "/api/x")
      shared).1
    ≡ panic
unfolding serve get_destination find_best match_and_rewrite match_len matches starts_with
    strip_prefix lookup Middleware.is_allowed check_all check_request RateLimit.check_request
    RateLimit.should_limit TokenBucket.should_limit matched tokens_to_add get_million_second
panics = refl
