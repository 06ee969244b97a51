-- ===== src/TcpProxy/Tests.antt =====
-- A listener whose service has a round-robin router of two targets, and one without a service.
use silverwind.Prelude.{
  ℕ, ◌-◌, ◌/◌, String, ◌≡◌, refl, ap, false, Option, none, some, List, [], ◌∷◌, leb, get_elem?,
  replicate, ℤ, pos, ok, err, none≢some, string_eq, decimal, int_text,
}
use silverwind.External.{Float}
use silverwind.External.Samples.{plain_http, prefix_regex, plain_nets}
use silverwind.Prelude.Assoc.{lookup}
use silverwind.Authentication.{Crypto}
use silverwind.RateLimit.{token_bucket}
use silverwind.RateLimit.Scope.{LimitLocation, TimeUnit}
use silverwind.Breaker.{closed}
use silverwind.Router.{Router}
use silverwind.Middleware.{Store, Cell}
use silverwind.Route.{RouteConfig}
use silverwind.Config.{AppConfig, ServiceType}
use silverwind.TcpProxy.{Inbound, accepted, not_accepted, check, start_proxy}
use silverwind.TcpProxy.Runs.{stopped, start_proxy-stops}
use silverwind.TcpProxy.Targets.{IsPolled, admitted, start_proxy-targets}
use silverwind.Router.Base.{BaseRoute}
use silverwind.Router.Poll.{PollRoute}
use silverwind.Router.Poll.Health.{candidates}
use silverwind.Router.Poll.Steady.{IsUp}

abbrev no_crypto : Crypto
no_crypto = record { encode = λ s. s; decodes = λ auth token. false }

abbrev no_key : List (String × ℤ) → Option String
no_key m = none

abbrev whole : Float
whole = record { F64 = ℕ; of_u64 = λ n. n; divide = λ a b. a / b; ge = λ a b. leb b a }

abbrev store : Store whole
store = record {
  limiters = λ r. record {
    value = token_bucket (record {
      rate_per_unit = pos 1;
      unit = TimeUnit.second;
      capacity = pos 2;
      scope = LimitLocation.ip "10.0.0.1";
      current_count = pos 0;
      last_update_time = 0;
    });
    poisoned = false;
  };
  breakers = λ r. record {
    value = record {
      failure_rate_threshold = 1;
      consecutive_failure_threshold = 2;
      open_duration = 100;
      half_open_max_requests = 3;
      min_requests_for_rate_calculation = 10;
      state = closed 0 0 0;
    };
    poisoned = false;
  };
}

abbrev route : RouteConfig prefix_regex
route = record {
  route_id = "tcp";
  matchers = [];
  path_rewrite = none;
  transcode = none;
  liveness_config = none;
  health_check = none;
  router = Router.poll (record {
    current_index = 0;
    routes =
        record { endpoint = "10.1.0.1:80"; is_alive = none }
        ∷ record { endpoint = "10.1.0.2:80"; is_alive = none }
        ∷ [];
  });
  middlewares = none;
  timeout = none;
}

abbrev config : Cell (AppConfig prefix_regex)
config = record {
  value = record {
    upstream_timeout_secs = none;
    api_service_config =
        (
          pos 80,
          record {
            listen_port = pos 80;
            server_type = ServiceType.tcp;
            domain_config = [];
            route_configs = route ∷ [];
          },
        )
        ∷ [];
  };
  poisoned = false;
}

abbrev connection : Inbound prefix_regex
connection = record {
  ip = "10.0.0.1";
  now = λ i. record { clock = record { first = 5; second = 5; third = 5 }; instant = 5 };
  shared_config = config;
  later_config = config;
  pick = λ n. 0;
  shutdown_error = none;
}

abbrev two_routes : PollRoute
two_routes = record {
  current_index = 0;
  routes =
      record { endpoint = "10.1.0.1:80"; is_alive = none }
      ∷ record { endpoint = "10.1.0.2:80"; is_alive = none }
      ∷ [];
}

-- Its transfer draws other numbers.
abbrev second_connection : Inbound prefix_regex
second_connection = record connection { pick = λ n. n - 1 }

first_IsUp : IsUp two_routes.routes
unfolding IsUp
first_IsUp = (record { endpoint = "10.1.0.1:80"; is_alive = none }, 0, refl, λ e. none≢some e)

config-IsPolled : IsPolled prefix_regex (pos 80) config two_routes
unfolding lookup
config-IsPolled = (
  refl,
  record {
    listen_port = pos 80;
    server_type = ServiceType.tcp;
    domain_config = [];
    route_configs = route ∷ [];
  },
  route,
  [],
  refl,
  refl,
  refl,
)

two_transfers :
    admitted plain_http prefix_regex no_crypto plain_nets whole no_key "poisoned" "80"
      (pos 80)
      (accepted connection ∷ accepted second_connection ∷ [])
      store
    ≡ 2
unfolding admitted check lookup
two_transfers = refl

start_proxy-targets_example :
    (y : BaseRoute) × (j : ℕ) × (get_elem? (candidates two_routes.routes) j ≡ some y)
    × ((start_proxy plain_http prefix_regex no_crypto plain_nets whole no_key "poisoned" "80"
          (pos 80)
          (accepted connection ∷ accepted second_connection ∷ [])
          store).targets
        ≡ replicate
            (admitted plain_http prefix_regex no_crypto plain_nets whole no_key "poisoned" "80"
              (pos 80)
              (accepted connection ∷ accepted second_connection ∷ [])
              store)
            (ok y.endpoint))
start_proxy-targets_example =
    start_proxy-targets plain_http prefix_regex no_crypto plain_nets whole no_key "poisoned" "80"
      (pos 80) config two_routes (accepted connection ∷ accepted second_connection ∷ []) store
      config-IsPolled first_IsUp (refl, (refl, tt))

no_service :
    (check plain_http prefix_regex no_crypto plain_nets whole no_key "poisoned" "81"
      (pos 81)
      connection
      store).1
    ≡ err "Can not get apiservice from port 81"
unfolding check lookup int_text decimal
no_service = refl

still_open :
    (start_proxy plain_http prefix_regex no_crypto plain_nets whole no_key "poisoned" "81"
      (pos 81)
      (not_accepted ∷ [])
      store)
    ≡ record { store = store; targets = []; result = none }
unfolding start_proxy
still_open = refl

start_proxy-stops_example :
    (start_proxy plain_http prefix_regex no_crypto plain_nets whole no_key "poisoned" "81"
      (pos 81)
      (not_accepted ∷ accepted connection ∷ accepted connection ∷ [])
      store)
    ≡ stopped plain_http prefix_regex no_crypto plain_nets whole no_key "poisoned" "81"
        (pos 81)
        connection
        (start_proxy plain_http prefix_regex no_crypto plain_nets whole no_key "poisoned" "81"
          (pos 81)
          (not_accepted ∷ [])
          store)
        "Can not get apiservice from port 81"
start_proxy-stops_example =
    start_proxy-stops plain_http prefix_regex no_crypto plain_nets whole no_key "poisoned" "81"
      (pos 81) (not_accepted ∷ []) (accepted connection ∷ []) connection store
      "Can not get apiservice from port 81" (ap (λ s. s.result) still_open)
      (rw still_open no_service)
