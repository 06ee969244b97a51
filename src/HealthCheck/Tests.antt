-- ===== src/HealthCheck/Tests.antt =====
-- A round of checks of two targets.
use silverwind.Prelude.{
  ℕ, String, ◌≡◌, refl, true, false, none, some, List, [], ◌∷◌, pos, Outcome, ok, err, string_eq,
}
use silverwind.External.Samples.{prefix_regex}
use silverwind.Router.{Router}
use silverwind.Router.Poll.{PollRoute}
use silverwind.Middleware.{Cell}
use silverwind.Route.{RouteConfig}
use silverwind.Config.{AppConfig, ServiceType}
use silverwind.HealthCheck.{record_answers}
use silverwind.HealthCheck.Marks.{all_marked, find_route, with_router, record_answers-poll}

abbrev targets : PollRoute
targets = record {
  current_index = 1;
  routes =
      record { endpoint = "http://a"; is_alive = some true }
      ∷ record { endpoint = "http://b"; is_alive = none }
      ∷ [];
}

abbrev answers : List (String × Outcome ℕ)
answers = ("http://b", err "timeout") ∷ ("http://a", ok 500) ∷ []

abbrev route : RouteConfig prefix_regex
route = record {
  route_id = "api";
  matchers = [];
  path_rewrite = none;
  transcode = none;
  liveness_config = none;
  health_check = none;
  router = Router.poll targets;
  middlewares = none;
  timeout = none;
}

abbrev config : Cell (AppConfig prefix_regex)
config = record {
  value = record {
    upstream_timeout_secs = none;
    api_service_config =
        (
          pos 80,
          record {
            listen_port = pos 80;
            server_type = ServiceType.http;
            domain_config = [];
            route_configs = route ∷ [];
          },
        )
        ∷ [];
  };
  poisoned = false;
}

record_answers-poll_example :
    find_route prefix_regex "api"
      (record_answers prefix_regex "poisoned" "api" answers config).0.value.api_service_config
    ≡ some (
        with_router prefix_regex
          (Router.poll (record targets { routes = all_marked answers targets.routes }))
          route)
record_answers-poll_example =
    record_answers-poll prefix_regex "poisoned" "api" answers config route targets refl refl refl
