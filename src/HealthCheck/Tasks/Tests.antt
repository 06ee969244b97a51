-- ===== src/HealthCheck/Tasks/Tests.antt =====
-- A round that replaces the task of a route that went by that of a new one.
use silverwind.Prelude.{String, ◌≡◌, refl, true, false, none, some, [], ◌∷◌, pos, string_eq}
use silverwind.External.Samples.{prefix_regex}
use silverwind.Prelude.Assoc.{lookup, insert}
use silverwind.Prelude.Maps.{contains, same_list}
use silverwind.Router.{Router, get_all_route}
use silverwind.Route.{RouteConfig, redis}
use silverwind.Config.{AppConfig, ApiService, ServiceType}
use silverwind.HealthCheck.Tasks.{
  TaskKey, key_eq, HealthCheck, task_key, route_list, do_health_check,
}
use silverwind.HealthCheck.Tasks.Keys.{asks_for, do_health_check-keys}

abbrev route : RouteConfig prefix_regex
route = record {
  route_id = "new";
  matchers = [];
  path_rewrite = none;
  transcode = none;
  liveness_config = some (record { min_liveness_count = pos 1 });
  health_check = some (redis (record { timeout = pos 1; interval = pos 5 }));
  router =
      Router.random (record { routes = record { endpoint = "http://a"; is_alive = none } ∷ [] });
  middlewares = none;
  timeout = none;
}

abbrev key : String → TaskKey
key id = record {
  route_id = id;
  health_check_type = redis (record { timeout = pos 1; interval = pos 5 });
  endpoint_list = "http://a" ∷ [];
  min_liveness_count = pos 1;
}

abbrev service : ApiService prefix_regex
service = record {
  listen_port = pos 80;
  server_type = ServiceType.http;
  domain_config = [];
  route_configs = route ∷ [];
}

abbrev config : AppConfig prefix_regex
config = record { upstream_timeout_secs = none; api_service_config = (pos 80, service) ∷ [] }

abbrev before : HealthCheck
before = record { task_id_map = (key "old", 4) ∷ []; current_id = 5; running = 4 ∷ [] }

replaced :
    (do_health_check prefix_regex
      (λ id. true)
      (λ id r. true)
      "poisoned"
      (record { value = config; poisoned = false })
      before).0
    ≡ record { task_id_map = (key "new", 5) ∷ []; current_id = 6; running = 5 ∷ [] }
unfolding do_health_check route_list task_key contains lookup insert same_list get_all_route
replaced = refl

do_health_check-keys_example :
    contains
      (key "old")
      (do_health_check prefix_regex
        (λ id. true)
        (λ id r. true)
        "poisoned"
        (record { value = config; poisoned = false })
        before).0.task_id_map
    ≡ asks_for prefix_regex (key "old") config.api_service_config
do_health_check-keys_example =
    (do_health_check-keys prefix_regex (λ id. true) (λ id r. true) (λ id. refl) (λ id r. refl)
        "poisoned" (record { value = config; poisoned = false }) before refl).1
      (key "old")
