-- ===== src/ControlPlane/Tests.antt =====
-- The admin API on a configuration with two services.
use silverwind.Prelude.{
  String, ◌≡◌, refl, ◌⊎◌, true, none, some, List, [], ◌∷◌, select, All, ℤ, pos, ok, err, string_eq,
}
use silverwind.External.Samples.{prefix_regex}
use silverwind.Router.{Router}
use silverwind.Route.{RouteConfig}
use silverwind.Config.{AppConfig, ApiService, ServiceType}
use silverwind.ControlPlane.{post_app_config, delete_route, put_route, listens, without}
use silverwind.ControlPlane.Routes.{all_routes, has_other_id, has_routes, delete_route-all_routes}
use silverwind.ControlPlane.Replace.{IsReplaced, put_route-IsReplaced}
use silverwind.ControlPlane.RoundTrip.{delete_route-post_app_config}

abbrev route : String → String → RouteConfig prefix_regex
route id root = record {
  route_id = id;
  matchers = [];
  path_rewrite = none;
  transcode = none;
  liveness_config = none;
  health_check = none;
  router = Router.static_file (record { doc_root = root });
  middlewares = none;
  timeout = none;
}

abbrev service : ℤ → List (RouteConfig prefix_regex) → ApiService prefix_regex
service port routes = record {
  listen_port = port;
  server_type = ServiceType.http;
  domain_config = [];
  route_configs = routes;
}

abbrev config : AppConfig prefix_regex
config = record {
  upstream_timeout_secs = some (pos 5000);
  api_service_config =
      (pos 80, service (pos 80) (route "a" "/a" ∷ route "b" "/b" ∷ []))
      ∷ (pos 443, service (pos 443) (route "c" "/c" ∷ []))
      ∷ [];
}

drops_service :
    (delete_route prefix_regex "c" config).0.api_service_config
    ≡ (pos 80, service (pos 80) (route "a" "/a" ∷ route "b" "/b" ∷ [])) ∷ []
unfolding delete_route without
drops_service = refl

delete_route-all_routes_example :
    let (config', answer) = delete_route prefix_regex "b" config in
    (answer ≡ ok tt)
    × (all_routes prefix_regex config'.api_service_config
        ≡ select
            (has_other_id prefix_regex "b")
            (all_routes prefix_regex config.api_service_config))
    × All (λ s. has_routes prefix_regex s ≡ true) config'.api_service_config
delete_route-all_routes_example = delete_route-all_routes prefix_regex "b" config

put_route-IsReplaced_example :
    let (config', answer) = put_route prefix_regex (route "c" "/new") config in
    ((answer ≡ err "Can not find the route by route id!")
      × (config' ≡ config)
      × All
          (λ r. has_other_id prefix_regex "c" r ≡ true)
          (all_routes prefix_regex config.api_service_config))
    ⊎ ((answer ≡ ok tt)
        × IsReplaced prefix_regex
            (route "c" "/new")
            (all_routes prefix_regex config.api_service_config)
            (all_routes prefix_regex config'.api_service_config))
put_route-IsReplaced_example = put_route-IsReplaced prefix_regex (route "c" "/new") config

abbrev posted : ApiService prefix_regex
posted = service (pos 443) (route "d" "/d" ∷ route "e" "/e" ∷ [])

new_id :
    All
      (λ r. has_other_id prefix_regex "d" r ≡ true)
      (all_routes prefix_regex config.api_service_config)
unfolding all_routes
new_id = (refl, (refl, (refl, tt)))

served : listens prefix_regex (pos 443) config.api_service_config ≡ true
unfolding listens
served = refl

delete_route-post_app_config_example :
    ((post_app_config prefix_regex posted config).1 ≡ ok tt)
    × (delete_route prefix_regex "d" (post_app_config prefix_regex posted config).0
        ≡ (config, ok tt))
delete_route-post_app_config_example =
    delete_route-post_app_config prefix_regex config posted (route "d" "/d") (route "e" "/e" ∷ [])
      refl served new_id (refl, (refl, tt))
