-- ===== src/Grpc/Clients/Tests.antt =====
-- The clients of a port, with a route that serves files and without one.
use silverwind.Prelude.{◌≡◌, refl, ◌≢◌, false, none, some, List, [], ◌∷◌, pos, ok, string_eq}
use silverwind.External.Samples.{plain_codecs, prefix_regex}
use silverwind.Matcher.{MatcherRule, PathMatchType}
use silverwind.Router.Base.{StaticFileRoute}
use silverwind.Router.{Router, get_all_route}
use silverwind.Middleware.{Cell}
use silverwind.Route.{RouteConfig}
use silverwind.Config.{ServiceType, AppConfig, ApiService, int_eq}
use silverwind.Prelude.Assoc.{lookup}
use silverwind.Grpc.Clients.{
  GrpcClients, app_clients, new_clients, extract_grpc_configs, extract_from, starts_with_lower,
}
use silverwind.Grpc.Clients.Samples.{plain_tonic}
use silverwind.Grpc.Clients.Found.{app_clients-static_file}

abbrev route : Router → RouteConfig prefix_regex
route router = record {
  route_id = "api";
  matchers = MatcherRule.path "/" PathMatchType.prefix none ∷ [];
  path_rewrite = none;
  transcode = some (record { proto_descriptor_set = "greeter.pb" });
  liveness_config = none;
  health_check = none;
  router = router;
  middlewares = none;
  timeout = some 5000;
}

abbrev service : List (RouteConfig prefix_regex) → ApiService prefix_regex
service routes = record {
  listen_port = pos 80;
  server_type = ServiceType.http2;
  domain_config = [];
  route_configs = routes;
}

abbrev config : List (RouteConfig prefix_regex) → Cell (AppConfig prefix_regex)
config routes = record {
  value = record {
    upstream_timeout_secs = some (pos 5000);
    api_service_config = (pos 80, service routes) ∷ [];
  };
  poisoned = false;
}

abbrev grpc_router : Router
grpc_router =
    Router.random (record { routes = record { endpoint = "grpc://greeter"; is_alive = none } ∷ [] })

abbrev files : StaticFileRoute
files = record { doc_root = "/srv" }

abbrev greeter : GrpcClients plain_codecs plain_tonic
greeter = ("grpc://greeter", record { channel = "grpc://greeter"; descriptor_pool = "" }) ∷ []

-- Without the route of files the same port has its client.
with_client :
    app_clients plain_codecs plain_tonic prefix_regex "poisoned"
      (pos 80)
      (config (route grpc_router ∷ []))
    ≡ ok (some greeter)
unfolding app_clients new_clients extract_grpc_configs extract_from starts_with_lower lookup
    get_all_route
with_client = refl

finds :
    lookup
      (pos 80)
      ((pos 80, service (route grpc_router ∷ route (Router.static_file files) ∷ [])) ∷ [])
    ≡ some (service (route grpc_router ∷ route (Router.static_file files) ∷ []))
unfolding lookup
finds = refl

app_clients-static_file_example :
    app_clients plain_codecs plain_tonic prefix_regex "poisoned"
      (pos 80)
      (config (route grpc_router ∷ route (Router.static_file files) ∷ []))
    ≢ ok (some greeter)
app_clients-static_file_example =
    app_clients-static_file plain_codecs plain_tonic prefix_regex "poisoned" (pos 80)
      (config (route grpc_router ∷ route (Router.static_file files) ∷ []))
      (service (route grpc_router ∷ route (Router.static_file files) ∷ [])) 1
      (route (Router.static_file files)) files greeter finds refl refl

makes : new_clients plain_codecs plain_tonic (("grpc://greeter", "greeter.pb") ∷ []) ≡ ok greeter
unfolding new_clients
makes = refl
