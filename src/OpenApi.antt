-- ===== src/OpenApi.antt =====
-- rust-proxy/src/command/openapi_converter.rs: a description of an API becomes a configuration. The
-- file and its parser, and the printing, are left out.
mod Routes
mod Tests
use silverwind.Prelude.{
  ℕ, zero, suc, ◌+◌, ◌-◌, ◌*◌, ◌/◌, ◌%◌, ◌^◌, ◌≤◌, ◌<◌, String, ◌≡◌, refl, sym, ap, ◌∙◌, ◌≢◌, ◌↔◌,
  ◌⊎◌, inl, inr, Bool, true, false, not, ◌&&◌, ◌||◌, Option, none, some, List, [], ◌∷◌, ◌++◌, map,
  arith, eq_iff, eq_refl, ltb, leb, str_eq, ◌==◌, if◌then◌else◌, Bool-cases, Option-cases, lt→ltb,
  le→ltb, le→leb, lt→leb, length, get_elem?, is_empty, any, all, select, replicate, length-append,
  get_elem?_lt, All, All-get_elem?, All-select, select-holds, ℤ, pos, negsuc, to_u32, as_i32,
  add_i32, sub_i32, lt_ℤ, le_ℤ, min_ℤ, add_i32_pos, sub_i32_pos, as_i32_pos, Outcome, ok, err,
  panic, ◌>>=◌, ok_or, Outcome-cases, Done, or_else, and_then, map_err, ok-inj, some-inj, none≢some,
  Eq, string_eq, ◌⧺◌, contains_char, strip_prefix, is_some, starts_with, split, decimal, int_text,
  join, ends_with, contains_str,
}
use silverwind.Prelude.Loops.{for_each}
use silverwind.External.{RegexEngine, Urls}
use silverwind.Errors.{from, Cause}
use silverwind.Matcher.{MatcherRule, PathMatchType}
use silverwind.Router.Base.{BaseRoute}
use silverwind.Router.Poll.{RandomRoute}
use silverwind.Router.{Router}
use silverwind.Route.{RouteConfig}
use silverwind.Config.{AppConfig, ApiService, ServiceType, int_eq}

-- oas3's Spec: the URLs of the servers, and the paths with the methods of their operations.
pub record Spec : Type 0 where
  pub servers : List String
  pub paths : Option (List (String × List String))

servers_of : List String → List String
servers_of [] = "http://127.0.0.1:8080" ∷ []
servers_of (server ∷ servers) = server ∷ servers

unfoldable pub all_servers : Spec → List String
unfolding servers_of
all_servers spec = servers_of spec.servers

first_of : List String → String
first_of [] = "http://localhost:8000"
first_of (server ∷ servers) = server

unfoldable pub default_upstream : Spec → String
unfolding all_servers first_of
default_upstream spec = first_of (all_servers spec)

module _ (engine : RegexEngine) (urls : Urls) where
  abbrev pub Services : Type 0
  Services = List (ℤ × ApiService engine)

  -- A path with parameters becomes a pattern, in which only the parameters are replaced.
  path_rule : engine.Regex → String → MatcherRule engine
  unfolding contains_char
  path_rule re path =
      if contains_char b'{' path && contains_char b'}' path
      then MatcherRule.path ("^" ⧺ engine.replace_all re path "[^/]+" ⧺ "$") PathMatchType.regex
          none
      else MatcherRule.path path PathMatchType.exact none

  unfoldable pub route_config : engine.Regex → String → String → String → RouteConfig engine
  unfolding path_rule
  route_config re upstream path method = record {
    route_id = "";
    matchers = path_rule re path ∷ MatcherRule.method (method ∷ []) ∷ [];
    path_rewrite = none;
    transcode = none;
    liveness_config = none;
    health_check = none;
    router =
        Router.random (record { routes = record { endpoint = upstream; is_alive = none } ∷ [] });
    middlewares = none;
    timeout = none;
  }

  abbrev service_type : String → ServiceType
  service_type scheme = if str_eq scheme "https" then ServiceType.https else ServiceType.http

  -- `services.entry(port).or_insert_with(…)`, to which the route is pushed.
  push_route : ℤ → String → RouteConfig engine → Services → Services
  push_route port scheme route [] =
      (
        port,
        record {
          listen_port = port;
          server_type = service_type scheme;
          domain_config = [];
          route_configs = route ∷ [];
        },
      )
      ∷ []
  push_route port scheme route ((p, service) ∷ services) =
      let later = (p, service) ∷ push_route port scheme route services in
      if int_eq.beq p port
      then (p, record service { route_configs = service.route_configs ++ route ∷ [] }) ∷ services
      else later

  known_port : urls.Url → ℤ
  known_port url = elim (urls.port_or_known_default url) [ none ↦ pos 80 | some p ↦ pos p ]

  on_server : RouteConfig engine → String → Services → Outcome Services
  unfolding push_route known_port
  on_server route server services =
      ok_or (urls.parse server) (from Cause.url_parse (urls.parse_error server)) >>= λ url.
      ok (push_route (known_port url) (urls.scheme url) route services)

  on_method : engine.Regex → Spec → String → String → Services → Outcome Services
  unfolding on_server route_config default_upstream all_servers
  on_method re spec path method services =
      for_each (on_server (route_config re (default_upstream spec) path method)) (all_servers spec)
        services

  on_path : engine.Regex → Spec → String × List String → Services → Outcome Services
  unfolding on_method
  on_path re spec (path, methods) services = for_each (on_method re spec path) methods services

  converted : Spec → List (String × List String) → Option engine.Regex → Outcome (AppConfig engine)
  unfolding on_path
  converted spec paths none = err (from Cause.regex_syntax (engine.compile_error "\\{[^{}]+\\}"))
  converted spec paths (some re) = for_each (on_path re spec) paths [] >>= λ services.
      ok (record { upstream_timeout_secs = some (pos 5000); api_service_config = services })

  -- `handle_convert_command` on what the parser read.
  unfoldable pub convert : Spec → Outcome (AppConfig engine)
  unfolding converted
  convert spec = ok_or spec.paths "No paths found in the OpenAPI spec" >>= λ paths.
      converted spec paths (engine.compile "\\{[^{}]+\\}")
