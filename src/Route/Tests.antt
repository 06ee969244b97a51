-- ===== src/Route/Tests.antt =====
-- A route at requests.
use silverwind.Prelude.{
  String, ◌≡◌, refl, Option, none, some, [], ◌∷◌, if◌then◌else◌, all, string_eq, strip_prefix,
  starts_with,
}
use silverwind.External.Samples.{plain_http, prefix_regex}
use silverwind.Matcher.{MatcherRule, PathMatchType, matches}
use silverwind.Router.{Router}
use silverwind.Route.{RouteConfig, match_and_rewrite, rewrite}
use silverwind.Route.Rewrite.{accepts, AreCoherent, all_fresh, match_and_rewrite-accepts}

abbrev bare : String → Option String
bare k = none

abbrev api : RouteConfig prefix_regex
api = record {
  route_id = "api";
  matchers =
      MatcherRule.path "/api" PathMatchType.prefix none ∷ MatcherRule.method ("GET" ∷ []) ∷ [];
  path_rewrite = some "/v1";
  transcode = none;
  liveness_config = none;
  health_check = none;
  router = Router.static_file (record { doc_root = "/srv" });
  middlewares = none;
  timeout = none;
}

rewrites : (match_and_rewrite plain_http prefix_regex "/api/x" "GET" bare api).1 ≡ some "/v1/x"
unfolding match_and_rewrite matches starts_with strip_prefix rewrite
rewrites = refl

match_and_rewrite-accepts_example :
    let (route', answer) = match_and_rewrite plain_http prefix_regex "/api/x" "GET" bare api in
    (answer ≡ (
      if all (accepts plain_http prefix_regex "GET" "/api/x" bare) api.matchers
      then some (rewrite plain_http prefix_regex api.path_rewrite api.matchers "/api/x")
      else none))
    × AreCoherent plain_http prefix_regex "GET" "/api/x" bare route'.matchers
    × (all_fresh plain_http prefix_regex "GET" "/api/x" bare route'.matchers
        ≡ all_fresh plain_http prefix_regex "GET" "/api/x" bare api.matchers)
match_and_rewrite-accepts_example =
    match_and_rewrite-accepts plain_http prefix_regex "GET" "/api/x" bare api (tt, (tt, tt))
