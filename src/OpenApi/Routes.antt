-- ===== src/OpenApi/Routes.antt =====
-- The routes that a description of an API becomes.
use silverwind.Prelude.{
  ◌+◌, ◌*◌, String, ◌≡◌, refl, sym, ap, ◌∙◌, inl, inr, false, ◌&&◌, Option, none, some, List, [],
  ◌∷◌, ◌++◌, arith, str_eq, if◌then◌else◌, Bool-cases, length, length-append, All, ℤ, ok, ◌>>=◌,
  ok_or, ok-inj, string_eq, contains_char,
}
use mathlib.Core.Path.{subst}
use silverwind.Errors.{from, Cause}
use silverwind.Prelude.Loops.{
  All-append, for_each, for_each-keeps, for_each-counts, bound-ok, sum, sum-constant,
}
use silverwind.External.{Http, RegexEngine, Urls}
use silverwind.ControlPlane.Routes.{all_routes}
use silverwind.Matcher.{MatcherRule, PathMatchType, matches}
use silverwind.Router.{Router}
use silverwind.Route.{RouteConfig, match_and_rewrite, rewrite}
use silverwind.Config.{AppConfig, int_eq}
use silverwind.OpenApi.{
  first_of, servers_of, Spec, all_servers, default_upstream, Services, path_rule, route_config,
  push_route, known_port, on_server, on_method, on_path, converted, convert,
}

All-left : {A : Type 0} (P : A → Type 0) (xs ys : List A) → All P (xs ++ ys) → All P xs
All-left P [] ys h = tt
All-left P (x ∷ xs) ys (p, h) = (p, All-left P xs ys h)

All-right : {A : Type 0} (P : A → Type 0) (xs ys : List A) → All P (xs ++ ys) → All P ys
All-right P [] ys h = h
All-right P (x ∷ xs) ys (p, h) = All-right P xs ys h

-- The server that the requests of a description are for.
abbrev pub first_server : List String → String
first_server [] = "http://127.0.0.1:8080"
first_server (server ∷ servers) = server

module _ (engine : RegexEngine) (urls : Urls) where
  -- The only target of the route is the server.
  abbrev pub ForwardsTo : String → RouteConfig engine → Type 0
  ForwardsTo server r =
      r.router
      ≡ Router.random (record { routes = record { endpoint = server; is_alive = none } ∷ [] })

  push_route-keeps :
      (P : RouteConfig engine → Type 0) (port : ℤ) (scheme : String) (route : RouteConfig engine)
      (m : Services engine urls)
      → P route
      → All P (all_routes engine m)
      → All P (all_routes engine (push_route engine urls port scheme route m))
  unfolding push_route all_routes
  push_route-keeps P port scheme route [] p h = (p, tt)
  push_route-keeps P port scheme route ((q, service) ∷ m) p h =
      let here = All-left P service.route_configs (all_routes engine m) h in
      let rest = All-right P service.route_configs (all_routes engine m) h in
      elim (Bool-cases (int_eq.beq q port)) [
        | inl same ↦ rw same (
            All-append P (service.route_configs ++ route ∷ []) (all_routes engine m)
              (All-append P service.route_configs (route ∷ []) here (p, tt)) rest)
        | inr other ↦ rw other (
            All-append P service.route_configs _ here
              (push_route-keeps P port scheme route m p rest))
      ]

  push_route-counts :
      (port : ℤ) (scheme : String) (route : RouteConfig engine) (m : Services engine urls)
      → length (all_routes engine (push_route engine urls port scheme route m))
        ≡ length (all_routes engine m) + 1
  unfolding push_route all_routes
  push_route-counts port scheme route [] = refl
  push_route-counts port scheme route ((q, service) ∷ m) = elim (Bool-cases (int_eq.beq q port)) [
    | inl same ↦ rw same (
        omega (
          arith,
          length-append (service.route_configs ++ route ∷ []) (all_routes engine m),
          length-append service.route_configs (route ∷ []),
          length-append service.route_configs (all_routes engine m),
        ))
    | inr other ↦ rw other (
        omega (
          arith,
          length-append service.route_configs
              (all_routes engine (push_route engine urls port scheme route m)),
          length-append service.route_configs (all_routes engine m),
          push_route-counts port scheme route m,
        ))
  ]

  on_server-pushes :
      (route : RouteConfig engine) (server : String) (m m' : Services engine urls)
      → on_server engine urls route server m ≡ ok m'
      → (port : ℤ) × (scheme : String) × (push_route engine urls port scheme route m ≡ m')
  unfolding on_server
  on_server-pushes route server m m' e = parsed (urls.parse server) e
    where
      parsed :
          (u : Option urls.Url)
          → (ok_or u (from Cause.url_parse (urls.parse_error server)) >>= λ url.
              ok (push_route engine urls (known_port engine urls url) (urls.scheme url) route m))
            ≡ ok m'
          → (port : ℤ) × (scheme : String) × (push_route engine urls port scheme route m ≡ m')
      parsed none e = cc
      parsed (some url) e = (known_port engine urls url, urls.scheme url, ok-inj e)

  abbrev AllHave : (RouteConfig engine → Type 0) → Services engine urls → Type 0
  AllHave P m = All P (all_routes engine m)

  -- What all routes have, if the routes of the description have it.
  module _ (spec : Spec) (P : RouteConfig engine → Type 0) (re : engine.Regex)
      (converted_ones : (path method : String)
        → P (route_config engine urls re (default_upstream spec) path method)) where
    on_path-keeps :
        (p : String × List String) (m m' : Services engine urls)
        → AllHave P m
        → on_path engine urls re spec p m ≡ ok m'
        → AllHave P m'
    unfolding on_path on_method
    on_path-keeps (path, methods) =
        for_each-keeps (AllHave P) (on_method engine urls re spec path)
          (λ method.
            for_each-keeps (AllHave P)
              (on_server engine urls
                (route_config engine urls re (default_upstream spec) path method))
              (λ server m m' h e.
                let (port, scheme, pushed) = on_server-pushes _ server m m' e in
                subst (AllHave P) pushed
                  (push_route-keeps P port scheme _ m (converted_ones path method) h))
              (all_servers spec))
          methods

  on_path-counts :
      (spec : Spec) (re : engine.Regex) (p : String × List String) (m m' : Services engine urls)
      → on_path engine urls re spec p m ≡ ok m'
      → length (all_routes engine m')
        ≡ length (all_routes engine m) + length p.1 * length (all_servers spec)
  unfolding on_path on_method
  on_path-counts spec re (path, methods) m m' e =
      for_each-counts (λ m. length (all_routes engine m)) (λ method. length (all_servers spec))
        (on_method engine urls re spec path)
        (λ method s s' h.
          for_each-counts (λ m. length (all_routes engine m)) (λ server. 1) _
            (λ server t t' k.
              let (port, scheme, pushed) = on_server-pushes _ server t t' k in
              ap (λ m. length (all_routes engine m)) (sym pushed)
              ∙ push_route-counts port scheme _ t)
            (all_servers spec) s s' h
          ∙ ap (λ k. length (all_routes engine s) + k)
              (sum-constant 1 (all_servers spec) ∙ omega arith))
        methods m m' e
      ∙ ap (λ k. length (all_routes engine m) + k)
          (sum-constant (length (all_servers spec)) methods)

  -- What a description that is converted became: the loop over its paths.
  converted-loop :
      (spec : Spec) (paths : List (String × List String)) (re : Option engine.Regex)
      (config : AppConfig engine)
      → converted engine urls spec paths re ≡ ok config
      → (r : engine.Regex) × (for_each (on_path engine urls r spec) paths []
          ≡ ok config.api_service_config)
  unfolding converted
  converted-loop spec paths none config e = cc
  converted-loop spec paths (some r) config e =
      let (services, loop, made) =
        bound-ok (for_each (on_path engine urls r spec) paths []) _ config e in
      (r, loop ∙ ap (λ (c : AppConfig engine). ok c.api_service_config) (ok-inj made))

  default_upstream-first_server : (spec : Spec) → default_upstream spec ≡ first_server spec.servers
  unfolding default_upstream all_servers
  default_upstream-first_server spec = first spec.servers
    where
      first : (servers : List String) → first_of (servers_of servers) ≡ first_server servers
      first [] = refl
      first (server ∷ servers) = refl

  route_config-ForwardsTo :
      (spec : Spec) (re : engine.Regex) (path method : String)
      → ForwardsTo
          (first_server spec.servers)
          (route_config engine urls re (default_upstream spec) path method)
  unfolding route_config
  route_config-ForwardsTo spec re path method =
      ap (λ e. Router.random (record { routes = record { endpoint = e; is_alive = none } ∷ [] }))
        (default_upstream-first_server spec)

  -- Every route of a configuration that comes from a description of an API has one target: the URL
  -- of the description's first server, whichever server's port the route stands under, or
  -- http://127.0.0.1:8080 if the description has no servers.
  pub convert-forwards :
      (spec : Spec) (config : AppConfig engine)
      → convert engine urls spec ≡ ok config
      → All (ForwardsTo (first_server spec.servers)) (all_routes engine config.api_service_config)
  unfolding convert all_routes
  convert-forwards spec config e =
      let (paths, there, made) = bound-ok (ok_or spec.paths _) _ config e in
      let (re, loop) = converted-loop spec paths (engine.compile _) config made in
      for_each-keeps (AllHave (ForwardsTo (first_server spec.servers)))
        (on_path engine urls re spec)
        (on_path-keeps spec (ForwardsTo (first_server spec.servers)) re
          (route_config-ForwardsTo spec re))
        paths [] config.api_service_config tt loop

  -- A configuration that comes from a description of an API has one route for each operation on each
  -- server.
  length-convert :
      (spec : Spec) (paths : List (String × List String)) (config : AppConfig engine)
      → spec.paths ≡ some paths
      → convert engine urls spec ≡ ok config
      → length (all_routes engine config.api_service_config)
        ≡ sum (λ p. length p.1 * length (all_servers spec)) paths
  unfolding convert all_routes
  length-convert spec paths config p e =
      let (found, there, made) = bound-ok (ok_or spec.paths _) _ config e in
      let (re, loop) = converted-loop spec found (engine.compile _) config made in
      for_each-counts (λ m. length (all_routes engine m))
        (λ (p : String × List String). length p.1 * length (all_servers spec))
        (on_path engine urls re spec) (on_path-counts spec re) found [] config.api_service_config
        loop
      ∙ omega arith
      ∙ ap (sum (λ p. length p.1 * length (all_servers spec)))
          (ok-inj (sym there ∙ ap (λ o. ok_or o "No paths found in the OpenAPI spec") p))

module _ (http : Http) (engine : RegexEngine) (urls : Urls) where
  path_rule-literal :
      (re : engine.Regex) (path : String)
      → contains_char b'{' path ≡ false
      → path_rule engine urls re path ≡ MatcherRule.path path PathMatchType.exact none
  unfolding path_rule
  path_rule-literal re path h = rw h refl

  -- The route of a path without parameters accepts a request exactly if its path, with its query,
  -- is that path and its method is the operation's; so it does not accept the path with a query.
  match_and_rewrite-route_config :
      (re : engine.Regex) (upstream path method p verb : String) (m : http.HeaderMap)
      → contains_char b'{' path ≡ false
      → (match_and_rewrite http engine p verb m
          (route_config engine urls re upstream path method)).1
        ≡ (if str_eq p path && str_eq method verb then some p else none)
  unfolding match_and_rewrite route_config path_rule rewrite matches
  match_and_rewrite-route_config re upstream path method p verb m h =
      rw (path_rule-literal re path h) (elim (Bool-cases (str_eq p path)) [
        | inl same ↦ rw same (elim (Bool-cases (str_eq method verb)) [
          | inl its ↦ rw its refl
          | inr other ↦ rw other refl
        ])
        | inr other ↦ rw other refl
      ])
