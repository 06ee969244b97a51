-- ===== src/Destination.antt =====
-- rust-proxy/src/proxy/proxy_trait.rs: the choice of a route for a request, its checks, and the
-- destination. The locks of the configuration and of the middlewares are state: a panic while the
-- configuration is locked poisons it for every later request.
mod Best
mod Panics
mod Tests
use silverwind.Prelude.{
  ℕ, zero, suc, ◌+◌, ◌-◌, ◌*◌, ◌/◌, ◌%◌, ◌^◌, ◌≤◌, ◌<◌, String, ◌≡◌, refl, sym, ap, ◌∙◌, ◌≢◌, ◌↔◌,
  ◌⊎◌, inl, inr, Bool, true, false, not, ◌&&◌, ◌||◌, Option, none, some, List, [], ◌∷◌, ◌++◌, map,
  arith, eq_iff, eq_refl, ltb, leb, str_eq, ◌==◌, if◌then◌else◌, Bool-cases, Option-cases, lt→ltb,
  le→ltb, le→leb, lt→leb, length, get_elem?, is_empty, any, all, select, replicate, length-append,
  get_elem?_lt, All, All-get_elem?, All-select, select-holds, ℤ, pos, negsuc, to_u32, as_i32,
  add_i32, sub_i32, lt_ℤ, le_ℤ, min_ℤ, add_i32_pos, sub_i32_pos, as_i32_pos, Outcome, ok, err,
  panic, ◌>>=◌, ok_or, Outcome-cases, Done, Eq, string_eq, ◌⧺◌, contains_char, strip_prefix,
  is_some, starts_with, split, decimal,
}
use Prim.Native.String.{len}
use silverwind.Prelude.Assoc.{lookup, insert}
use silverwind.External.{Http, RegexEngine, IpNets, Float}
use silverwind.Denial.{Denial, CheckResult, allowed, denied}
use silverwind.Authentication.{Crypto}
use silverwind.Matcher.{MatcherRule}
use silverwind.Router.Base.{BaseRoute, StaticFileRoute, RouterDestination}
use silverwind.Router.{Router, get_route}
use silverwind.Middleware.{MiddleWares, Store, Reading, Cell, is_allowed, is_panic}
use silverwind.Config.{AppConfig, ApiService, int_eq}
use silverwind.RateLimit.FixedWindow.{as_u64}
use silverwind.Route.{RouteConfig, match_and_rewrite}

pub record HandlingResult : Type 0 where
  pub request_path : String
  pub router_destination : RouterDestination
  pub timeout : ℕ
  -- The middlewares that the call leaves in the `SpireContext`.
  pub middlewares : Option (List MiddleWares)

pub data DestinationResult (http : Http) : Type 0 where
  matched : HandlingResult → DestinationResult http
  not_allowed : Denial http → DestinationResult http
  no_match_found : DestinationResult http

-- The route that matched best so far: its place, the rewritten path and the length of its pattern.
pub record Match : Type 0 where
  pub place : ℕ
  pub rest_path : String
  pub best_len : ℕ

-- Rust's `routes[i] = route`, for the route that a reference stands for.
unfoldable pub set_at : {A : Type 0} → ℕ → A → List A → List A
set_at i a [] = []
set_at zero a (x ∷ xs) = a ∷ xs
set_at (suc i) a (x ∷ xs) = x ∷ set_at i a xs

module _ (http : Http) (engine : RegexEngine) where
  -- The values of the rules on the path.
  path_values : List (MatcherRule engine) → List String
  path_values [] = []
  path_values (MatcherRule.path value match_type cached ∷ rules) = value ∷ path_values rules
  path_values (_ ∷ rules) = path_values rules

  -- The length in bytes of the longest value that the path starts with, or 0.
  longest : String → List String → ℕ
  longest p [] = 0
  longest p (value ∷ values) =
      let rest = longest p values in
      if starts_with p value && ltb rest (len value) then len value else rest

  unfoldable pub match_len : String → RouteConfig engine → ℕ
  unfolding longest path_values
  match_len p route = longest p (path_values route.matchers)

  -- A later match replaces the best one only if its pattern is longer.
  better : Match → Option Match → Option Match
  better new none = some new
  better new (some best) = if ltb best.best_len new.best_len then some new else some best

  considering : String → ℕ → RouteConfig engine → Option String → Option Match → Option Match
  unfolding better match_len
  considering p i route none best = best
  considering p i route (some rewritten) best =
      better (record { place = i; rest_path = rewritten; best_len = match_len p route }) best

  -- The loop over the routes, from the place `i`. A route keeps the patterns that it compiled.
  unfoldable pub find_best :
      (p verb : String)
      → http.HeaderMap
      → ℕ
      → Option Match
      → List (RouteConfig engine)
      → List (RouteConfig engine) × Option Match
  unfolding considering match_and_rewrite
  find_best p verb m i best [] = ([], best)
  find_best p verb m i best (route ∷ routes) =
      let (route', rewritten) = match_and_rewrite http engine p verb m route in
      let (routes', final) =
        find_best p verb m (suc i) (considering p i route' rewritten best) routes in
      (route' ∷ routes', final)

-- What the threads share: the configuration behind its lock, and the limiters and breakers.
pub record Shared (engine : RegexEngine) (float : Float) : Type 0 where
  pub shared_data : Cell (AppConfig engine)
  pub store : Store float

-- `join` is that of `std::path::Path`, and `pick` draws a number below its argument.
module _ (http : Http) (engine : RegexEngine) (crypto : Crypto) (nets : IpNets) (float : Float)
    (first_key : List (String × ℤ) → Option String) (poison_error : String) (pick : ℕ → ℕ)
    (join : String → String → String) where
  -- The path that is asked of a destination.
  request_path : String → RouterDestination → String
  request_path rest_path (RouterDestination.http base_route) = base_route.endpoint ⧺ rest_path
  request_path rest_path (RouterDestination.file file_route) = join file_route.doc_root rest_path
  request_path rest_path (RouterDestination.grpc base_route) = rest_path

  timeout_of : RouteConfig engine → ℤ → ℕ
  unfolding as_u64
  timeout_of route request_timeout_sec = elim route.timeout [
    | none ↦ as_u64 request_timeout_sec
    | some t ↦ t
  ]

  result : RouteConfig engine → String → ℤ → RouterDestination → DestinationResult http
  unfolding request_path timeout_of
  result route rest_path request_timeout_sec destination = matched (record {
    request_path = request_path rest_path destination;
    router_destination = destination;
    timeout = timeout_of route request_timeout_sec;
    middlewares = route.middlewares;
  })

  -- The router is asked only for a request that the middlewares admit.
  routed :
      http.HeaderMap
      → RouteConfig engine
      → String
      → ℤ
      → Outcome (CheckResult http)
      → RouteConfig engine × Outcome (DestinationResult http)
  unfolding result get_route
  routed m route rest_path request_timeout_sec (ok allowed) =
      let (router', answer) = get_route http engine pick m route.router in
      (
        record route { router = router' },
        answer >>= λ destination. ok (result route rest_path request_timeout_sec destination),
      )
  routed m route rest_path request_timeout_sec (ok (denied d)) = (route, ok (not_allowed d))
  routed m route rest_path request_timeout_sec (err e) = (route, err e)
  routed m route rest_path request_timeout_sec panic = (route, panic)

  with_routes :
      ℤ → ApiService engine → List (RouteConfig engine) → AppConfig engine → AppConfig engine
  with_routes port api_service routes config = record config {
    api_service_config =
        insert port (record api_service { route_configs = routes }) config.api_service_config;
  }

  checked :
      (ℕ → Reading)
      → String
      → http.HeaderMap
      → ℤ
      → List (RouteConfig engine)
      → Match
      → Option (RouteConfig engine)
      → Store float
      → List (RouteConfig engine) × Store float × Outcome (DestinationResult http)
  unfolding routed is_allowed set_at
  checked now ip m request_timeout_sec routes best none store = (routes, store, panic)
  checked now ip m request_timeout_sec routes best (some route) store =
      let (store', check_res) =
        is_allowed http crypto nets float first_key poison_error now ip (some m) route.middlewares
          store in
      let (route', answer) = routed m route best.rest_path request_timeout_sec check_res in
      (set_at best.place route' routes, store', answer)

  chosen :
      (ℕ → Reading)
      → String
      → http.HeaderMap
      → ℤ
      → List (RouteConfig engine)
      → Option Match
      → Store float
      → List (RouteConfig engine) × Store float × Outcome (DestinationResult http)
  unfolding checked
  chosen now ip m request_timeout_sec routes none store = (routes, store, ok no_match_found)
  chosen now ip m request_timeout_sec routes (some best) store =
      checked now ip m request_timeout_sec routes best (get_elem? routes best.place) store

  -- The service of the port, searched and changed under the lock.
  at_service :
      (ℕ → Reading)
      → (p verb ip : String) → http.HeaderMap
      → ℤ
      → ℤ
      → AppConfig engine
      → Option (ApiService engine)
      → Store float
      → AppConfig engine × Store float × Outcome (DestinationResult http)
  unfolding find_best chosen with_routes
  at_service now p verb ip m port secs config none store =
      (config, store, err "Can not find config by port from app config.")
  at_service now p verb ip m port secs config (some api_service) store =
      let (routes, best) = find_best http engine p verb m 0 none api_service.route_configs in
      let (routes', store', answer) = chosen now ip m secs routes best store in
      (with_routes port api_service routes' config, store', answer)

  under_lock :
      (ℕ → Reading)
      → (p verb ip : String) → http.HeaderMap
      → ℤ
      → AppConfig engine
      → Option ℤ
      → Store float
      → AppConfig engine × Store float × Outcome (DestinationResult http)
  unfolding at_service lookup
  under_lock now p verb ip m port config none store =
      (config, store, err "Can not find request_timeout_sec  from app config.")
  under_lock now p verb ip m port config (some secs) store =
      at_service now p verb ip m port secs config (lookup port config.api_service_config) store

  -- The whole of `get_destination`, on the path and query of the request's URI, if it has one.
  unfoldable pub get_destination :
      (ℕ → Reading)
      → Option String
      → (verb ip : String) → http.HeaderMap
      → ℤ
      → Shared engine float
      → Shared engine float × Outcome (DestinationResult http)
  unfolding under_lock is_panic
  get_destination now none verb ip m port shared = (shared, err "Path is empty")
  get_destination now (some p) verb ip m port shared =
      let config = shared.shared_data.value in
      let (config', store', answer) =
        under_lock now p verb ip m port config config.upstream_timeout_secs shared.store in
      if shared.shared_data.poisoned then (shared, err ("Mutex error: " ⧺ poison_error)) else (
        record {
          shared_data = record { value = config'; poisoned = is_panic answer };
          store = store';
        },
        answer,
      )
