-- ===== src/TcpProxy.antt =====
-- rust-proxy/src/proxy/tcp/tcp_proxy.rs: a listener of TCP connections. The copying of bytes between
-- two connections, and the connection to the target, are left out.
mod Runs
mod Targets
mod Tests
use silverwind.Prelude.{
  ℕ, zero, suc, ◌+◌, ◌-◌, ◌*◌, ◌/◌, ◌%◌, ◌^◌, ◌≤◌, ◌<◌, String, ◌≡◌, refl, sym, ap, ◌∙◌, ◌≢◌, ◌↔◌,
  ◌⊎◌, inl, inr, Bool, true, false, not, ◌&&◌, ◌||◌, Option, none, some, List, [], ◌∷◌, ◌++◌, map,
  arith, eq_iff, eq_refl, ltb, leb, str_eq, ◌==◌, if◌then◌else◌, Bool-cases, Option-cases, lt→ltb,
  le→ltb, le→leb, lt→leb, length, get_elem?, is_empty, any, all, select, replicate, length-append,
  get_elem?_lt, All, All-get_elem?, All-select, select-holds, ℤ, pos, negsuc, to_u32, as_i32,
  add_i32, sub_i32, lt_ℤ, le_ℤ, min_ℤ, add_i32_pos, sub_i32_pos, as_i32_pos, Outcome, ok, err,
  panic, ◌>>=◌, ok_or, Outcome-cases, Done, or_else, and_then, map_err, ok-inj, some-inj, none≢some,
  Eq, string_eq, ◌⧺◌, contains_char, strip_prefix, is_some, starts_with, split, decimal, int_text,
  join, ends_with, contains_str,
}
use silverwind.Errors.{from, Cause}
use silverwind.External.{Http, RegexEngine, IpNets, Float}
use silverwind.Denial.{CheckResult}
use silverwind.Denial
use silverwind.Authentication.{Crypto}
use silverwind.Prelude.Assoc.{lookup}
use silverwind.Router.Base.{RouterDestination}
use silverwind.Router.{get_route}
use silverwind.Middleware.{Store, Reading, Cell, is_allowed}
use silverwind.Route.{RouteConfig}
use silverwind.Config.{AppConfig, ApiService, int_eq}

unfoldable pub get_endpoint : RouterDestination → String
get_endpoint (RouterDestination.http base_route) = base_route.endpoint
get_endpoint (RouterDestination.file static_file_route) = static_file_route.doc_root
get_endpoint (RouterDestination.grpc base_route) = base_route.endpoint

-- An accepted connection: the clocks that its check reads, the configuration at its check and at
-- the start of its transfer, the random numbers that its transfer draws (`random_range(0..n)` for
-- each `n`), and the error of shutting it down if it is refused.
pub record Inbound (engine : RegexEngine) : Type 0 where
  pub ip : String
  pub now : ℕ → Reading
  pub shared_config : Cell (AppConfig engine)
  pub later_config : Cell (AppConfig engine)
  pub pick : ℕ → ℕ
  pub shutdown_error : Option String

pub data Event (engine : RegexEngine) : Type 0 where
  accepted : Inbound engine → Event engine
  not_accepted closed : Event engine

-- What a listener left: the targets of its transfers, and its result, if it ended.
pub record Served (float : Float) : Type 0 where
  pub store : Store float
  pub targets : List (Outcome String)
  pub result : Option (Outcome Done)

module _ (http : Http) (engine : RegexEngine) (crypto : Crypto) (nets : IpNets) (float : Float)
    (first_key : List (String × ℤ) → Option String) (poison_error : String) (mapping_key : String)
    (port : ℤ) where
  -- The first route of the service decides.
  checked_by : Inbound engine → List (RouteConfig engine) → Store float → Store float × Outcome Bool
  unfolding is_allowed Denial.is_allowed
  checked_by c [] store = (store, err "service_config_clone is empty")
  checked_by c (route ∷ routes) store =
      let (store', answer) =
        is_allowed http crypto nets float first_key poison_error c.now c.ip none route.middlewares
          store in
      (store', answer >>= λ r. ok (Denial.is_allowed r))

  checked_in :
      Inbound engine → Option (ApiService engine) → Store float → Store float × Outcome Bool
  unfolding checked_by int_text
  checked_in c none store = (store, err ("Can not get apiservice from port " ⧺ int_text port))
  checked_in c (some api_service) store = checked_by c api_service.route_configs store

  unfoldable pub check : Inbound engine → Store float → Store float × Outcome Bool
  unfolding checked_in lookup
  check c store =
      let answer = checked_in c (lookup port c.shared_config.value.api_service_config) store in
      if c.shared_config.poisoned then (store, err ("Mutex error: " ⧺ poison_error)) else answer

  -- The router that is asked is a copy, whose new state is dropped.
  cluster_of : (ℕ → ℕ) → List (RouteConfig engine) → Outcome String
  unfolding get_route get_endpoint
  cluster_of pick [] = err "The len of routes is 0"
  cluster_of pick (route ∷ routes) =
      (get_route http engine pick http.empty route.router).1 >>= λ s. ok (get_endpoint s)

  cluster_in : (ℕ → ℕ) → Option (ApiService engine) → Outcome String
  unfolding cluster_of
  cluster_in pick none = err ("Can not get apiservice from mapping_key " ⧺ mapping_key)
  cluster_in pick (some value) = cluster_of pick value.route_configs

  unfoldable pub get_route_cluster : (ℕ → ℕ) → Cell (AppConfig engine) → Outcome String
  unfolding cluster_in lookup
  get_route_cluster pick shared_config =
      if shared_config.poisoned
      then err ("Mutex error: " ⧺ poison_error)
      else cluster_in pick (lookup port shared_config.value.api_service_config)

  ended : Store float → Outcome Done → Served float
  ended store result = record { store = store; targets = []; result = some result }

  transferred : Outcome String → Served float → Served float
  transferred target rest = record rest { targets = target ∷ rest.targets }

  refused : Option String → Store float → Served float → Served float
  unfolding ended
  refused none store rest = rest
  refused (some e) store rest = ended store (err (from Cause.io e))

  -- What a connection's check leads to; `rest` is the run of the later events.
  answered : Inbound engine → Store float → Outcome Bool → Served float → Served float
  unfolding refused ended transferred get_route_cluster
  answered c store (ok true) rest = transferred (get_route_cluster c.pick c.later_config) rest
  answered c store (ok false) rest = refused c.shutdown_error store rest
  answered c store (err e) rest = ended store (err e)
  answered c store panic rest = ended store panic

  -- The loop of `start_proxy`, over the events in the order in which it meets them.
  unfoldable pub start_proxy : List (Event engine) → Store float → Served float
  unfolding answered check ended
  start_proxy [] store = record { store = store; targets = []; result = none }
  start_proxy (closed ∷ events) store = ended store (ok tt)
  start_proxy (not_accepted ∷ events) store = start_proxy events store
  start_proxy (accepted c ∷ events) store =
      let (store', answer) = check c store in answered c store' answer (start_proxy events store')
