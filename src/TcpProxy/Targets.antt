-- ===== src/TcpProxy/Targets.antt =====
-- Where the connections of a listener of TCP go.
use silverwind.Prelude.{
  ℕ, suc, String, ◌≡◌, refl, ap, ◌∙◌, inl, inr, Bool, true, false, Option, none, some, List, [],
  ◌∷◌, Bool-cases, get_elem?, replicate, ℤ, Outcome, ok, err, panic, ◌>>=◌, string_eq, starts_with,
}
use silverwind.External.{Http, RegexEngine, IpNets, Float}
use silverwind.Authentication.{Crypto}
use silverwind.Prelude.Assoc.{lookup}
use silverwind.Router.Base.{BaseRoute, to_destination}
use silverwind.Router.{Router, get_route}
use silverwind.Router.Poll.{PollRoute, poll}
use silverwind.Router.Poll.Health.{candidates}
use silverwind.Router.Poll.Steady.{IsUp, poll_steady}
use silverwind.Middleware.{Store, Cell}
use silverwind.Route.{RouteConfig}
use silverwind.Config.{AppConfig, ApiService, int_eq}
use silverwind.TcpProxy.{
  Inbound, Event, accepted, not_accepted, closed, Served, get_endpoint, get_route_cluster,
  cluster_in, cluster_of, answered, refused, start_proxy, ended, transferred, check,
}

module _ (engine : RegexEngine) where
  -- The connections of the events start their transfers under one configuration.
  abbrev pub AreUnder : Cell (AppConfig engine) → List (Event engine) → Type 0
  AreUnder config [] = Unit
  AreUnder config (accepted c ∷ events) = (c.later_config ≡ config) × AreUnder config events
  AreUnder config (_ ∷ events) = AreUnder config events

  -- The configuration can be read, and its first route for the port has the round-robin router.
  abbrev pub IsPolled : ℤ → Cell (AppConfig engine) → PollRoute → Type 0
  IsPolled port config p =
      (config.poisoned ≡ false)
      × (value : ApiService engine) × (route : RouteConfig engine) × (routes : List
          (RouteConfig engine))
      × (lookup port config.value.api_service_config ≡ some value)
      × (value.route_configs ≡ route ∷ routes)
      × (route.router ≡ Router.poll p)

get_endpoint-to_destination : (b : BaseRoute) → get_endpoint (to_destination b) ≡ b.endpoint
unfolding get_endpoint to_destination
get_endpoint-to_destination b = elim (Bool-cases (starts_with b.endpoint "grpc://")) [
  | inl grpc ↦ rw grpc refl
  | inr plain ↦ rw plain refl
]

module _ (http : Http) (engine : RegexEngine) (crypto : Crypto) (nets : IpNets) (float : Float)
    (first_key : List (String × ℤ) → Option String) (poison_error : String) (mapping_key : String)
    (port : ℤ) where
  get_route-poll :
      (pick : ℕ → ℕ) (router : Router) (p : PollRoute) (y : BaseRoute)
      → router ≡ Router.poll p
      → (poll pick p).1 ≡ ok y
      → ((get_route http engine pick http.empty router).1 >>= λ s. ok (get_endpoint s))
        ≡ ok y.endpoint
  unfolding get_route
  get_route-poll pick router p y e answer = rw e (rw answer (ap ok (get_endpoint-to_destination y)))

  get_route_cluster-poll :
      (pick : ℕ → ℕ) (config : Cell (AppConfig engine)) (p : PollRoute) (y : BaseRoute)
      → IsPolled engine port config p
      → (poll pick p).1 ≡ ok y
      → get_route_cluster http engine crypto nets float first_key poison_error mapping_key port pick
          config
        ≡ ok y.endpoint
  unfolding get_route_cluster cluster_of
  get_route_cluster-poll pick config p y (read, value, route, routes, there, first, polled) answer =
      rw read
        (rw there (rw (first, cluster_in) (get_route-poll pick route.router p y polled answer)))

  -- The number of the connections that the listener admits: of those whose check passes before a
  -- check fails, a refused connection cannot be shut down, or the listener is closed.
  counted : Outcome Bool → Option String → ℕ → ℕ
  counted (ok true) shutdown n = suc n
  counted (ok false) none n = n
  counted (ok false) (some e) n = 0
  counted (err e) shutdown n = 0
  counted panic shutdown n = 0

  unfoldable pub admitted : List (Event engine) → Store float → ℕ
  unfolding counted check
  admitted [] store = 0
  admitted (closed ∷ events) store = 0
  admitted (not_accepted ∷ events) store = admitted events store
  admitted (accepted c ∷ events) store =
      let (store', answer) =
        check http engine crypto nets float first_key poison_error mapping_key port c store in
      counted answer c.shutdown_error (admitted events store')

  refused-targets :
      (e : Option String) (store : Store float) (rest : Served float) (target : Outcome String)
      (n : ℕ)
      → rest.targets ≡ replicate n target
      → (refused http engine crypto nets float first_key poison_error mapping_key port e store
          rest).targets
        ≡ replicate (counted (ok false) e n) target
  unfolding refused ended counted
  refused-targets none store rest target n h = h
  refused-targets (some e) store rest target n h = refl

  answered-targets :
      (target : Outcome String) (c : Inbound engine) (store : Store float) (answer : Outcome Bool)
      (rest : Served float) (n : ℕ)
      → get_route_cluster http engine crypto nets float first_key poison_error mapping_key port
          c.pick c.later_config
        ≡ target
      → rest.targets ≡ replicate n target
      → (answered http engine crypto nets float first_key poison_error mapping_key port c store
          answer rest).targets
        ≡ replicate (counted answer c.shutdown_error n) target
  unfolding answered ended transferred counted
  answered-targets target c store (ok true) rest n e h = rw e (ap (λ ts. target ∷ ts) h)
  answered-targets target c store (ok false) rest n e h =
      refused-targets c.shutdown_error store rest target n h
  answered-targets target c store (err m) rest n e h = refl
  answered-targets target c store panic rest n e h = refl

  runs-admitted :
      (config : Cell (AppConfig engine)) (target : Outcome String) (events : List (Event engine))
      (store : Store float)
      → ((pick : ℕ → ℕ)
          → get_route_cluster http engine crypto nets float first_key poison_error mapping_key port
              pick config
            ≡ target)
      → AreUnder engine config events
      → (start_proxy http engine crypto nets float first_key poison_error mapping_key port events
          store).targets
        ≡ replicate (admitted events store) target
  unfolding start_proxy ended admitted
  runs-admitted config target [] store to h = refl
  runs-admitted config target (accepted c ∷ events) store to (same, h) =
      answered-targets target c _ _ _ _
        (ap
            (get_route_cluster http engine crypto nets float first_key poison_error mapping_key port
              c.pick)
            same
          ∙ to c.pick)
        (runs-admitted config target events _ to h)
  runs-admitted config target (not_accepted ∷ events) store to h =
      runs-admitted config target events store to h
  runs-admitted config target (closed ∷ events) store to h = refl

  -- As long as the configuration stays, in which the first route of the port has the round-robin
  -- router, and some target of it is not marked dead, every connection that the listener admits is
  -- transferred, check, and all of them to one and the same target, whatever random numbers they draw: a
  -- connection's turn of the router is lost. The target is one of those that the router chooses
  -- from.
  pub start_proxy-targets :
      (config : Cell (AppConfig engine)) (p : PollRoute) (events : List (Event engine))
      (store : Store float)
      → IsPolled engine port config p
      → IsUp p.routes
      → AreUnder engine config events
      → (y : BaseRoute) × (j : ℕ) × (get_elem? (candidates p.routes) j ≡ some y)
        × ((start_proxy http engine crypto nets float first_key poison_error mapping_key port events
              store).targets
            ≡ replicate (admitted events store) (ok y.endpoint))
  start_proxy-targets config p events store polled up under =
      let (y, j, chosen, answers) = poll_steady p up in
      (
        y,
        j,
        chosen,
        runs-admitted config (ok y.endpoint) events store
            (λ pick. get_route_cluster-poll pick config p y polled (answers pick)) under,
      )
