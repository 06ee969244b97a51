-- ===== src/ControlPlane.antt =====
-- rust-proxy/src/control_plane/rest_api.rs: the operations of the admin API on the configuration.
-- Each runs under the lock, answers with a fixed text, and hands a copy to the task that saves the
-- configuration. The request's body comes parsed, since serde does that before the lock.
pub mod Routes
mod Replace
mod RoundTrip
mod Tests
use silverwind.Prelude.{
  ℕ, zero, suc, ◌+◌, ◌-◌, ◌*◌, ◌/◌, ◌%◌, ◌^◌, ◌≤◌, ◌<◌, String, ◌≡◌, refl, sym, ap, ◌∙◌, ◌≢◌, ◌↔◌,
  ◌⊎◌, inl, inr, Bool, true, false, not, ◌&&◌, ◌||◌, Option, none, some, List, [], ◌∷◌, ◌++◌, map,
  arith, eq_iff, eq_refl, ltb, leb, str_eq, ◌==◌, if◌then◌else◌, Bool-cases, Option-cases, lt→ltb,
  le→ltb, le→leb, lt→leb, length, get_elem?, is_empty, any, all, select, replicate, length-append,
  get_elem?_lt, All, All-get_elem?, All-select, select-holds, ℤ, pos, negsuc, to_u32, as_i32,
  add_i32, sub_i32, lt_ℤ, le_ℤ, min_ℤ, add_i32_pos, sub_i32_pos, as_i32_pos, Outcome, ok, err,
  panic, ◌>>=◌, ok_or, Outcome-cases, Done, Eq, string_eq, ◌⧺◌, contains_char, strip_prefix,
  is_some, starts_with, split, decimal,
}
use silverwind.Prelude.Assoc.{insert}
use silverwind.External.{RegexEngine}
use silverwind.Route.{RouteConfig}
use silverwind.Config.{AppConfig, ApiService, same_int, int_eq}

module _ (engine : RegexEngine) where
  abbrev pub Services : Type 0
  Services = List (ℤ × ApiService engine)

  -- `data.route_configs.push(route)`.
  push : RouteConfig engine → ApiService engine → ApiService engine
  push route data_ = record data_ { route_configs = data_.route_configs ++ route ∷ [] }

  -- The first service that listens on the port gets the route.
  unfoldable pub push_at : ℤ → RouteConfig engine → Services → Services
  unfolding push
  push_at port route [] = []
  push_at port route ((key, service) ∷ services) =
      let rest = push_at port route services in
      if same_int service.listen_port port
      then (key, push route service) ∷ services
      else (key, service) ∷ rest

  unfoldable pub listens : ℤ → Services → Bool
  listens port services = any (λ (key, service). same_int service.listen_port port) services

  first : List (RouteConfig engine) → Outcome (RouteConfig engine)
  first [] = err "The route is empty!"
  first (route ∷ routes) = ok route

  set_services : AppConfig engine → Services → AppConfig engine
  set_services config services = record config { api_service_config = services }

  pushed : AppConfig engine → ℤ → Outcome (RouteConfig engine) → AppConfig engine × Outcome Done
  unfolding set_services push_at
  pushed config port (ok route) =
      (set_services config (push_at port route config.api_service_config), ok tt)
  pushed config port (err e) = (config, err e)
  pushed config port panic = (config, panic)

  -- `post_app_config_with_error`: of a service on a port that is served, only the first route is
  -- taken.
  unfoldable pub post_app_config :
      ApiService engine → AppConfig engine → AppConfig engine × Outcome Done
  unfolding pushed first listens set_services
  post_app_config api_service config =
      if listens api_service.listen_port config.api_service_config
      then pushed config api_service.listen_port (first api_service.route_configs)
      else (
        set_services config (insert api_service.listen_port api_service config.api_service_config),
        ok tt,
      )

  -- `retain(|route| route.route_id != route_id)`.
  retained : String → ApiService engine → ApiService engine
  retained route_id service = record service {
    route_configs = select (λ route. not (str_eq route.route_id route_id)) service.route_configs;
  }

  -- Services without routes are dropped.
  unfoldable pub without : String → Services → Services
  unfolding retained
  without route_id [] = []
  without route_id ((port, service) ∷ services) =
      let rest = without route_id services in
      if is_empty (retained route_id service).route_configs
      then rest
      else (port, retained route_id service) ∷ rest

  -- `delete_route_with_error`.
  unfoldable pub delete_route : String → AppConfig engine → AppConfig engine × Outcome Done
  unfolding without set_services
  delete_route route_id config =
      (set_services config (without route_id config.api_service_config), ok tt)

  -- The first route of the identifier is replaced, if there is one.
  replace_in : RouteConfig engine → List (RouteConfig engine) → Option (List (RouteConfig engine))
  replace_in route [] = none
  replace_in route (old ∷ routes) =
      let rest = replace_in route routes in
      if str_eq old.route_id route.route_id
      then some (route ∷ routes)
      else elim rest [ none ↦ none | some changed ↦ some (old ∷ changed) ]

  unfoldable pub replace : RouteConfig engine → Services → Option Services
  unfolding replace_in
  replace route [] = none
  replace route ((port, service) ∷ services) =
      let rest = replace route services in
      elim (replace_in route service.route_configs) [
        | none ↦ elim rest [ none ↦ none | some changed ↦ some ((port, service) ∷ changed) ]
        | some routes ↦ some ((port, record service { route_configs = routes }) ∷ services)
      ]

  put : AppConfig engine → Option Services → AppConfig engine × Outcome Done
  unfolding set_services
  put config none = (config, err "Can not find the route by route id!")
  put config (some services) = (set_services config services, ok tt)

  -- `put_route_with_error`.
  unfoldable pub put_route : RouteConfig engine → AppConfig engine → AppConfig engine × Outcome Done
  unfolding put replace
  put_route route config = put config (replace route config.api_service_config)

  abbrev pub ports : Services → List ℤ
  ports services = map (λ x. x.0) services

  -- `current_ports == new_ports` of the sets.
  unfoldable pub same_ports : List ℤ → List ℤ → Bool
  same_ports xs ys =
      all (λ x. any (λ y. same_int x y) ys) xs && all (λ y. any (λ x. same_int y x) xs) ys

  -- `reload_config_with_error`; `show` prints a set of ports for the error.
  unfoldable pub reload_config :
      (List ℤ → String) → AppConfig engine → AppConfig engine → AppConfig engine × Outcome Done
  unfolding same_ports
  reload_config show new_config config =
      let current_ports = ports config.api_service_config in
      let new_ports = ports new_config.api_service_config in
      if same_ports current_ports new_ports then (new_config, ok tt) else (
        config,
        err (
            "Port mismatch: current ports "
            ⧺ show current_ports
            ⧺ " do not match new ports "
            ⧺ show new_ports
            ⧺ ". The reload operation requires the exact same set of listen ports."),
      )

  blank : RouteConfig engine → RouteConfig engine
  blank route = record route { route_id = "" }

  blank_all : ℤ × ApiService engine → ℤ × ApiService engine
  unfolding blank
  blank_all (port, service) =
      (port, record service { route_configs = map blank service.route_configs })

  -- What `save_config_to_file` writes: the routes without their identifiers.
  unfoldable pub saved : AppConfig engine → AppConfig engine
  unfolding blank_all set_services
  saved config = set_services config (map blank_all config.api_service_config)
