-- ===== src/ControlPlane/RoundTrip.antt =====
-- Posting a route and deleting it again.
use silverwind.Prelude.{
  String, ◌≡◌, refl, sym, ap, ◌∙◌, inl, inr, Bool, true, false, not, List, [], ◌∷◌, ◌++◌, eq_refl,
  Bool-cases, is_empty, select, All, ℤ, ok, string_eq,
}
use silverwind.Prelude.Loops.{append_nil}
use silverwind.External.{RegexEngine}
use silverwind.Route.{RouteConfig}
use silverwind.Config.{AppConfig, ApiService, same_int}
use silverwind.ControlPlane.{
  Services, push, push_at, listens, without, retained, set_services, delete_route, post_app_config,
  pushed, first,
}
use silverwind.ControlPlane.Routes.{
  select-append, select_whole, all_routes, has_other_id, has_routes,
}

module _ (engine : RegexEngine) where
  All-split :
      (P : RouteConfig engine → Type 0) (xs ys : List (RouteConfig engine))
      → All P (xs ++ ys)
      → All P xs × All P ys
  All-split P [] ys h = (tt, h)
  All-split P (x ∷ xs) ys (p, h) = let (front, rest) = All-split P xs ys h in ((p, front), rest)

  abbrev pub AreOthers : String → List (RouteConfig engine) → Type 0
  AreOthers route_id routes = All (λ r. has_other_id engine route_id r ≡ true) routes

  with_list : ApiService engine → List (RouteConfig engine) → ApiService engine
  with_list service routes = record service { route_configs = routes }

  retained_same :
      (route_id : String) (service : ApiService engine)
      → AreOthers route_id service.route_configs
      → retained engine route_id service ≡ service
  unfolding retained with_list
  retained_same route_id service h =
      ap (with_list service) (select_whole (has_other_id engine route_id) service.route_configs h)

  retained-push :
      (route : RouteConfig engine) (service : ApiService engine)
      → AreOthers route.route_id service.route_configs
      → retained engine route.route_id (push engine route service) ≡ service
  unfolding retained push with_list
  retained-push route service h = ap (with_list service) (
      select-append (has_other_id engine route.route_id) service.route_configs (route ∷ [])
      ∙ rw (eq_refl route.route_id) (
          append_nil (select (has_other_id engine route.route_id) service.route_configs)
          ∙ select_whole (has_other_id engine route.route_id) service.route_configs h))

  without_cons :
      (route_id : String) (port : ℤ) (service : ApiService engine) (services : Services engine)
      → is_empty (retained engine route_id service).route_configs ≡ false
      → without engine route_id ((port, service) ∷ services)
        ≡ (port, retained engine route_id service) ∷ without engine route_id services
  unfolding without
  without_cons route_id port service services some_left = rw some_left refl

  kept_first :
      (route_id : String) (port : ℤ) (service service' : ApiService engine)
      (services services' : Services engine)
      → retained engine route_id service' ≡ service
      → has_routes engine (port, service) ≡ true
      → without engine route_id services' ≡ services
      → without engine route_id ((port, service') ∷ services') ≡ (port, service) ∷ services
  kept_first route_id port service service' services services' e full rest =
      without_cons route_id port service' services'
        (ap (λ s. is_empty s.route_configs) e ∙ flip (is_empty service.route_configs) full)
      ∙ ap (λ s. (port, s) ∷ without engine route_id services') e
      ∙ ap (λ l. (port, service) ∷ l) rest
    where
      flip : (b : Bool) → not b ≡ true → b ≡ false
      flip true h = sym h
      flip false h = refl

  without_same :
      (route_id : String) (services : Services engine)
      → AreOthers route_id (all_routes engine services)
      → All (λ s. has_routes engine s ≡ true) services
      → without engine route_id services ≡ services
  unfolding all_routes without
  without_same route_id [] ids full = refl
  without_same route_id ((port, service) ∷ services) ids (some_here, full) =
      let (front, rest) =
        All-split (λ r. has_other_id engine route_id r ≡ true) service.route_configs
          (all_routes engine services) ids in
      kept_first route_id port service service services services
        (retained_same route_id service front) some_here (without_same route_id services rest full)

  without-push_at :
      (route : RouteConfig engine) (port : ℤ) (services : Services engine)
      → AreOthers route.route_id (all_routes engine services)
      → All (λ s. has_routes engine s ≡ true) services
      → without engine route.route_id (push_at engine port route services) ≡ services
  unfolding all_routes without push_at
  without-push_at route port [] ids full = refl
  without-push_at route port ((key, service) ∷ services) ids (some_here, full) =
      let (front, rest) =
        All-split (λ r. has_other_id engine route.route_id r ≡ true) service.route_configs
          (all_routes engine services) ids in
      elim (Bool-cases (same_int service.listen_port port)) [
        | inl here ↦ rw here (
            kept_first route.route_id key service (push engine route service) services services
              (retained-push route service front) some_here
              (without_same route.route_id services rest full))
        | inr later ↦ rw later (
            kept_first route.route_id key service service services
              (push_at engine port route services) (retained_same route.route_id service front)
              some_here (without-push_at route port services rest full))
      ]

  posted_first :
      (config : AppConfig engine) (posted : ApiService engine) (route : RouteConfig engine)
      (others : List (RouteConfig engine))
      → posted.route_configs ≡ route ∷ others
      → listens engine posted.listen_port config.api_service_config ≡ true
      → post_app_config engine posted config ≡ (
        set_services engine config
            (push_at engine posted.listen_port route config.api_service_config),
        ok tt,
      )
  unfolding post_app_config pushed first
  posted_first config posted route others routes served =
      rw served (ap (λ l. pushed engine config posted.listen_port (first engine l)) routes)

  -- To post a service on a port that is served, with a new identifier on its first route, and then
  -- to delete that identifier gives the configuration back, if no service of it was without
  -- routes. The other routes of the posted service are not taken.
  pub delete_route-post_app_config :
      (config : AppConfig engine) (posted : ApiService engine) (route : RouteConfig engine)
      (others : List (RouteConfig engine))
      → posted.route_configs ≡ route ∷ others
      → listens engine posted.listen_port config.api_service_config ≡ true
      → AreOthers route.route_id (all_routes engine config.api_service_config)
      → All (λ s. has_routes engine s ≡ true) config.api_service_config
      → ((post_app_config engine posted config).1 ≡ ok tt)
        × (delete_route engine route.route_id (post_app_config engine posted config).0
            ≡ (config, ok tt))
  unfolding set_services delete_route
  delete_route-post_app_config config posted route others routes served ids full =
      let e = posted_first config posted route others routes served in
      (
        ap (λ x. x.1) e,
        ap (λ x. delete_route engine route.route_id x.0) e
            ∙ ap (λ l. (set_services engine config l, ok tt))
                (without-push_at route posted.listen_port config.api_service_config ids full),
      )
