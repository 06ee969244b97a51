-- ===== src/ControlPlane/Routes.antt =====
-- The admin API's operations as operations on the one list of all routes.
use silverwind.Prelude.{
  String, ◌≡◌, refl, sym, ap, ◌∙◌, inl, inr, Bool, true, not, List, [], ◌∷◌, ◌++◌, str_eq,
  Bool-cases, is_empty, select, All, ℤ, ok, string_eq,
}
use silverwind.External.{RegexEngine}
use silverwind.Route.{RouteConfig}
use silverwind.Config.{AppConfig, ApiService}
use silverwind.ControlPlane.{Services, without, retained, set_services, delete_route}

pub select-append :
    {A : Type 0} (p : A → Bool) (xs ys : List A) → select p (xs ++ ys) ≡ select p xs ++ select p ys
select-append p [] ys = refl
select-append p (x ∷ xs) ys = elim (Bool-cases (p x)) [
  | inl kept ↦ rw kept (ap (λ l. x ∷ l) (select-append p xs ys))
  | inr gone ↦ rw gone (select-append p xs ys)
]

pub select_whole :
    {A : Type 0} (p : A → Bool) (xs : List A) → All (λ x. p x ≡ true) xs → select p xs ≡ xs
select_whole p [] h = refl
select_whole p (x ∷ xs) (kept, h) = rw kept (ap (λ l. x ∷ l) (select_whole p xs h))

pub empty_only : {A : Type 0} (xs : List A) → is_empty xs ≡ true → xs ≡ []
empty_only [] h = refl
empty_only (x ∷ xs) h = cc

module _ (engine : RegexEngine) where
  -- All routes, in the order of the services.
  unfoldable pub all_routes : Services engine → List (RouteConfig engine)
  all_routes [] = []
  all_routes ((port, service) ∷ services) = service.route_configs ++ all_routes services

  abbrev pub has_other_id : String → RouteConfig engine → Bool
  has_other_id route_id route = not (str_eq route.route_id route_id)

  abbrev pub has_routes : ℤ × ApiService engine → Bool
  has_routes (port, service) = not (is_empty service.route_configs)

  all_routes-without :
      (route_id : String) (services : Services engine)
      → all_routes (without engine route_id services)
        ≡ select (has_other_id route_id) (all_routes services)
  unfolding all_routes without retained
  all_routes-without route_id [] = refl
  all_routes-without route_id ((port, service) ∷ services) =
      elim (Bool-cases (is_empty (retained engine route_id service).route_configs)) [
        | inl none_left ↦ rw none_left (
            all_routes-without route_id services
            ∙ rw (select-append (has_other_id route_id) service.route_configs (all_routes services))
                (rw (empty_only (select (has_other_id route_id) service.route_configs) none_left)
                  refl))
        | inr some_left ↦ rw some_left (
            ap (λ l. select (has_other_id route_id) service.route_configs ++ l)
              (all_routes-without route_id services)
            ∙ sym
                (select-append (has_other_id route_id) service.route_configs (all_routes services)))
      ]

  without-has_routes :
      (route_id : String) (services : Services engine)
      → All (λ s. has_routes s ≡ true) (without engine route_id services)
  unfolding without retained
  without-has_routes route_id [] = tt
  without-has_routes route_id ((port, service) ∷ services) =
      elim (Bool-cases (is_empty (retained engine route_id service).route_configs)) [
        | inl none_left ↦ rw none_left (without-has_routes route_id services)
        | inr some_left ↦ rw some_left (rw some_left refl, without-has_routes route_id services)
      ]

  -- Deleting an identifier succeeds, leaves all routes of other identifiers in their order, no
  -- route of this one, and no service without routes.
  pub delete_route-all_routes :
      (route_id : String) (config : AppConfig engine)
      → let (config', answer) = delete_route engine route_id config in
        (answer ≡ ok tt)
        × (all_routes config'.api_service_config
            ≡ select (has_other_id route_id) (all_routes config.api_service_config))
        × All (λ s. has_routes s ≡ true) config'.api_service_config
  unfolding delete_route set_services
  delete_route-all_routes route_id config = (
    refl,
    all_routes-without route_id config.api_service_config,
    without-has_routes route_id config.api_service_config,
  )
