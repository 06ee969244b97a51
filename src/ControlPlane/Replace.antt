-- ===== src/ControlPlane/Replace.antt =====
-- Putting a route, on the one list of all routes.
use silverwind.Prelude.{
  ◌≡◌, refl, ap, ◌∙◌, ◌⊎◌, inl, inr, true, none, some, List, [], ◌∷◌, ◌++◌, str_eq, Bool-cases, All,
  ok, err, string_eq,
}
use silverwind.Prelude.Loops.{append_assoc}
use silverwind.External.{RegexEngine}
use silverwind.Route.{RouteConfig}
use silverwind.Config.{AppConfig}
use silverwind.ControlPlane.{Services, set_services, replace, replace_in, put, put_route}
use silverwind.ControlPlane.Routes.{all_routes, has_other_id}

module _ (engine : RegexEngine) where
  -- The second list is the first one with the first route of the new one's identifier replaced.
  pub IsReplaced :
      RouteConfig engine → List (RouteConfig engine) → List (RouteConfig engine) → Type 0
  IsReplaced route xs ys =
      (before : List (RouteConfig engine)) × (old : RouteConfig engine) × (after : List
        (RouteConfig engine))
      × (xs ≡ before ++ old ∷ after)
      × (ys ≡ before ++ route ∷ after)
      × All (λ r. has_other_id engine route.route_id r ≡ true) before
      × (str_eq old.route_id route.route_id ≡ true)

  IsReplaced-later :
      (route : RouteConfig engine) (front xs ys : List (RouteConfig engine))
      → All (λ r. has_other_id engine route.route_id r ≡ true) front
      → IsReplaced route xs ys
      → IsReplaced route (front ++ xs) (front ++ ys)
  unfolding IsReplaced
  IsReplaced-later route [] xs ys h r = r
  IsReplaced-later route (x ∷ front) xs ys (other, h) r =
      let (before, old, after, e, f, others, same) = IsReplaced-later route front xs ys h r in
      (x ∷ before, old, after, ap (λ l. x ∷ l) e, ap (λ l. x ∷ l) f, (other, others), same)

  IsReplaced-before :
      (route : RouteConfig engine) (xs ys rest : List (RouteConfig engine))
      → IsReplaced route xs ys
      → IsReplaced route (xs ++ rest) (ys ++ rest)
  unfolding IsReplaced
  IsReplaced-before route xs ys rest (before, old, after, e, f, others, same) = (
    before,
    old,
    after ++ rest,
    ap (λ l. l ++ rest) e ∙ append_assoc before old after rest,
    ap (λ l. l ++ rest) f ∙ append_assoc before route after rest,
    others,
    same,
  )

  All-append :
      (P : RouteConfig engine → Type 0) (xs ys : List (RouteConfig engine))
      → All P xs
      → All P ys
      → All P (xs ++ ys)
  All-append P [] ys h k = k
  All-append P (x ∷ xs) ys (p, h) k = (p, All-append P xs ys h k)

  replace_in-cases :
      (route : RouteConfig engine) (xs : List (RouteConfig engine))
      → ((replace_in engine route xs ≡ none)
          × All (λ r. has_other_id engine route.route_id r ≡ true) xs)
        ⊎ ((ys : List (RouteConfig engine)) × (replace_in engine route xs ≡ some ys)
            × IsReplaced route xs ys)
  unfolding replace_in IsReplaced
  replace_in-cases route [] = inl (refl, tt)
  replace_in-cases route (x ∷ xs) = elim (Bool-cases (str_eq x.route_id route.route_id)) [
    | inl same ↦ inr (route ∷ xs, rw same refl, ([], x, xs, refl, refl, tt, same))
    | inr other ↦ elim (replace_in-cases route xs) [
      | inl (missing, others) ↦ inl (rw (other, missing) refl, (rw other refl, others))
      | inr (ys, found, r) ↦ inr (
        x ∷ ys,
        rw (other, found) refl,
        IsReplaced-later route (x ∷ []) xs ys (rw other refl, tt) r,
      )
    ]
  ]

  replace-cases :
      (route : RouteConfig engine) (services : Services engine)
      → ((replace engine route services ≡ none)
          × All (λ r. has_other_id engine route.route_id r ≡ true) (all_routes engine services))
        ⊎ ((changed : Services engine) × (replace engine route services ≡ some changed)
            × IsReplaced route (all_routes engine services) (all_routes engine changed))
  unfolding replace all_routes
  replace-cases route [] = inl (refl, tt)
  replace-cases route ((port, service) ∷ services) =
      elim (replace_in-cases route service.route_configs) [
        | inr (ys, found, r) ↦ inr (
          (port, record service { route_configs = ys }) ∷ services,
          rw (found, replace) refl,
          IsReplaced-before route service.route_configs ys (all_routes engine services) r,
        )
        | inl (missing, others) ↦ elim (replace-cases route services) [
          | inl (gone, rest) ↦ inl (
            rw (missing, replace) (rw (gone, replace) refl),
            All-append (λ r. has_other_id engine route.route_id r ≡ true) service.route_configs
                (all_routes engine services) others rest,
          )
          | inr (changed, found, r) ↦ inr (
            (port, service) ∷ changed,
            rw (missing, replace) (rw (found, replace) refl),
            IsReplaced-later route service.route_configs (all_routes engine services)
                (all_routes engine changed) others r,
          )
        ]
      ]

  -- Putting a route succeeds exactly by replacing the first route of its identifier in the list of
  -- all routes; if there is none, the call fails with its error and the configuration is as it was.
  pub put_route-IsReplaced :
      (route : RouteConfig engine) (config : AppConfig engine)
      → let (config', answer) = put_route engine route config in
        ((answer ≡ err "Can not find the route by route id!")
          × (config' ≡ config)
          × All
              (λ r. has_other_id engine route.route_id r ≡ true)
              (all_routes engine config.api_service_config))
        ⊎ ((answer ≡ ok tt)
            × IsReplaced route
                (all_routes engine config.api_service_config)
                (all_routes engine config'.api_service_config))
  unfolding put_route put set_services
  put_route-IsReplaced route config = elim (replace-cases route config.api_service_config) [
    | inl (missing, others) ↦ rw missing (inl (refl, refl, others))
    | inr (changed, found, r) ↦ rw found (inr (refl, r))
  ]
