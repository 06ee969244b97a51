-- ===== src/HealthCheck/Marks.antt =====
-- The mark of a target after a round of health checks.
use silverwind.Prelude.{
  ℕ, String, ◌≡◌, refl, sym, ap, ◌∙◌, inl, inr, Bool, true, false, ◌&&◌, Option, none, some, List,
  [], ◌∷◌, map, str_eq, ◌==◌, if◌then◌else◌, Bool-cases, Option-cases, ℤ, Outcome, ok, err, panic,
  or_else, some-inj, none≢some, string_eq, is_some,
}
use silverwind.Router.{Router, update_route_alive}
use silverwind.Router.Base.{BaseRoute}
use silverwind.Router.Poll.{PollRoute, poll_update, mark}
use mathlib.Core.Path.{subst}
use silverwind.External.{RegexEngine}
use silverwind.Route.{RouteConfig}
use silverwind.Config.{ApiService, AppConfig}
use silverwind.Middleware.{Cell}
use silverwind.HealthCheck.{
  mark_in, mark_services, record_answers, new_mark, set_mark, record_answer,
}

-- The mark that an answer calls for: alive for the status 200, dead for an error.
abbrev pub called_for : Outcome ℕ → Option Bool
called_for (ok status) = if status == 200 then some true else none
called_for (err e) = some false
called_for panic = none

called_for-new_mark : (answer : Outcome ℕ) → new_mark answer ≡ called_for answer
unfolding new_mark
called_for-new_mark (ok status) = refl
called_for-new_mark (err e) = refl
called_for-new_mark panic = refl

-- The mark after the answers, in their order: that of the last one for the endpoint that sets a
-- mark, or the mark before.
pub last_mark : String → List (String × Outcome ℕ) → Option Bool → Option Bool
last_mark endpoint [] old = old
last_mark endpoint ((e, answer) ∷ answers) old =
    last_mark endpoint answers
      (if str_eq endpoint e && is_some (called_for answer) then called_for answer else old)

-- The rounds of the loop on one route's router.
after_answers : List (String × Outcome ℕ) → Router → Router
after_answers [] router = router
after_answers (answer ∷ answers) router = after_answers answers (record_answer answer router)

abbrev marked : Option Bool → BaseRoute → BaseRoute
marked is_alive b = record b { is_alive = is_alive }

abbrev pub all_marked : List (String × Outcome ℕ) → List BaseRoute → List BaseRoute
all_marked answers routes = map (λ b. marked (last_mark b.endpoint answers b.is_alive) b) routes

mark-map :
    (e : String) (a : Bool) (xs : List BaseRoute)
    → mark e a xs ≡ map (λ b. marked (if str_eq b.endpoint e then some a else b.is_alive) b) xs
unfolding mark
mark-map e a [] = refl
mark-map e a (x ∷ xs) = elim (Bool-cases (str_eq x.endpoint e)) [
  | inl same ↦ rw same (ap (λ l. marked (some a) x ∷ l) (mark-map e a xs))
  | inr other ↦ rw other (ap (λ l. x ∷ l) (mark-map e a xs))
]

-- A target after one answer.
abbrev answered : String → Option Bool → BaseRoute → BaseRoute
answered e new b = marked (if str_eq b.endpoint e && is_some new then new else b.is_alive) b

unanswered : (e : String) (xs : List BaseRoute) → map (answered e none) xs ≡ xs
unanswered e [] = refl
unanswered e (x ∷ xs) = elim (Bool-cases (str_eq x.endpoint e)) [
  | inl same ↦ rw same (ap (λ l. x ∷ l) (unanswered e xs))
  | inr other ↦ rw other (ap (λ l. x ∷ l) (unanswered e xs))
]

marked-some :
    (e : String) (a : Bool) (xs : List BaseRoute)
    → map (λ b. marked (if str_eq b.endpoint e then some a else b.is_alive) b) xs
      ≡ map (answered e (some a)) xs
marked-some e a [] = refl
marked-some e a (x ∷ xs) = elim (Bool-cases (str_eq x.endpoint e)) [
  | inl same ↦ rw same (ap (λ l. marked (some a) x ∷ l) (marked-some e a xs))
  | inr other ↦ rw other (ap (λ l. x ∷ l) (marked-some e a xs))
]

with_routes : PollRoute → List BaseRoute → Router
with_routes p routes = Router.poll (record p { routes = routes })

set_mark-poll :
    (e : String) (new : Option Bool) (p : PollRoute)
    → set_mark e new (Router.poll p) ≡ with_routes p (map (answered e new) p.routes)
unfolding set_mark update_route_alive poll_update with_routes
set_mark-poll e none p = ap (with_routes p) (sym (unanswered e p.routes))
set_mark-poll e (some a) p = ap (with_routes p) (mark-map e a p.routes ∙ marked-some e a p.routes)

later_marks :
    (e : String) (answer : Outcome ℕ) (answers : List (String × Outcome ℕ)) (xs : List BaseRoute)
    → all_marked answers (map (answered e (called_for answer)) xs)
      ≡ all_marked ((e, answer) ∷ answers) xs
unfolding last_mark
later_marks e answer answers [] = refl
later_marks e answer answers (x ∷ xs) =
    ap (λ l. marked (last_mark x.endpoint ((e, answer) ∷ answers) x.is_alive) x ∷ l)
      (later_marks e answer answers xs)

no_marks : (xs : List BaseRoute) → all_marked [] xs ≡ xs
unfolding last_mark
no_marks [] = refl
no_marks (x ∷ xs) = ap (λ l. x ∷ l) (no_marks xs)

-- What the rounds of the loop make of a round-robin router.
after_answers-poll :
    (answers : List (String × Outcome ℕ)) (p : PollRoute)
    → after_answers answers (Router.poll p)
      ≡ Router.poll (record p { routes = all_marked answers p.routes })
unfolding after_answers record_answer with_routes
after_answers-poll [] p = ap (with_routes p) (sym (no_marks p.routes))
after_answers-poll ((e, answer) ∷ answers) p =
    ap (λ m. after_answers answers (set_mark e m (Router.poll p))) (called_for-new_mark answer)
    ∙ ap (after_answers answers) (set_mark-poll e (called_for answer) p)
    ∙ after_answers-poll answers
        (record p { routes = map (answered e (called_for answer)) p.routes })
    ∙ ap (with_routes p) (later_marks e answer answers p.routes)

module _ (engine : RegexEngine) where
  -- The first route of the identifier.
  abbrev find_in : String → List (RouteConfig engine) → Option (RouteConfig engine)
  find_in route_id [] = none
  find_in route_id (route ∷ routes) =
      if str_eq route.route_id route_id then some route else find_in route_id routes

  abbrev pub find_route : String → List (ℤ × ApiService engine) → Option (RouteConfig engine)
  find_route route_id [] = none
  find_route route_id ((port, service) ∷ services) =
      or_else (find_in route_id service.route_configs) (find_route route_id services)

  -- A route with another router.
  abbrev pub with_router : Router → RouteConfig engine → RouteConfig engine
  with_router router route = record route { router = router }

  mark_in-found :
      (id : String) (a : String × Outcome ℕ) (routes : List (RouteConfig engine))
      (route : RouteConfig engine)
      → find_in id routes ≡ some route
      → (routes' : List (RouteConfig engine)) × (mark_in engine id a routes ≡ some routes')
        × (find_in id routes' ≡ some (with_router (record_answer a route.router) route))
  unfolding mark_in
  mark_in-found id a [] route e = cc
  mark_in-found id a (r ∷ routes) route e = elim (Bool-cases (str_eq r.route_id id)) [
    | inl same ↦ (
      with_router (record_answer a r.router) r ∷ routes,
      rw same refl,
      rw same (
          ap (λ (x : RouteConfig engine). some (with_router (record_answer a x.router) x))
            (some-inj (rw same at e))),
    )
    | inr other ↦
        let (routes', marked_, found) = mark_in-found id a routes route (rw other at e) in
        (r ∷ routes', rw other (rw marked_ refl), rw other found)
  ]

  mark_in-none :
      (id : String) (a : String × Outcome ℕ) (routes : List (RouteConfig engine))
      → find_in id routes ≡ none
      → mark_in engine id a routes ≡ none
  unfolding mark_in
  mark_in-none id a [] e = refl
  mark_in-none id a (r ∷ routes) e = elim (Bool-cases (str_eq r.route_id id)) [
    | inl same ↦ absurd (none≢some (sym (rw same at e)))
    | inr other ↦ rw other (rw (mark_in-none id a routes (rw other at e)) refl)
  ]

  mark_services-found :
      (id : String) (a : String × Outcome ℕ) (services : List (ℤ × ApiService engine))
      (route : RouteConfig engine)
      → find_route id services ≡ some route
      → find_route id (mark_services engine id a services)
        ≡ some (with_router (record_answer a route.router) route)
  unfolding mark_services
  mark_services-found id a [] route e = cc
  mark_services-found id a ((port, service) ∷ services) route e =
      elim (Option-cases (find_in id service.route_configs)) [
        | inl not_here ↦
            rw (mark_in-none id a service.route_configs not_here, find_route)
              (rw not_here (mark_services-found id a services route (rw not_here at e)))
        | inr (r, here) ↦
            let (routes', marked_, found) = mark_in-found id a service.route_configs r here in
            rw (marked_, find_route)
              (rw found (
                ap (λ (x : RouteConfig engine). some (with_router (record_answer a x.router) x))
                  (some-inj (rw here at e))))
      ]

  -- A configuration whose lock is sound.
  abbrev sound : AppConfig engine → Cell (AppConfig engine)
  sound config = record { value = config; poisoned = false }

  record_answers-found :
      (poison_error id : String) (answers : List (String × Outcome ℕ)) (config : AppConfig engine)
      (route : RouteConfig engine)
      → find_route id config.api_service_config ≡ some route
      → find_route id
          (record_answers engine poison_error id answers (sound config)).0.value.api_service_config
        ≡ some (with_router (after_answers answers route.router) route)
  unfolding record_answers after_answers
  record_answers-found pe id [] config route e = e
  record_answers-found pe id (a ∷ answers) config route e =
      record_answers-found pe id answers _ (with_router (record_answer a route.router) route)
        (mark_services-found id a config.api_service_config route e)

  -- After the answers of a round of health checks were recorded in a configuration whose lock is
  -- sound, the first route of the identifier, if its router is a round-robin one, has each target
  -- with the mark of the last of its answers that calls for one: alive for the status 200, dead for
  -- an error. An answer of any other status calls for none, and a target without such an answer
  -- keeps its mark. The targets, the router's index and the route are otherwise as they were.
  pub record_answers-poll :
      (poison_error id : String) (answers : List (String × Outcome ℕ)) (c : Cell (AppConfig engine))
      (route : RouteConfig engine) (p : PollRoute)
      → c.poisoned ≡ false
      → find_route id c.value.api_service_config ≡ some route
      → route.router ≡ Router.poll p
      → find_route id (record_answers engine poison_error id answers c).0.value.api_service_config
        ≡ some (with_router (Router.poll (record p { routes = all_marked answers p.routes })) route)
  record_answers-poll pe id answers c route p intact e is_poll =
      subst
        (λ (d : Cell (AppConfig engine)).
          find_route id (record_answers engine pe id answers d).0.value.api_service_config
          ≡ some
              (with_router (Router.poll (record p { routes = all_marked answers p.routes })) route))
        (ap (λ b. record { value = c.value; poisoned = b }) (sym intact))
        (record_answers-found pe id answers c.value route e
          ∙ ap (λ r. some (with_router r route))
              (ap (after_answers answers) is_poll ∙ after_answers-poll answers p))
