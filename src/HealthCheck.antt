-- ===== src/HealthCheck.antt =====
-- rust-proxy/src/health_check/health_check_task.rs: what the answers of a round of health checks do
-- to the marks of a route's targets, with Requests for the round itself. An answer is the status of a
-- response, or the error that came instead of one.
mod Marks
pub mod Tasks
mod Requests
mod Tests
use silverwind.Prelude.{
  ℕ, zero, suc, ◌+◌, ◌-◌, ◌*◌, ◌/◌, ◌%◌, ◌^◌, ◌≤◌, ◌<◌, String, ◌≡◌, refl, sym, ap, ◌∙◌, ◌≢◌, ◌↔◌,
  ◌⊎◌, inl, inr, Bool, true, false, not, ◌&&◌, ◌||◌, Option, none, some, List, [], ◌∷◌, ◌++◌, map,
  arith, eq_iff, eq_refl, ltb, leb, str_eq, ◌==◌, if◌then◌else◌, Bool-cases, Option-cases, lt→ltb,
  le→ltb, le→leb, lt→leb, length, get_elem?, is_empty, any, all, select, replicate, length-append,
  get_elem?_lt, All, All-get_elem?, All-select, select-holds, ℤ, pos, negsuc, to_u32, as_i32,
  add_i32, sub_i32, lt_ℤ, le_ℤ, min_ℤ, add_i32_pos, sub_i32_pos, as_i32_pos, Outcome, ok, err,
  panic, ◌>>=◌, ok_or, Outcome-cases, Done, Eq, string_eq, ◌⧺◌, contains_char, strip_prefix,
  is_some, starts_with, split, decimal,
}
use silverwind.External.{RegexEngine}
use silverwind.Router.{Router, update_route_alive}
use silverwind.Middleware.{Cell}
use silverwind.Route.{RouteConfig}
use silverwind.Config.{AppConfig, ApiService}

-- The mark that an answer sets: only the status 200 marks a target alive and only an error marks it
-- dead.
unfoldable pub new_mark : Outcome ℕ → Option Bool
new_mark (ok status) = if status == 200 then some true else none
new_mark (err e) = some false
new_mark panic = none

set_mark : String → Option Bool → Router → Router
set_mark endpoint none router = router
set_mark endpoint (some is_alive) router = (update_route_alive endpoint is_alive router).0

-- One round of the loop, on the router of the route that it found.
unfoldable pub record_answer : String × Outcome ℕ → Router → Router
unfolding set_mark new_mark update_route_alive
record_answer (endpoint, answer) router = set_mark endpoint (new_mark answer) router

module _ (engine : RegexEngine) where
  -- The first route of the identifier, if there is one.
  mark_in :
      String → String × Outcome ℕ → List (RouteConfig engine) → Option (List (RouteConfig engine))
  unfolding record_answer
  mark_in route_id answer [] = none
  mark_in route_id answer (route ∷ routes) =
      let rest = mark_in route_id answer routes in
      if str_eq route.route_id route_id
      then some (record route { router = record_answer answer route.router } ∷ routes)
      else elim rest [ none ↦ none | some changed ↦ some (route ∷ changed) ]

  -- A route that is gone in the meantime is passed over.
  unfoldable pub mark_services :
      String → String × Outcome ℕ → List (ℤ × ApiService engine) → List (ℤ × ApiService engine)
  unfolding mark_in
  mark_services route_id answer [] = []
  mark_services route_id answer ((port, service) ∷ services) =
      let rest = mark_services route_id answer services in
      elim (mark_in route_id answer service.route_configs) [
        | none ↦ (port, service) ∷ rest
        | some routes ↦ (port, record service { route_configs = routes }) ∷ services
      ]

  -- The loop over the answers, in the order in which they come. Each takes the lock.
  unfoldable pub record_answers :
      String
      → String
      → List (String × Outcome ℕ)
      → Cell (AppConfig engine)
      → Cell (AppConfig engine) × Outcome Done
  unfolding mark_services
  record_answers poison_error route_id [] c = (c, ok tt)
  record_answers poison_error route_id (answer ∷ answers) c =
      let rest = record_answers poison_error route_id answers (record c {
        value = record c.value {
          api_service_config = mark_services route_id answer c.value.api_service_config;
        };
      }) in
      if c.poisoned then (c, err ("Mutex error: " ⧺ poison_error)) else rest
