-- ===== src/HealthCheck/Tasks.antt =====
-- rust-proxy/src/health_check/health_check_task.rs: the tasks that check the targets of the routes,
-- brought in line with the configuration.
mod Keys
mod Tests
use silverwind.Prelude.{
  ℕ, zero, suc, ◌+◌, ◌-◌, ◌*◌, ◌/◌, ◌%◌, ◌^◌, ◌≤◌, ◌<◌, String, ◌≡◌, refl, sym, ap, ◌∙◌, ◌≢◌, ◌↔◌,
  ◌⊎◌, inl, inr, Bool, true, false, not, ◌&&◌, ◌||◌, Option, none, some, List, [], ◌∷◌, ◌++◌, map,
  arith, eq_iff, eq_refl, ltb, leb, str_eq, ◌==◌, if◌then◌else◌, Bool-cases, Option-cases, lt→ltb,
  le→ltb, le→leb, lt→leb, length, get_elem?, is_empty, any, all, select, replicate, length-append,
  get_elem?_lt, All, All-get_elem?, All-select, select-holds, ℤ, pos, negsuc, to_u32, as_i32,
  add_i32, sub_i32, lt_ℤ, le_ℤ, min_ℤ, add_i32_pos, sub_i32_pos, as_i32_pos, Outcome, ok, err,
  panic, ◌>>=◌, ok_or, Outcome-cases, Done, or_else, and_then, map_err, ok-inj, some-inj, none≢some,
  Eq, string_eq, ◌⧺◌, contains_char, strip_prefix, is_some, starts_with, split, decimal, join,
  ends_with, contains_str,
}
use silverwind.External.{RegexEngine}
use silverwind.Prelude.Assoc.{insert}
use silverwind.Prelude.Maps.{contains, eq_by, pair_eq, list_eq}
use silverwind.Router.Base.{BaseRoute}
use silverwind.Router.{get_all_route}
use silverwind.Middleware.{Cell}
use silverwind.Route.{
  RouteConfig, HealthCheckType, http_get, redis, mysql, HttpHealthCheckParam, BaseHealthCheckParam,
  LivenessConfig,
}
use silverwind.Config.{AppConfig, ApiService, int_eq}

pub record TaskKey : Type 0 where
  pub route_id : String
  pub health_check_type : HealthCheckType
  pub endpoint_list : List String
  pub min_liveness_count : ℤ

-- The derived equality, field by field.
abbrev parts_of : HealthCheckType → String × (String × (ℤ × ℤ))
parts_of (http_get p) =
    ("http_get", (p.path, (p.base_health_check_param.timeout, p.base_health_check_param.interval)))
parts_of (redis p) = ("redis", ("", (p.timeout, p.interval)))
parts_of (mysql p) = ("mysql", ("", (p.timeout, p.interval)))

pub type_of : String × (String × (ℤ × ℤ)) → HealthCheckType
type_of (kind, (path, (timeout, interval))) =
    if str_eq kind "redis"
    then redis (record { timeout = timeout; interval = interval })
    else if str_eq kind "mysql"
    then mysql (record { timeout = timeout; interval = interval })
    else http_get (record {
      base_health_check_param = record { timeout = timeout; interval = interval };
      path = path;
    })

pub type_of-parts_of : (t : HealthCheckType) → type_of (parts_of t) ≡ t
unfolding type_of
type_of-parts_of (http_get p) = refl
type_of-parts_of (redis p) = refl
type_of-parts_of (mysql p) = refl

abbrev type_eq : Eq HealthCheckType
type_eq =
    eq_by parts_of type_of type_of-parts_of
      (pair_eq string_eq (pair_eq string_eq (pair_eq int_eq int_eq)))

instance abbrev pub key_eq : Eq TaskKey
key_eq =
    eq_by
      (λ (k : TaskKey).
        (k.route_id, (k.health_check_type, (k.endpoint_list, k.min_liveness_count))))
      (λ p. record {
        route_id = p.0;
        health_check_type = p.1.0;
        endpoint_list = p.1.1.0;
        min_liveness_count = p.1.1.1;
      })
      (λ k. refl) (pair_eq string_eq (pair_eq type_eq (pair_eq (list_eq string_eq) int_eq)))

-- The task map, the counter of the ids, and the ids of the tasks that the timer runs.
pub record HealthCheck : Type 0 where
  pub task_id_map : List (TaskKey × ℕ)
  pub current_id : ℕ
  pub running : List ℕ

module _ (engine : RegexEngine) where
  get_endpoint_list : RouteConfig engine → List String
  unfolding get_all_route
  get_endpoint_list route = endpoints (get_all_route route.router)
    where
      endpoints : Outcome (List BaseRoute) → List String
      endpoints (ok routes) = map (λ (b : BaseRoute). b.endpoint) routes
      endpoints _ = []

  key_for : RouteConfig engine → Option HealthCheckType → Option LivenessConfig → Option TaskKey
  unfolding get_endpoint_list
  key_for route (some t) (some l) = some (record {
    route_id = route.route_id;
    health_check_type = t;
    endpoint_list = get_endpoint_list route;
    min_liveness_count = l.min_liveness_count;
  })
  key_for route _ _ = none

  -- The key of a route, if the route is checked.
  unfoldable pub task_key : RouteConfig engine → Option TaskKey
  unfolding key_for
  task_key route = key_for route route.health_check route.liveness_config

  add :
      Option TaskKey
      → RouteConfig engine
      → List (TaskKey × RouteConfig engine)
      → List (TaskKey × RouteConfig engine)
  unfolding insert
  add none route list = list
  add (some k) route list = insert k route list

  of_service :
      List (RouteConfig engine)
      → List (TaskKey × RouteConfig engine)
      → List (TaskKey × RouteConfig engine)
  unfolding add task_key
  of_service [] list = list
  of_service (route ∷ routes) list = of_service routes (add (task_key route) route list)

  unfoldable pub route_list :
      List (ℤ × ApiService engine)
      → List (TaskKey × RouteConfig engine)
      → List (TaskKey × RouteConfig engine)
  unfolding of_service
  route_list [] list = list
  route_list ((port, service) ∷ services) list =
      route_list services (of_service service.route_configs list)

-- `remove` and `start` are whether the timer removes the task of an id and starts one for a route.
module _ (engine : RegexEngine) (remove : ℕ → Bool) (start : ℕ → RouteConfig engine → Bool) where
  -- A task stays if its route does, or if it could not be removed.
  kept : List (TaskKey × RouteConfig engine) → TaskKey × ℕ → Bool
  unfolding contains
  kept routes (k, id) = contains k routes || not (remove id)

  retained : List (TaskKey × RouteConfig engine) → HealthCheck → HealthCheck
  unfolding kept contains
  retained routes h = record h {
    task_id_map = select (kept routes) h.task_id_map;
    running =
        select
          (λ id. not (remove id && any (λ x. id == x.1 && not (contains x.0 routes)) h.task_id_map))
          h.running;
  }

  -- An id is used up even if no task was started.
  submitted : TaskKey → RouteConfig engine → HealthCheck → HealthCheck
  unfolding insert
  submitted k route h =
      let next = (h.current_id + 1) % 2 ^ 64 in
      if start h.current_id route
      then record {
        task_id_map = insert k h.current_id h.task_id_map;
        current_id = next;
        running = h.current_id ∷ h.running;
      }
      else record h { current_id = next }

  considered : List (TaskKey × ℕ) → TaskKey → RouteConfig engine → HealthCheck → HealthCheck
  unfolding contains submitted
  considered old_map k route h = if contains k old_map then h else submitted k route h

  submit_all : List (TaskKey × ℕ) → List (TaskKey × RouteConfig engine) → HealthCheck → HealthCheck
  unfolding considered
  submit_all old_map [] h = h
  submit_all old_map ((k, route) ∷ routes) h =
      submit_all old_map routes (considered old_map k route h)

  unfoldable pub do_health_check :
      String → Cell (AppConfig engine) → HealthCheck → HealthCheck × Outcome Done
  unfolding route_list retained submit_all
  do_health_check poison_error shared_data h =
      let routes = route_list engine shared_data.value.api_service_config [] in
      let rest = retained routes h in
      if shared_data.poisoned
      then (h, err ("Mutex error: " ⧺ poison_error))
      else (submit_all rest.task_id_map routes rest, ok tt)
