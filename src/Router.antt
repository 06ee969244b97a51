-- ===== src/Router.antt =====
-- rust-proxy/src/vojo/router.rs: the router of a route, as a choice of its kinds. Its parts are
-- Base (targets), Poll (round-robin and random), Weight and HeaderRule.
pub mod Base
pub mod Poll
pub mod Weight
pub mod HeaderRule
use silverwind.Prelude.{
  ℕ, zero, suc, ◌+◌, ◌-◌, ◌*◌, ◌/◌, ◌%◌, ◌^◌, ◌≤◌, ◌<◌, String, ◌≡◌, refl, sym, ap, ◌∙◌, ◌≢◌, ◌↔◌,
  ◌⊎◌, inl, inr, Bool, true, false, not, ◌&&◌, ◌||◌, Option, none, some, List, [], ◌∷◌, ◌++◌, map,
  arith, eq_iff, eq_refl, ltb, leb, str_eq, ◌==◌, if◌then◌else◌, Bool-cases, Option-cases, lt→ltb,
  le→ltb, le→leb, lt→leb, length, get_elem?, is_empty, any, all, select, replicate, length-append,
  get_elem?_lt, All, All-get_elem?, All-select, select-holds, ℤ, pos, negsuc, to_u32, as_i32,
  add_i32, sub_i32, lt_ℤ, le_ℤ, min_ℤ, add_i32_pos, sub_i32_pos, as_i32_pos, Outcome, ok, err,
  panic, ◌>>=◌, ok_or, Outcome-cases, Eq, string_eq, ◌⧺◌, contains_char, strip_prefix, is_some,
  starts_with, split, decimal,
}
use silverwind.External.{Http, RegexEngine}
use silverwind.Router.Base.{BaseRoute, StaticFileRoute, RouterDestination, to_destination}
use silverwind.Router.Poll
use silverwind.Router.Poll.{PollRoute, RandomRoute, poll_update, random_update}
use silverwind.Router.Weight.{WeightedRouteItem, weigh, weight_update}
use silverwind.Router.Weight
use silverwind.Router.HeaderRule.{HeaderRoutingRule, header_route, header_update}
use silverwind.Router.HeaderRule

pub data Router : Type 0 where
  static_file : StaticFileRoute → Router
  poll : PollRoute → Router
  header_based : List HeaderRoutingRule → Router
  random : RandomRoute → Router
  weight_based : List WeightedRouteItem → Router

abbrev destination : Outcome BaseRoute → Outcome RouterDestination
destination answer = do b ← answer; ok (to_destination b)

module _ (http : Http) (engine : RegexEngine) (pick : ℕ → ℕ) where
  unfoldable pub get_route : http.HeaderMap → Router → Router × Outcome RouterDestination
  get_route headers (static_file s) = (static_file s, ok (RouterDestination.file s))
  get_route headers (Router.poll p) =
      let (p', answer) = Poll.poll pick p in (Router.poll p', destination answer)
  get_route headers (header_based rs) =
      (header_based rs, destination (header_route http engine headers rs))
  get_route headers (Router.random r) = (Router.random r, destination (Poll.random pick r))
  get_route headers (weight_based rs) =
      let (rs', answer) = weigh pick rs in (weight_based rs', destination answer)

unfoldable pub get_all_route : Router → Outcome (List BaseRoute)
get_all_route (static_file s) = err "StaticFile router can not get route"
get_all_route (Router.poll p) = ok p.routes
get_all_route (header_based rs) = ok (map HeaderRule.get_base_route rs)
get_all_route (Router.random r) = ok r.routes
get_all_route (weight_based rs) = ok (map Weight.get_base_route rs)

unfoldable pub update_route_alive : String → Bool → Router → Router × Outcome (Unit {0})
update_route_alive endpoint is_alive (static_file s) =
    (static_file s, err "StaticFile router can not get route")
update_route_alive endpoint is_alive (Router.poll p) =
    (Router.poll (poll_update endpoint is_alive p), ok tt)
update_route_alive endpoint is_alive (header_based rs) =
    (header_based (header_update endpoint is_alive rs), ok tt)
update_route_alive endpoint is_alive (Router.random r) =
    (Router.random (random_update endpoint is_alive r), ok tt)
update_route_alive endpoint is_alive (weight_based rs) =
    (weight_based (weight_update endpoint is_alive rs), ok tt)
