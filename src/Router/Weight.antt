-- ===== src/Router/Weight.antt =====
-- rust-proxy/src/vojo/router.rs: the weighted router. `pick n` is the value of
-- `random_range(0..n)`. The loops over the alive indices are loops over the items that pass the
-- test for being alive, in the same order.
pub mod Cycle
mod Tests
use silverwind.Prelude.{
  ℕ, zero, suc, ◌+◌, ◌-◌, ◌*◌, ◌/◌, ◌%◌, ◌^◌, ◌≤◌, ◌<◌, String, ◌≡◌, refl, sym, ap, ◌∙◌, ◌≢◌, ◌↔◌,
  ◌⊎◌, inl, inr, Bool, true, false, not, ◌&&◌, ◌||◌, Option, none, some, List, [], ◌∷◌, ◌++◌, map,
  arith, eq_iff, eq_refl, ltb, leb, str_eq, ◌==◌, if◌then◌else◌, Bool-cases, Option-cases, lt→ltb,
  le→ltb, le→leb, lt→leb, length, get_elem?, is_empty, any, all, select, replicate, length-append,
  get_elem?_lt, All, All-get_elem?, All-select, select-holds, ℤ, pos, negsuc, to_u32, as_i32,
  add_i32, sub_i32, lt_ℤ, le_ℤ, min_ℤ, add_i32_pos, sub_i32_pos, as_i32_pos, Outcome, ok, err,
  panic, ◌>>=◌, ok_or, Outcome-cases, Eq, string_eq, ◌⧺◌, contains_char, strip_prefix, is_some,
  starts_with, split, decimal,
}
use silverwind.Router.Base.{BaseRoute, has_unconfigured, alive_indices, at, is_true}

pub record WeightedRouteItem : Type 0 where
  pub endpoint : String
  pub is_alive : Option Bool
  pub weight : ℤ
  pub index : ℤ

abbrev pub alive : WeightedRouteItem → Option Bool
alive r = r.is_alive

abbrev pub get_base_route : WeightedRouteItem → BaseRoute
get_base_route r = record { endpoint = r.endpoint; is_alive = r.is_alive }

-- `index >= weight`.
abbrev pub is_reached : WeightedRouteItem → Bool
is_reached r = le_ℤ r.weight r.index

abbrev raise : WeightedRouteItem → WeightedRouteItem
raise r = record r { index = add_i32 r.index (pos 1) }

module _ (in_play : Option Bool → Bool) where
  -- All items in play have `index >= weight`.
  unfoldable pub all_reached : List WeightedRouteItem → Bool
  all_reached [] = true
  all_reached (r ∷ rs) = (not (in_play r.is_alive) || is_reached r) && all_reached rs

  unfoldable pub reset : List WeightedRouteItem → List WeightedRouteItem
  reset [] = []
  reset (r ∷ rs) = (if in_play r.is_alive then record r { index = pos 0 } else r) ∷ reset rs

  -- The first item in play with `index < weight` is raised and served.
  unfoldable pub take_first : List WeightedRouteItem → List WeightedRouteItem × Outcome BaseRoute
  take_first [] = ([], err "WeightRoute get route error")
  take_first (r ∷ rs) =
      let (rs', answer) = take_first rs in
      if in_play r.is_alive && not (is_reached r)
      then (raise r ∷ rs, ok (get_base_route r))
      else (r ∷ rs', answer)

  unfoldable pub serve : List WeightedRouteItem → List WeightedRouteItem × Outcome BaseRoute
  unfolding all_reached reset take_first
  serve rs = take_first (if all_reached rs then reset rs else rs)

raise_at : List WeightedRouteItem → ℕ → List WeightedRouteItem × Outcome BaseRoute
raise_at [] i = ([], panic)
raise_at (r ∷ rs) zero = (raise r ∷ rs, ok (get_base_route r))
raise_at (r ∷ rs) (suc i) = let (rs', answer) = raise_at rs i in (r ∷ rs', answer)

abbrev pub everyone : Option Bool → Bool
everyone a = true

module _ (pick : ℕ → ℕ) where
  unfoldable pub weigh : List WeightedRouteItem → List WeightedRouteItem × Outcome BaseRoute
  unfolding serve raise_at
  weigh routes =
      if is_empty routes
      then (routes, err "No routes available")
      else if has_unconfigured alive routes
      then serve everyone routes
      else if is_empty (alive_indices alive routes)
      then raise_at routes (pick (length routes))
      else serve is_true routes

unfoldable pub weight_update : String → Bool → List WeightedRouteItem → List WeightedRouteItem
weight_update endpoint is_alive [] = []
weight_update endpoint is_alive (x ∷ xs) =
    (if str_eq x.endpoint endpoint then record x { is_alive = some is_alive } else x)
    ∷ weight_update endpoint is_alive xs
