-- ===== src/Router/Poll.antt =====
-- rust-proxy/src/vojo/router.rs: the round-robin router and the random one.
-- The value of `random_range(0..n)` is `pick n`. The index of a PollRoute starts at 0 and is only
-- raised and set to 0, so the `i128` is a natural number that cannot overflow.
pub mod Rotation
pub mod Health
pub mod Steady
mod Tests
use silverwind.Prelude.{
  ℕ, zero, suc, ◌+◌, ◌-◌, ◌*◌, ◌/◌, ◌%◌, ◌^◌, ◌≤◌, ◌<◌, String, ◌≡◌, refl, sym, ap, ◌∙◌, ◌≢◌, ◌↔◌,
  ◌⊎◌, inl, inr, Bool, true, false, not, ◌&&◌, ◌||◌, Option, none, some, List, [], ◌∷◌, ◌++◌, map,
  arith, eq_iff, eq_refl, ltb, leb, str_eq, ◌==◌, if◌then◌else◌, Bool-cases, Option-cases, lt→ltb,
  le→ltb, le→leb, lt→leb, length, get_elem?, is_empty, any, all, select, replicate, length-append,
  get_elem?_lt, All, ℤ, pos, negsuc, to_u32, as_i32, add_i32, sub_i32, lt_ℤ, le_ℤ, min_ℤ,
  add_i32_pos, sub_i32_pos, as_i32_pos, Outcome, ok, err, panic, ◌>>=◌, ok_or, Outcome-cases, Eq,
  string_eq, ◌⧺◌, contains_char, strip_prefix, is_some, starts_with, split, decimal,
}
use silverwind.Router.Base.{BaseRoute, has_unconfigured, alive_indices, at}

pub record PollRoute : Type 0 where
  pub current_index : ℕ
  pub routes : List BaseRoute

pub record RandomRoute : Type 0 where
  pub routes : List BaseRoute

abbrev pub alive : BaseRoute → Option Bool
alive b = b.is_alive

-- `current_index += 1; if current_index >= len { current_index = 0 }`.
unfoldable pub advance : ℕ → ℕ → ℕ
advance len i = if leb len (i + 1) then 0 else i + 1

-- `update_route_alive`, which is the same loop for every kind of router.
unfoldable pub mark : String → Bool → List BaseRoute → List BaseRoute
mark endpoint is_alive [] = []
mark endpoint is_alive (x ∷ xs) =
    (if str_eq x.endpoint endpoint then record x { is_alive = some is_alive } else x)
    ∷ mark endpoint is_alive xs

module _ (pick : ℕ → ℕ) where
  poll_alive : PollRoute → PollRoute × Outcome BaseRoute
  poll_alive p =
      let indices = alive_indices alive p.routes in
      let i = advance (length indices) p.current_index in
      if is_empty indices then (p, at p.routes (pick (length p.routes))) else (
        record p { current_index = i },
        (do selected_index ← at indices i; at p.routes selected_index),
      )

  poll_any : PollRoute → PollRoute × Outcome BaseRoute
  poll_any p =
      let i = advance (length p.routes) p.current_index in
      (record p { current_index = i }, at p.routes i)

  unfoldable pub poll : PollRoute → PollRoute × Outcome BaseRoute
  unfolding poll_any poll_alive
  poll p =
      if is_empty p.routes
      then (p, err "No routes available")
      else if has_unconfigured alive p.routes
      then poll_any p
      else poll_alive p

  random_alive : List BaseRoute → List ℕ → Outcome BaseRoute
  random_alive routes indices =
      if is_empty indices
      then at routes (pick (length routes))
      else (do i ← at indices (pick (length indices)); at routes i)

  unfoldable pub random : RandomRoute → Outcome BaseRoute
  unfolding random_alive
  random r =
      if is_empty r.routes
      then err "No routes available"
      else if has_unconfigured alive r.routes
      then at r.routes (pick (length r.routes))
      else random_alive r.routes (alive_indices alive r.routes)

unfoldable pub poll_update : String → Bool → PollRoute → PollRoute
poll_update endpoint is_alive p = record p { routes = mark endpoint is_alive p.routes }

unfoldable pub random_update : String → Bool → RandomRoute → RandomRoute
random_update endpoint is_alive r = record r { routes = mark endpoint is_alive r.routes }

-- `RandomRoute::new`.
unfoldable pub new_random : List String → RandomRoute
new_random backends = record {
  routes = map (λ endpoint. record { endpoint = endpoint; is_alive = none }) backends;
}
