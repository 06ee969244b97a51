-- ===== src/Router/Weight/Tests.antt =====
-- The weighted router on two items.
use silverwind.Prelude.{
  String, ◌≡◌, refl, Bool, true, Option, none, some, List, [], ◌∷◌, map, arith, add_i32, ok,
  string_eq,
}
use silverwind.Router.Base.{BaseRoute}
use silverwind.Router.Weight.{everyone, all_reached, take_first, serve}
use silverwind.Router.Weight.Cycle.{Share, share, item, serves, serves_cycle}

abbrev shares : List Share
shares = share "a" none 0 2 ∷ share "b" (some true) 1 0 ∷ share "c" none 0 1 ∷ []

abbrev base : String → Option Bool → BaseRoute
base e a = record { endpoint = e; is_alive = a }

served_in_order :
    serves everyone 3 (map item shares)
    ≡ ok (base "a" none) ∷ ok (base "a" none) ∷ ok (base "c" none) ∷ []
unfolding serves serve all_reached take_first add_i32
served_in_order = refl

serves_cycle_example :
    serves everyone 3 (map item shares)
    ≡ ok (base "a" none) ∷ ok (base "a" none) ∷ ok (base "c" none) ∷ []
serves_cycle_example = serves_cycle everyone shares (omega arith)
