-- ===== src/Router/Poll/Tests.antt =====
-- The theorems on the round-robin and the random router at small lists of targets.
use silverwind.Prelude.{
  ℕ, String, ◌≡◌, refl, Bool, true, false, Option, none, some, List, [], ◌∷◌, arith, get_elem?, ok,
  string_eq,
}
use silverwind.Router.Base.{BaseRoute, at, has_unconfigured, alive_indices}
use silverwind.Router.Poll.{advance, mark, poll, random}
use silverwind.Router.Poll.Rotation.{after, poll_rotates}
use silverwind.Router.Poll.Health.{IsOther, failed_not_served}

abbrev target : String → Option Bool → BaseRoute
target e a = record { endpoint = e; is_alive = a }

abbrev unchecked : List BaseRoute
unchecked = target "a" none ∷ target "b" (some false) ∷ target "c" none ∷ []

abbrev checked : List BaseRoute
checked = target "a" (some true) ∷ target "b" (some true) ∷ target "c" (some false) ∷ []

abbrev zero_of : ℕ → ℕ
zero_of n = 0

second_call :
    (poll zero_of (poll zero_of (record { current_index = 0; routes = checked })).0).1
    ≡ ok (target "a" (some true))
unfolding poll at has_unconfigured alive_indices advance
second_call = refl

poll_rotates_example :
    (x : BaseRoute) × ((poll zero_of
        (after zero_of 3 (record { current_index = 1; routes = unchecked }))).1
      ≡ ok x)
    × (get_elem? unchecked 2 ≡ some x)
unfolding has_unconfigured
poll_rotates_example =
    poll_rotates zero_of 3 (record { current_index = 1; routes = unchecked }) (omega arith)

failed_not_served_example :
    IsOther "a" (poll zero_of (record { current_index = 0; routes = mark "a" false checked })).1
    × IsOther "a" (random zero_of (record { routes = mark "a" false checked }))
unfolding mark has_unconfigured
failed_not_served_example = failed_not_served zero_of (λ n h. h) "a" checked 0 refl refl
