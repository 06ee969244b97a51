-- ===== src/Router/Base.antt =====
-- rust-proxy/src/vojo/router.rs: a route's target, and what all kinds of routers do with the
-- targets' health.
use silverwind.Prelude.{
  ℕ, zero, suc, ◌+◌, ◌<◌, String, ◌≡◌, refl, ap, inl, inr, Bool, true, false, ◌||◌, Option, none,
  some, List, [], ◌∷◌, arith, if◌then◌else◌, Bool-cases, length, get_elem?, select, get_elem?_lt,
  Outcome, ok, panic, ◌>>=◌, string_eq, starts_with,
}

pub record BaseRoute : Type 0 where
  pub endpoint : String
  pub is_alive : Option Bool

pub record StaticFileRoute : Type 0 where
  pub doc_root : String

-- RouterDestination of rust-proxy/src/proxy/proxy_trait.rs.
pub data RouterDestination : Type 0 where
  http : BaseRoute → RouterDestination
  file : StaticFileRoute → RouterDestination
  grpc : BaseRoute → RouterDestination

unfoldable pub to_destination : BaseRoute → RouterDestination
unfolding starts_with
to_destination b =
    if starts_with b.endpoint "grpc://" then RouterDestination.grpc b else RouterDestination.http b

-- `is_alive == Some(true)`, and `is_alive.is_none()`.
abbrev pub is_true : Option Bool → Bool
is_true none = false
is_true (some b) = b

abbrev pub is_none : Option Bool → Bool
is_none none = true
is_none (some b) = false

-- `list[i]`, which panics out of range.
unfoldable pub at : {A : Type 0} → List A → ℕ → Outcome A
at xs i = elim (get_elem? xs i) [ none ↦ panic | some a ↦ ok a ]

module _ {A : Type 0} (alive : A → Option Bool) where
  -- `routes.iter().any(|r| r.is_alive.is_none())`.
  unfoldable pub has_unconfigured : List A → Bool
  has_unconfigured [] = false
  has_unconfigured (x ∷ xs) = is_none (alive x) || has_unconfigured xs

  -- `routes.iter().enumerate().filter(alive).map(index)`, counting from `i`.
  unfoldable pub alive_from : ℕ → List A → List ℕ
  alive_from i [] = []
  alive_from i (x ∷ xs) =
      let rest = alive_from (suc i) xs in if is_true (alive x) then i ∷ rest else rest

  unfoldable pub alive_indices : List A → List ℕ
  unfolding alive_from
  alive_indices xs = alive_from 0 xs

shift : (i d : ℕ) → suc i + d ≡ i + suc d
shift i d = omega arith

from_zero : (i : ℕ) → i ≡ i + 0
from_zero i = omega arith

module _ {A : Type 0} (alive : A → Option Bool) where
  -- The targets that a router chooses from: all while one of them was never checked, and those
  -- marked alive when each was.
  abbrev pub alive_ones : List A → List A
  alive_ones xs = select (λ x. is_true (alive x)) xs

  abbrev pub served : List A → List A
  served xs = if has_unconfigured alive xs then xs else alive_ones xs

  alive_from-select :
      (i j : ℕ) (x : A) (xs : List A)
      → get_elem? (alive_ones xs) j ≡ some x
      → (d : ℕ) × (get_elem? (alive_from alive i xs) j ≡ some (i + d)) × (get_elem? xs d ≡ some x)
  unfolding alive_from
  alive_from-select i j x [] h = cc
  alive_from-select i j x (y ∷ xs) h = elim (Bool-cases (is_true (alive y))) [
    | inl up ↦ first (λ j' h'. alive_from-select (suc i) j' x xs h') j (rw up at h) up
    | inr down ↦ skip (alive_from-select (suc i) j x xs (rw down at h)) down
  ]
    where
      skip :
          (d : ℕ) × (get_elem? (alive_from alive (suc i) xs) j ≡ some (suc i + d))
            × (get_elem? xs d ≡ some x)
          → is_true (alive y) ≡ false
          → (d : ℕ) × (get_elem? (alive_from alive i (y ∷ xs)) j ≡ some (i + d))
            × (get_elem? (y ∷ xs) d ≡ some x)
      skip (d, e, found) down = (suc d, rw down (rw e (ap some (shift i d))), found)

      first :
          ((j : ℕ)
            → get_elem? (alive_ones xs) j ≡ some x
            → (d : ℕ) × (get_elem? (alive_from alive (suc i) xs) j ≡ some (suc i + d))
              × (get_elem? xs d ≡ some x))
          → (j : ℕ) → get_elem? (y ∷ alive_ones xs) j ≡ some x
          → is_true (alive y) ≡ true
          → (d : ℕ) × (get_elem? (alive_from alive i (y ∷ xs)) j ≡ some (i + d))
            × (get_elem? (y ∷ xs) d ≡ some x)
      first ih zero h up = (0, rw up (ap some (from_zero i)), h)
      first ih (suc j) h up =
          let (d, e, found) = ih j h in (suc d, rw up (rw e (ap some (shift i d))), found)

  length-alive_from :
      (i : ℕ) (xs : List A) → length (alive_from alive i xs) ≡ length (alive_ones xs)
  unfolding alive_from
  length-alive_from i [] = refl
  length-alive_from i (x ∷ xs) = ground (arith, length-alive_from (suc i) xs)

  pub length-alive_indices :
      (xs : List A) → length (alive_indices alive xs) ≡ length (alive_ones xs)
  unfolding alive_indices
  length-alive_indices xs = length-alive_from 0 xs

  -- Going through an alive index is choosing among the alive ones.
  pub at-alive_indices :
      (j : ℕ) (xs : List A)
      → j < length (alive_ones xs)
      → (at (alive_indices alive xs) j >>= λ i. at xs i) ≡ at (alive_ones xs) j
  unfolding at alive_indices
  at-alive_indices j xs h =
      let (x, chosen) = get_elem?_lt (alive_ones xs) j h in
      let (d, index, found) = alive_from-select 0 j x xs chosen in
      let same : 0 + d ≡ d = omega arith in
      rw (chosen, at) (rw (index, at) (rw same (rw (found, at))))

pub at_lt :
    {A : Type 0} (xs : List A) (i : ℕ)
    → i < length xs
    → (x : A) × (at xs i ≡ ok x) × (get_elem? xs i ≡ some x)
unfolding at
at_lt xs i h = let (x, found) = get_elem?_lt xs i h in (x, rw (found, at), found)
