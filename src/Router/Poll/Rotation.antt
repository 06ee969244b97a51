-- ===== src/Router/Poll/Rotation.antt =====
-- The round-robin router takes its targets in turn.
use silverwind.Prelude.{
  ℕ, zero, suc, ◌+◌, ◌%◌, ◌≤◌, ◌<◌, ◌≡◌, refl, inl, inr, true, false, some, List, [], ◌∷◌, arith,
  Bool-cases, length, get_elem?, is_empty, ok, string_eq,
}
use silverwind.Router.Base.{
  BaseRoute, has_unconfigured, alive_indices, at, served, alive_ones, at_lt, at-alive_indices,
  length-alive_indices,
}
use silverwind.Router.Poll.{PollRoute, alive, advance, poll}
use native.Mathlib.Nat.{mod-eq_of_lt, mod-lt, mod-add-mod, add-zero}

advance-mod : (n i : ℕ) → i < n → advance n i ≡ (i + 1) % n
unfolding advance
advance-mod n i h = grind arith

not_empty : {A : Type 0} (xs : List A) (i : ℕ) → i < length xs → is_empty xs ≡ false
not_empty [] i h = elim h [ ]
not_empty (x ∷ xs) i h = refl

length-alive_ones : (xs : List BaseRoute) → length (alive_ones alive xs) ≤ length xs
length-alive_ones [] = omega arith
length-alive_ones (x ∷ xs) = ground (arith, length-alive_ones xs)

module _ (pick : ℕ → ℕ) where
  any_next :
      (p : PollRoute)
      → has_unconfigured alive p.routes ≡ true
      → p.current_index < length p.routes
      → let next = (p.current_index + 1) % length p.routes in
        poll pick p ≡ (record p { current_index = next }, at p.routes next)
  unfolding poll
  any_next p new h = rw new (
      rw (not_empty p.routes p.current_index h)
        (rw (advance-mod (length p.routes) p.current_index h)))

  alive-next :
      (p : PollRoute)
      → has_unconfigured alive p.routes ≡ false
      → p.current_index < length (alive_ones alive p.routes)
      → let next = (p.current_index + 1) % length (alive_ones alive p.routes) in
        poll pick p ≡ (record p { current_index = next }, at (alive_ones alive p.routes) next)
  unfolding poll
  alive-next p known h =
      let n : length (alive_indices alive p.routes) ≡ length (alive_ones alive p.routes) =
        length-alive_indices alive p.routes in
      rw known (
        rw (not_empty p.routes p.current_index (omega (arith, length-alive_ones p.routes))) (
          rw (not_empty (alive_indices alive p.routes) p.current_index (omega arith)) (
            rw n (
              rw (advance-mod (length (alive_ones alive p.routes)) p.current_index h) (
                rw (
                  at-alive_indices alive
                    ((p.current_index + 1) % length (alive_ones alive p.routes)) p.routes
                    (in_range p.current_index (length (alive_ones alive p.routes)) h)))))))
    where
      in_range : (i n : ℕ) → i < n → (i + 1) % n < n
      in_range i n h = mod-lt (i + 1) (omega arith)

  -- A call raises the index by one modulo the number of targets that the router chooses from, and
  -- answers with the target there; those are all targets while one of them was never checked, and
  -- otherwise those marked alive.
  poll-next :
      (p : PollRoute)
      → p.current_index < length (served alive p.routes)
      → let next = (p.current_index + 1) % length (served alive p.routes) in
        poll pick p ≡ (record p { current_index = next }, at (served alive p.routes) next)
  poll-next p h = elim (Bool-cases (has_unconfigured alive p.routes)) [
    | inl new ↦ rw new (any_next p new (rw new at h))
    | inr known ↦ rw known (alive-next p known (rw known at h))
  ]

  -- The router after `k` calls.
  unfoldable pub after : ℕ → PollRoute → PollRoute
  after zero p = p
  after (suc k) p = (poll pick (after k p)).0

  index_after :
      (k : ℕ) (p : PollRoute)
      → p.current_index < length (served alive p.routes)
      → after k p
        ≡ record p { current_index = (p.current_index + k) % length (served alive p.routes) }
  unfolding after
  index_after zero p h = rw (add-zero, mod-eq_of_lt h)
  index_after (suc k) p h =
      let n : ℕ = length (served alive p.routes) in
      let below : (p.current_index + k) % n < n = mod-lt (p.current_index + k) (omega arith) in
      rw (index_after k p h, after)
        (rw (poll-next (record p { current_index = (p.current_index + k) % n }) below)
          (rw (mod_step (p.current_index + k) n) (rw (regroup p.current_index k))))
    where
      mod_step : (a n : ℕ) → (a % n + 1) % n ≡ (a + 1) % n
      mod_step a n = mod-add-mod a n 1

      regroup : (i k : ℕ) → i + suc k ≡ i + k + 1
      regroup i k = omega arith

  -- In a sequence of calls between which no target's health changes, the call number k + 1 answers
  -- with the target k + 1 places after the index at which the sequence began, counted cyclically
  -- among the targets that the router chooses from: all of them while one was never checked, and
  -- otherwise those marked alive. The index is below their number at the start, and it never
  -- panics.
  pub poll_rotates :
      (k : ℕ) (p : PollRoute)
      → p.current_index < length (served alive p.routes)
      → let n = length (served alive p.routes) in
        (x : BaseRoute) × ((poll pick (after k p)).1 ≡ ok x)
        × (get_elem? (served alive p.routes) ((p.current_index + k + 1) % n) ≡ some x)
  poll_rotates k p h =
      let n : ℕ = length (served alive p.routes) in
      let below : (p.current_index + k) % n < n = mod-lt (p.current_index + k) (omega arith) in
      let (x, chosen, found) =
        at_lt (served alive p.routes) ((p.current_index + k + 1) % n)
          (mod-lt (p.current_index + k + 1) (omega arith)) in
      (
        x,
        rw (index_after k p h) (
            rw (poll-next (record p { current_index = (p.current_index + k) % n }) below)
              (rw (mod-add-mod (p.current_index + k) n 1) chosen)),
        found,
      )
