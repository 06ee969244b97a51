-- ===== src/Router/Poll/Health.antt =====
-- Health marks, and what the round-robin and the random router choose.
use silverwind.Prelude.{
  ℕ, ◌<◌, String, ◌≡◌, refl, ◌≢◌, inl, inr, Bool, true, false, some, List, [], ◌∷◌, arith, eq_iff,
  if◌then◌else◌, Bool-cases, length, get_elem?, is_empty, All, All-get_elem?, All-select,
  select-holds, Outcome, ok, ◌>>=◌, string_eq,
}
use silverwind.Router.Base.{
  BaseRoute, has_unconfigured, alive_indices, is_true, at, served, alive_ones, at_lt,
  at-alive_indices, length-alive_indices,
}
use silverwind.Router.Poll.{PollRoute, RandomRoute, alive, advance, mark, poll, random}

-- A chosen target stands at an index of the list.
abbrev pub IsChosenFrom : List BaseRoute → Outcome BaseRoute → Type 0
IsChosenFrom xs answer = (x : BaseRoute) × (j : ℕ) × (answer ≡ ok x) × (get_elem? xs j ≡ some x)

-- What a router chooses from: the targets marked alive, if each target was checked and one of them
-- is, and otherwise all.
abbrev pub candidates : List BaseRoute → List BaseRoute
candidates xs = if is_empty (served alive xs) then xs else served alive xs

at-IsChosenFrom : (xs : List BaseRoute) (j : ℕ) → j < length xs → IsChosenFrom xs (at xs j)
at-IsChosenFrom xs j h = let (x, e, found) = at_lt xs j h in (x, j, e, found)

not_empty-length : {A : Type 0} (xs : List A) → is_empty xs ≡ false → 0 < length xs
not_empty-length [] h = cc
not_empty-length (x ∷ xs) h = omega arith

-- `random_range(0..n)` gives a number below `n`.
abbrev pub IsInRange : (ℕ → ℕ) → Type 0
IsInRange pick = (n : ℕ) → 0 < n → pick n < n

advance-lt : (n i : ℕ) → 0 < n → advance n i < n
unfolding advance
advance-lt n i h = ground arith

pub is_empty-indices :
    (xs : List BaseRoute) → is_empty (alive_indices alive xs) ≡ is_empty (alive_ones alive xs)
is_empty-indices xs =
    go (alive_indices alive xs) (alive_ones alive xs) (length-alive_indices alive xs)
  where
    go :
        {A B : Type 0} (is : List A) (ys : List B)
        → length is ≡ length ys
        → is_empty is ≡ is_empty ys
    go [] [] h = refl
    go (i ∷ is) (y ∷ ys) h = refl
    go [] (y ∷ ys) h = absurd (omega arith)
    go (i ∷ is) [] h = absurd (omega arith)

module _ (pick : ℕ → ℕ) where
  random_new :
      (r : RandomRoute)
      → is_empty r.routes ≡ false
      → has_unconfigured alive r.routes ≡ true
      → random pick r ≡ at r.routes (pick (length r.routes))
  unfolding random
  random_new r s new = rw s (rw new)

  random_dead :
      (r : RandomRoute)
      → is_empty r.routes ≡ false
      → has_unconfigured alive r.routes ≡ false
      → is_empty (alive_indices alive r.routes) ≡ true
      → random pick r ≡ at r.routes (pick (length r.routes))
  unfolding random
  random_dead r s known dead = rw s (rw known (rw dead))

  random_up :
      (r : RandomRoute)
      → is_empty r.routes ≡ false
      → has_unconfigured alive r.routes ≡ false
      → is_empty (alive_indices alive r.routes) ≡ false
      → random pick r ≡ (
          at (alive_indices alive r.routes) (pick (length (alive_indices alive r.routes))) >>= λ i.
          at r.routes i)
  unfolding random
  random_up r s known up = rw s (rw known (rw up))

  pub poll_new :
      (p : PollRoute)
      → is_empty p.routes ≡ false
      → has_unconfigured alive p.routes ≡ true
      → (poll pick p).1 ≡ at p.routes (advance (length p.routes) p.current_index)
  unfolding poll
  poll_new p s new = rw s (rw new)

  poll_dead :
      (p : PollRoute)
      → is_empty p.routes ≡ false
      → has_unconfigured alive p.routes ≡ false
      → is_empty (alive_indices alive p.routes) ≡ true
      → (poll pick p).1 ≡ at p.routes (pick (length p.routes))
  unfolding poll
  poll_dead p s known dead = rw s (rw known (rw dead))

  pub poll_up :
      (p : PollRoute)
      → is_empty p.routes ≡ false
      → has_unconfigured alive p.routes ≡ false
      → is_empty (alive_indices alive p.routes) ≡ false
      → (poll pick p).1 ≡ (
          at
            (alive_indices alive p.routes)
            (advance (length (alive_indices alive p.routes)) p.current_index)
          >>= λ i. at p.routes i)
  unfolding poll
  poll_up p s known up = rw s (rw known (rw up))

module _ (pick : ℕ → ℕ) (in_range : IsInRange pick) where
  -- Choosing with an index of each kind is choosing among the candidates.
  known_chosen :
      (xs : List BaseRoute) (i : ℕ)
      → has_unconfigured alive xs ≡ false
      → is_empty (alive_ones alive xs) ≡ false
      → i < length (alive_ones alive xs)
      → IsChosenFrom (candidates xs) (at (alive_indices alive xs) i >>= λ k. at xs k)
  known_chosen xs i known some_alive h = rw known (
      rw some_alive
        (rw (at-alive_indices alive i xs h) (at-IsChosenFrom (alive_ones alive xs) i h)))

  new_chosen :
      (xs : List BaseRoute) (i : ℕ)
      → has_unconfigured alive xs ≡ true
      → i < length xs
      → IsChosenFrom (candidates xs) (at xs i)
  new_chosen xs i new h = rw new (go xs h)
    where
      go :
          (ys : List BaseRoute)
          → i < length ys
          → IsChosenFrom (if is_empty ys then ys else ys) (at ys i)
      go [] l = elim l [ ]
      go (y ∷ ys) l = at-IsChosenFrom (y ∷ ys) i l

  dead_chosen :
      (xs : List BaseRoute) (i : ℕ)
      → has_unconfigured alive xs ≡ false
      → is_empty (alive_ones alive xs) ≡ true
      → i < length xs
      → IsChosenFrom (candidates xs) (at xs i)
  dead_chosen xs i known dead h = rw known (rw dead (at-IsChosenFrom xs i h))

  chosen_of :
      (xs : List BaseRoute) (answer : Outcome BaseRoute) (i j : ℕ)
      → i < length xs
      → (has_unconfigured alive xs ≡ true → answer ≡ at xs i)
      → (has_unconfigured alive xs ≡ false
          → is_empty (alive_indices alive xs) ≡ true
          → answer ≡ at xs (pick (length xs)))
      → (has_unconfigured alive xs ≡ false
          → is_empty (alive_indices alive xs) ≡ false
          → answer ≡ (at (alive_indices alive xs) j >>= λ k. at xs k))
      → (0 < length (alive_indices alive xs) → j < length (alive_indices alive xs))
      → IsChosenFrom (candidates xs) answer
  chosen_of xs answer i j h if_new if_dead if_alive below =
      elim (Bool-cases (has_unconfigured alive xs)) [
        | inl new ↦ rw (if_new new) (new_chosen xs i new h)
        | inr known ↦ elim (Bool-cases (is_empty (alive_indices alive xs))) [
          | inl dead ↦ rw (if_dead known dead) (
              dead_chosen xs (pick (length xs)) known (rw is_empty-indices at dead)
                (in_range (length xs) (omega arith)))
          | inr up ↦ rw (if_alive known up) (
              known_chosen xs j known (rw is_empty-indices at up)
                (rw length-alive_indices at (below (not_empty-length (alive_indices alive xs) up))))
        ]
      ]

  -- The random router answers every call with one of the candidates, if it has a target at all.
  random-IsChosenFrom :
      (r : RandomRoute)
      → is_empty r.routes ≡ false
      → IsChosenFrom (candidates r.routes) (random pick r)
  random-IsChosenFrom r some_route =
      chosen_of r.routes (random pick r) (pick (length r.routes))
        (pick (length (alive_indices alive r.routes)))
        (in_range (length r.routes) (not_empty-length r.routes some_route))
        (λ new. random_new pick r some_route new)
        (λ known dead. random_dead pick r some_route known dead)
        (λ known up. random_up pick r some_route known up)
        (λ h. in_range (length (alive_indices alive r.routes)) h)

  -- The round-robin router answers every call with one of the candidates, if it has a target at
  -- all, whatever its index is, also when marks changed between calls.
  pub poll-IsChosenFrom :
      (p : PollRoute)
      → is_empty p.routes ≡ false
      → IsChosenFrom (candidates p.routes) (poll pick p).1
  poll-IsChosenFrom p some_route =
      chosen_of p.routes (poll pick p).1 (advance (length p.routes) p.current_index)
        (advance (length (alive_indices alive p.routes)) p.current_index)
        (advance-lt (length p.routes) p.current_index (not_empty-length p.routes some_route))
        (λ new. poll_new pick p some_route new)
        (λ known dead. poll_dead pick p some_route known dead)
        (λ known up. poll_up pick p some_route known up)
        (λ h. advance-lt (length (alive_indices alive p.routes)) p.current_index h)

-- A target whose endpoint was just marked carries the mark.
abbrev IsMarked : String → Bool → BaseRoute → Type 0
IsMarked endpoint b x = x.endpoint ≡ endpoint → x.is_alive ≡ some b

mark-IsMarked : (e : String) (b : Bool) (xs : List BaseRoute) → All (IsMarked e b) (mark e b xs)
unfolding mark
mark-IsMarked e b [] = tt
mark-IsMarked e b (x ∷ xs) = (ground (arith, eq_iff x.endpoint e), mark-IsMarked e b xs)

-- No candidate is the target whose check failed.
candidate_lives :
    (e : String) (xs : List BaseRoute) (j : ℕ) {x : BaseRoute}
    → has_unconfigured alive (mark e false xs) ≡ false
    → is_empty (alive_ones alive (mark e false xs)) ≡ false
    → get_elem? (candidates (mark e false xs)) j ≡ some x
    → x.endpoint ≢ e
candidate_lives e xs j known up found same =
    let chosen = rw up at (rw known at found) in
    let dead =
      All-get_elem? (IsMarked e false) (alive_ones alive (mark e false xs)) j
        (All-select (IsMarked e false) (λ x. is_true (alive x)) (mark e false xs)
          (mark-IsMarked e false xs))
        chosen in
    let live =
      All-get_elem? (λ x. is_true (alive x) ≡ true) (alive_ones alive (mark e false xs)) j
        (select-holds (λ x. is_true (alive x)) (mark e false xs)) chosen in
    ground (arith, dead same, live)

some_target : (xs : List BaseRoute) → is_empty (alive_ones alive xs) ≡ false → is_empty xs ≡ false
some_target [] h = h
some_target (x ∷ xs) h = refl

-- The answer is a target with another endpoint.
abbrev pub IsOther : String → Outcome BaseRoute → Type 0
IsOther e answer = (x : BaseRoute) × (answer ≡ ok x) × (x.endpoint ≢ e)

module _ (pick : ℕ → ℕ) (in_range : IsInRange pick) where
  chosen-IsOther :
      (e : String) (xs : List BaseRoute) (answer : Outcome BaseRoute)
      → has_unconfigured alive (mark e false xs) ≡ false
      → is_empty (alive_ones alive (mark e false xs)) ≡ false
      → IsChosenFrom (candidates (mark e false xs)) answer
      → IsOther e answer
  chosen-IsOther e xs answer known up (x, j, is_x, found) =
      (x, is_x, candidate_lives e xs j known up found)

  -- After the check of a target failed, and while each target was checked and some target is
  -- alive, the round-robin router, whatever its index, and the random router answer with a target
  -- whose endpoint is another one. `pick` draws a number in its range.
  pub failed_not_served :
      (e : String) (xs : List BaseRoute) (i : ℕ)
      → has_unconfigured alive (mark e false xs) ≡ false
      → is_empty (alive_ones alive (mark e false xs)) ≡ false
      → IsOther e (poll pick (record { current_index = i; routes = mark e false xs })).1
        × IsOther e (random pick (record { routes = mark e false xs }))
  failed_not_served e xs i known up =
      let there = some_target (mark e false xs) up in
      (
        chosen-IsOther e xs _ known up (
            poll-IsChosenFrom pick in_range (record { current_index = i; routes = mark e false xs })
              there),
        chosen-IsOther e xs _ known up
            (random-IsChosenFrom pick in_range (record { routes = mark e false xs }) there),
      )
