-- ===== src/Router/Weight/Cycle.antt =====
-- One cycle of the weighted router serves each item as often as its weight says.
use silverwind.Prelude.{
  ℕ, zero, suc, ◌+◌, ◌<◌, String, ◌≡◌, refl, inl, inr, Bool, true, false, Option, List, [], ◌∷◌,
  ◌++◌, map, arith, if◌then◌else◌, Bool-cases, length, is_empty, replicate, All, pos, add_i32_pos,
  Outcome, ok, string_eq,
}
use silverwind.Router.Base.{BaseRoute}
use silverwind.Router.Weight.{WeightedRouteItem, all_reached, reset, take_first, serve}

-- An item by how often it was served in this cycle and how often it still is to be.
pub data Share : Type 0 where
  share : (endpoint : String) (is_alive : Option Bool) (times left : ℕ) → Share

abbrev pub item : Share → WeightedRouteItem
item (share e a times left) = record {
  endpoint = e;
  is_alive = a;
  weight = pos (times + left);
  index = pos times;
}

abbrev pub Fits : Share → Type 0
Fits (share e a times left) = times + left < 2147483648

-- The same items at the start of a cycle.
abbrev pub renew : Share → Share
renew (share e a times left) = share e a 0 (times + left)

module _ (in_play : Option Bool → Bool) where
  -- What the cycle still has to serve: each item in play, as often as it is left, in order.
  abbrev pub schedule : List Share → List BaseRoute
  schedule [] = []
  schedule (share e a times left ∷ ss) =
      let rest = schedule ss in
      if in_play a then replicate left (record { endpoint = e; is_alive = a }) ++ rest else rest

  -- A call that took the head of the schedule.
  abbrev pub Takes :
      List WeightedRouteItem × Outcome BaseRoute → BaseRoute → List BaseRoute → Type 0
  Takes (rs, answer) b bs =
      (ss : List Share) × (rs ≡ map item ss) × (answer ≡ ok b) × (schedule ss ≡ bs) × All Fits ss

  take_first-Takes :
      (ss : List Share) (b : BaseRoute) (bs : List BaseRoute)
      → All Fits ss
      → schedule ss ≡ b ∷ bs
      → Takes (take_first in_play (map item ss)) b bs
  unfolding take_first
  take_first-Takes [] b bs fits e = cc
  take_first-Takes (share ep a times zero ∷ ss) b bs (f, fits) e =
      let below : schedule ss ≡ b ∷ bs = skip (in_play a) e in
      let (ss', same, answer, rest, fits') = take_first-Takes ss b bs fits below in
      (share ep a times zero ∷ ss', ground arith, ground arith, ground arith, (f, fits'))
    where
      skip : (p : Bool) → (if p then schedule ss else schedule ss) ≡ b ∷ bs → schedule ss ≡ b ∷ bs
      skip true e = e
      skip false e = e
  take_first-Takes (share ep a times (suc left) ∷ ss) b bs (f, fits) e =
      elim (Bool-cases (in_play a)) [
        | inl plays ↦ (
          share ep a (suc times) left ∷ ss,
          rw (add_i32_pos times 1 (omega arith)) (ground arith),
          ground arith,
          ground arith,
          (omega arith, fits),
        )
        | inr out ↦
            let (ss', same, answer, rest, fits') = take_first-Takes ss b bs fits (rw out at e) in
            (
              share ep a times (suc left) ∷ ss',
              ground arith,
              ground arith,
              ground arith,
              (f, fits'),
            )
      ]

  -- The items at the start of the next cycle: those in play begin anew.
  abbrev pub restart : List Share → List Share
  restart [] = []
  restart (share e a times left ∷ ss) =
      (if in_play a then renew (share e a times left) else share e a times left) ∷ restart ss

  all_reached-schedule :
      (ss : List Share) → all_reached in_play (map item ss) ≡ is_empty (schedule ss)
  unfolding all_reached
  all_reached-schedule [] = refl
  all_reached-schedule (share e a times zero ∷ ss) = ground (arith, all_reached-schedule ss)
  all_reached-schedule (share e a times (suc left) ∷ ss) = ground (arith, all_reached-schedule ss)

  reset-restart : (ss : List Share) → reset in_play (map item ss) ≡ map item (restart ss)
  unfolding reset
  reset-restart [] = refl
  reset-restart (share e a times left ∷ ss) = ground (arith, reset-restart ss)

  Fits-restart : (ss : List Share) → All Fits ss → All Fits (restart ss)
  Fits-restart [] f = tt
  Fits-restart (share e a times left ∷ ss) (f, fits) = (ground arith, Fits-restart ss fits)

  -- What is served next: what the cycle has left, or else the next cycle's schedule.
  abbrev pub upcoming : List Share → List BaseRoute
  upcoming ss = if is_empty (schedule ss) then schedule (restart ss) else schedule ss

  serve-Takes :
      (ss : List Share) (b : BaseRoute) (bs : List BaseRoute)
      → All Fits ss
      → upcoming ss ≡ b ∷ bs
      → Takes (serve in_play (map item ss)) b bs
  unfolding serve
  serve-Takes ss b bs fits e = elim (Bool-cases (is_empty (schedule ss))) [
    | inl over ↦ rw (all_reached-schedule ss) (
        rw over (
          rw (reset-restart ss)
            (take_first-Takes (restart ss) b bs (Fits-restart ss fits) (rw over at e))))
    | inr going ↦
        rw (all_reached-schedule ss) (rw going (take_first-Takes ss b bs fits (rw going at e)))
  ]

  -- A sequence of calls, and their answers.
  unfoldable pub serves : ℕ → List WeightedRouteItem → List (Outcome BaseRoute)
  serves zero rs = []
  serves (suc n) rs = let (rs', answer) = serve in_play rs in answer ∷ serves n rs'

  serves-schedule :
      (bs : List BaseRoute) (ss : List Share)
      → All Fits ss
      → schedule ss ≡ bs
      → serves (length bs) (map item ss) ≡ map ok bs
  unfolding serves
  serves-schedule [] ss fits e = refl
  serves-schedule (b ∷ bs) ss fits e =
      let (ss', same, answer, rest, fits') = serve-Takes ss b bs fits (rw e) in
      rw (same, answer) (rw (serves-schedule bs ss' fits' rest))

  -- Calls of the weighted router answer in the order of the schedule: first what the cycle has left
  -- of each item in play, or, if nothing is left, each item in play as often as its weight says, in
  -- the order of the items. The weights are not negative and below 2^31, and no item was served
  -- more often than its weight.
  pub serves_cycle :
      (ss : List Share)
      → All Fits ss
      → serves (length (upcoming ss)) (map item ss) ≡ map ok (upcoming ss)
  unfolding serves
  serves_cycle ss fits = go (upcoming ss) refl
    where
      go : (bs : List BaseRoute) → upcoming ss ≡ bs → serves (length bs) (map item ss) ≡ map ok bs
      go [] e = refl
      go (b ∷ bs) e =
          let (ss', same, answer, rest, fits') = serve-Takes ss b bs fits e in
          rw (same, answer) (rw (serves-schedule bs ss' fits' rest))
