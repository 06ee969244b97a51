-- ===== src/Router/Poll/Steady.antt =====
-- The round-robin router of rust-proxy/src/vojo/router.rs while some target is not marked dead.
use silverwind.Prelude.{
  ℕ, zero, suc, ◌≡◌, refl, sym, ap, ◌∙◌, ◌≢◌, ◌⊎◌, inl, inr, Bool, true, false, Option, none, some,
  List, [], ◌∷◌, arith, if◌then◌else◌, Bool-cases, get_elem?, is_empty, ok, some-inj, string_eq,
}
use silverwind.Router.Base.{BaseRoute, has_unconfigured, is_true, alive_ones}
use silverwind.Router.Poll.{PollRoute, alive, poll}
use silverwind.Router.Poll.Health.{
  candidates, is_empty-indices, poll_new, poll_up, poll-IsChosenFrom,
}

-- Some target of the list is not marked dead.
unfoldable pub IsUp : List BaseRoute → Type 0
IsUp xs = (x : BaseRoute) × (i : ℕ) × (get_elem? xs i ≡ some x) × (alive x ≢ some false)

-- Such a target was not checked yet, or is alive.
IsUp-cases :
    (xs : List BaseRoute) (i : ℕ) (x : BaseRoute)
    → get_elem? xs i ≡ some x
    → alive x ≢ some false
    → (has_unconfigured alive xs ≡ true) ⊎ (is_empty (alive_ones alive xs) ≡ false)
unfolding has_unconfigured
IsUp-cases [] i x e n = cc
IsUp-cases (y ∷ xs) zero x e n = of_mark (alive y) refl
  where
    of_mark :
        (o : Option Bool)
        → alive y ≡ o
        → (has_unconfigured alive (y ∷ xs) ≡ true) ⊎ (is_empty (alive_ones alive (y ∷ xs)) ≡ false)
    of_mark none m = inl (rw m refl)
    of_mark (some true) m = inr (rw m refl)
    of_mark (some false) m = absurd (n (ap alive (sym (some-inj e)) ∙ m))
IsUp-cases (y ∷ xs) (suc i) x e n = elim (IsUp-cases xs i x e n) [
  | inl new ↦ inl (ground (arith, new))
  | inr up ↦ inr (not_empty (is_true (alive y)) up)
]
  where
    not_empty :
        (b : Bool)
        → is_empty (alive_ones alive xs) ≡ false
        → is_empty (if b then y ∷ alive_ones alive xs else alive_ones alive xs) ≡ false
    not_empty true up = refl
    not_empty false up = up

IsUp-is_empty :
    (xs : List BaseRoute) (i : ℕ) (x : BaseRoute) → get_elem? xs i ≡ some x → is_empty xs ≡ false
IsUp-is_empty [] i x e = cc
IsUp-is_empty (y ∷ xs) i x e = refl

-- While some target is not marked dead, the router draws no number.
poll_undrawn :
    (pick pick' : ℕ → ℕ) (p : PollRoute) → IsUp p.routes → (poll pick p).1 ≡ (poll pick' p).1
unfolding IsUp
poll_undrawn pick pick' p (x, i, found, n) =
    let s = IsUp-is_empty p.routes i x found in
    elim (Bool-cases (has_unconfigured alive p.routes)) [
      | inl new ↦ poll_new pick p s new ∙ sym (poll_new pick' p s new)
      | inr known ↦
          let up = is_empty-indices p.routes ∙ known_up (IsUp-cases p.routes i x found n) known in
          poll_up pick p s known up ∙ sym (poll_up pick' p s known up)
    ]
  where
    known_up :
        {b : Bool}
        → (has_unconfigured alive p.routes ≡ true) ⊎ (b ≡ false)
        → has_unconfigured alive p.routes ≡ false
        → b ≡ false
    known_up (inl new) known = cc
    known_up (inr up) known = up

-- While some target is not marked dead, the router answers with one and the same of its candidates,
-- whatever the random numbers are.
pub poll_steady :
    (p : PollRoute)
    → IsUp p.routes
    → (y : BaseRoute) × (j : ℕ) × (get_elem? (candidates p.routes) j ≡ some y)
      × ((pick : ℕ → ℕ) → (poll pick p).1 ≡ ok y)
unfolding IsUp
poll_steady p (x, i, found, n) =
    let (y, j, answer, chosen) =
      poll-IsChosenFrom (λ k. 0) (λ k h. h) p (IsUp-is_empty p.routes i x found) in
    (y, j, chosen, λ pick. poll_undrawn pick (λ k. 0) p (x, i, found, n) ∙ answer)
