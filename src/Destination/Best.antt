-- ===== src/Destination/Best.antt =====
-- Which route the search takes.
use silverwind.Prelude.{
  ℕ, suc, ◌+◌, ◌≤◌, ◌<◌, String, ◌≡◌, refl, sym, ap, ◌∙◌, ◌⊎◌, inl, inr, true, false, Option, none,
  some, List, [], ◌∷◌, ◌++◌, arith, ltb, Bool-cases, length, All, string_eq, is_some,
}
use mathlib.Core.Path.{subst}
use silverwind.External.{Http, RegexEngine}
use silverwind.Route.{RouteConfig, match_and_rewrite}
use silverwind.Destination.{Match, match_len, better, considering, find_best}

module _ (http : Http) (engine : RegexEngine) (p verb : String) (m : http.HeaderMap) where
  -- The path that a route makes of the request's, if it accepts the request.
  abbrev pub verdict : RouteConfig engine → Option String
  verdict r = (match_and_rewrite http engine p verb m r).1

  -- The length of its longest pattern that the path starts with.
  abbrev pub reach : RouteConfig engine → ℕ
  reach r = match_len http engine p (match_and_rewrite http engine p verb m r).0

  -- A route that accepts the request has less reach than `n`, or at most that.
  abbrev pub IsLess : ℕ → RouteConfig engine → Type 0
  IsLess n r = is_some (verdict r) ≡ true → reach r < n

  abbrev pub IsAtMost : ℕ → RouteConfig engine → Type 0
  IsAtMost n r = is_some (verdict r) ≡ true → reach r ≤ n

  abbrev pub IsNotBetter : Option Match → RouteConfig engine → Type 0
  IsNotBetter none r = is_some (verdict r) ≡ false
  IsNotBetter (some best) r = IsAtMost best.best_len r

  abbrev pub IsAbove : Option Match → ℕ → Type 0
  IsAbove none n = Unit
  IsAbove (some best) n = best.best_len < n

  abbrev pub entry : ℕ → RouteConfig engine → String → Match
  entry i r path = record { place = i; rest_path = path; best_len = reach r }

  -- The outcome of a search that starts at the place `i` with a best match: that match, if no
  -- route is better, or else the first of the routes of the longest reach.
  pub data Selected (i : ℕ) (best : Option Match) (routes : List (RouteConfig engine))
      (final : Option Match) : Type 0 where
    kept : final ≡ best → All (IsNotBetter best) routes → Selected i best routes final
    taken :
        (before after : List (RouteConfig engine)) (r : RouteConfig engine) (path : String)
        → routes ≡ before ++ r ∷ after
        → final ≡ some (entry (i + length before) r path)
        → verdict r ≡ some path
        → IsAbove best (reach r)
        → All (IsLess (reach r)) before
        → All (IsAtMost (reach r)) after
        → Selected i best routes final

  none_accepts : false ≡ true → ⊥
  none_accepts h = cc

  not_better :
      (r : RouteConfig engine) (best : Option Match) → verdict r ≡ none → IsNotBetter best r
  not_better r none e = rw e refl
  not_better r (some b) e = λ h. absurd (none_accepts (rw e at h))

  -- What one route makes of the best match so far.
  Considered : ℕ → RouteConfig engine → Option Match → Option Match → Type 0
  Considered i r best next =
      ((next ≡ best) × IsNotBetter best r)
      ⊎ ((path : String) × (next ≡ some (entry i r path))
          × (verdict r ≡ some path)
          × IsAbove best (reach r))

  Considered-as :
      (i : ℕ) (r : RouteConfig engine) (o : Option String) (best : Option Match)
      → verdict r ≡ o
      → Considered i r best
          (considering http engine p i (match_and_rewrite http engine p verb m r).0 o best)
  unfolding Considered considering better
  Considered-as i r none best e = inl (refl, not_better r best e)
  Considered-as i r (some path) none e = inr (path, refl, e, tt)
  Considered-as i r (some path) (some b) e = elim (Bool-cases (ltb b.best_len (reach r))) [
    | inl longer ↦ inr (path, rw longer refl, e, ground arith)
    | inr other ↦ inl (rw other refl, λ h. ground arith)
  ]

  stays-IsLess :
      (r : RouteConfig engine) (best : Option Match) (n : ℕ)
      → IsNotBetter best r
      → IsAbove best n
      → IsLess n r
  stays-IsLess r none n h a = λ t. absurd (none_accepts (sym h ∙ t))
  stays-IsLess r (some b) n h a = λ t. omega (arith, h t)

  IsAbove-trans : (best : Option Match) (k n : ℕ) → IsAbove best k → k < n → IsAbove best n
  IsAbove-trans none k n a l = tt
  IsAbove-trans (some b) k n a l = omega arith

  shift : (i k : ℕ) → suc i + k ≡ i + suc k
  shift i k = omega arith

  at_start : (i : ℕ) → i ≡ i + 0
  at_start i = omega arith

  extend :
      (i : ℕ) (best next : Option Match) (r : RouteConfig engine) (rs : List (RouteConfig engine))
      (final : Option Match)
      → Considered i r best next
      → Selected (suc i) next rs final
      → Selected i best (r ∷ rs) final
  unfolding Considered
  extend i best next r rs final (inl (same, worse)) (kept e h) =
      kept (e ∙ same) (worse, subst (λ x. All (IsNotBetter x) rs) same h)
  extend i best next r rs final (inl (same, worse))
        (taken before after q path parts e v above less most) =
      let over = subst (λ x. IsAbove x (reach q)) same above in
      taken (r ∷ before) after q path (ap (λ x. r ∷ x) parts)
        (e ∙ ap (λ n. some (entry n q path)) (shift i (length before))) v over
        (stays-IsLess r best (reach q) worse over, less) most
  extend i best next r rs final (inr (path, new, v, above)) (kept e h) =
      taken [] rs r path refl (e ∙ new ∙ ap (λ n. some (entry n r path)) (at_start i)) v above tt
        (subst (λ x. All (IsNotBetter x) rs) new h)
  extend i best next r rs final (inr (path, new, v, above))
        (taken before after q way parts e w longer less most) =
      let over = subst (λ x. IsAbove x (reach q)) new longer in
      taken (r ∷ before) after q way (ap (λ x. r ∷ x) parts)
        (e ∙ ap (λ n. some (entry n q way)) (shift i (length before))) w
        (IsAbove-trans best (reach r) (reach q) above over) ((λ t. over), less) most

  search-Selected :
      (i : ℕ) (best : Option Match) (routes : List (RouteConfig engine))
      → Selected i best routes (find_best http engine p verb m i best routes).1
  unfolding find_best
  search-Selected i best [] = kept refl tt
  search-Selected i best (r ∷ rs) =
      extend i best _ r rs _ (Considered-as i r (verdict r) best refl)
        (search-Selected (suc i) _ rs)

  -- The search over a service's routes takes the first of those routes that accept the request
  -- whose longest path pattern that the request's path starts with is the longest; and it takes
  -- none exactly if no route accepts the request.
  pub find_best-Selected :
      (routes : List (RouteConfig engine))
      → Selected 0 none routes (find_best http engine p verb m 0 none routes).1
  find_best-Selected routes = search-Selected 0 none routes
