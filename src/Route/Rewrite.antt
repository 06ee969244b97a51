-- ===== src/Route/Rewrite.antt =====
-- The rules of a route together, and what it makes of a path.
use silverwind.Prelude.{
  String, ◌≡◌, refl, sym, ap, ◌∙◌, inl, inr, Bool, Option, none, some, List, [], ◌∷◌, map,
  if◌then◌else◌, Bool-cases, all, All, string_eq,
}
use silverwind.External.{Http, RegexEngine}
use silverwind.Matcher.{MatcherRule, matches}
use silverwind.Matcher.Cache.{IsCoherent, fresh, matches-IsCoherent}
use silverwind.Route.{RouteConfig, all_match, path_pattern, rewrite, rewritten, match_and_rewrite}

module _ (http : Http) (engine : RegexEngine) (verb p : String) (m : http.HeaderMap) where
  -- A rule's answer with no pattern kept.
  abbrev pub accepts : MatcherRule engine → Bool
  accepts r = (matches http engine verb p m (fresh http engine r)).1

  abbrev pub AreCoherent : List (MatcherRule engine) → Type 0
  AreCoherent rules = All (IsCoherent http engine) rules

  abbrev pub all_fresh : List (MatcherRule engine) → List (MatcherRule engine)
  all_fresh rules = map (fresh http engine) rules

  all_match-AreCoherent :
      (rules : List (MatcherRule engine))
      → AreCoherent rules
      → let (rules', accepted) = all_match http engine verb p m rules in
        (accepted ≡ all accepts rules) × AreCoherent rules' × (all_fresh rules' ≡ all_fresh rules)
  unfolding all_match
  all_match-AreCoherent [] h = (refl, tt, refl)
  all_match-AreCoherent (r ∷ rs) (c, h) =
      let (answer, kept, same) = matches-IsCoherent http engine verb p m r c in
      let (rest, kepts, sames) = all_match-AreCoherent rs h in
      elim (Bool-cases (accepts r)) [
        | inl hit ↦ rw (answer, hit) (rest, (kept, kepts), rw (same, sames) refl)
        | inr miss ↦ rw (answer, miss) (refl, (kept, h), rw same refl)
      ]

  same_pattern :
      (rules rules' : List (MatcherRule engine))
      → all_fresh rules' ≡ all_fresh rules
      → path_pattern http engine rules' ≡ path_pattern http engine rules
  unfolding path_pattern
  same_pattern rules rules' e =
      sym (path_pattern-fresh rules') ∙ ap (path_pattern http engine) e ∙ path_pattern-fresh rules
    where
      path_pattern-fresh :
          (rules : List (MatcherRule engine))
          → path_pattern http engine (all_fresh rules) ≡ path_pattern http engine rules
      path_pattern-fresh [] = refl
      path_pattern-fresh (MatcherRule.path v t c ∷ rules) = refl
      path_pattern-fresh (MatcherRule.host v c ∷ rules) = path_pattern-fresh rules
      path_pattern-fresh (MatcherRule.header n v c ∷ rules) = path_pattern-fresh rules
      path_pattern-fresh (MatcherRule.method vs ∷ rules) = path_pattern-fresh rules

  same_rewrite :
      (template : Option String) (rules rules' : List (MatcherRule engine))
      → all_fresh rules' ≡ all_fresh rules
      → rewrite http engine template rules' p ≡ rewrite http engine template rules p
  unfolding rewrite
  same_rewrite none rules rules' e = refl
  same_rewrite (some template) rules rules' e =
      ap (rewritten http engine p template) (same_pattern rules rules' e)

  -- A route whose kept patterns are those of its rules accepts a request exactly if all its rules,
  -- with nothing kept, match it, and then rewrites the path as its rules say; afterwards its kept
  -- patterns are still those of its rules, and its rules are the same but for what they keep.
  pub match_and_rewrite-accepts :
      (route : RouteConfig engine)
      → AreCoherent route.matchers
      → let (route', answer) = match_and_rewrite http engine p verb m route in
        (answer ≡ (
          if all accepts route.matchers
          then some (rewrite http engine route.path_rewrite route.matchers p)
          else none))
        × AreCoherent route'.matchers
        × (all_fresh route'.matchers ≡ all_fresh route.matchers)
  unfolding match_and_rewrite
  match_and_rewrite-accepts route h =
      let (accepted, kept, same) = all_match-AreCoherent route.matchers h in
      (rw (accepted, same_rewrite route.path_rewrite route.matchers _ same) refl, kept, same)
