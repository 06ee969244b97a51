-- ===== src/Matcher/Cache.antt =====
-- The compiled pattern that a rule keeps never changes its answers.
use silverwind.Prelude.{String, ◌≡◌, refl, sym, Option, none, some, string_eq}
use silverwind.External.{Http, RegexEngine}
use silverwind.Matcher.{
  prefix, exact, regex, MatcherRule, path, host, header, method, compiled, matches,
}

module _ (http : Http) (engine : RegexEngine) where
  -- A kept pattern is the one that the rule's value compiles to.
  abbrev IsCacheOf : String → Option engine.Regex → Type 0
  IsCacheOf value none = Unit
  IsCacheOf value (some re) = engine.compile value ≡ some re

  abbrev pub IsCoherent : MatcherRule engine → Type 0
  IsCoherent (path value t cached) = IsCacheOf value cached
  IsCoherent (host value cached) = IsCacheOf value cached
  IsCoherent (header name value cached) = IsCacheOf value cached
  IsCoherent (method values) = Unit

  -- The rule with nothing kept.
  abbrev pub fresh : MatcherRule engine → MatcherRule engine
  fresh (path value t cached) = path value t none
  fresh (host value cached) = host value none
  fresh (header name value cached) = header name value none
  fresh (method values) = method values

  compiled-IsCacheOf :
      (value : String) (c : Option engine.Regex)
      → IsCacheOf value c
      → IsCacheOf value (compiled http engine c value)
  unfolding compiled
  compiled-IsCacheOf value (some re) h = h
  compiled-IsCacheOf value none h = go (engine.compile value) refl
    where
      go : (o : Option engine.Regex) → engine.compile value ≡ o → IsCacheOf value o
      go none e = tt
      go (some re) e = e

  compiled-eq :
      (value : String) (c : Option engine.Regex)
      → IsCacheOf value c
      → compiled http engine c value ≡ engine.compile value
  unfolding compiled
  compiled-eq value none h = refl
  compiled-eq value (some re) h = sym h

  -- A rule whose kept pattern, if any, is that of its value answers a request as the rule with
  -- nothing kept does; afterwards the kept pattern is still that of its value, and the rule is the
  -- same but for what it keeps.
  pub matches-IsCoherent :
      (m p : String) (headers : http.HeaderMap) (r : MatcherRule engine)
      → IsCoherent r
      → let (r', answer) = matches http engine m p headers r in
        (answer ≡ (matches http engine m p headers (fresh r)).1)
        × IsCoherent r'
        × (fresh r' ≡ fresh r)
  unfolding matches
  matches-IsCoherent m p headers (path value prefix cached) h = (refl, h, refl)
  matches-IsCoherent m p headers (path value exact cached) h = (refl, h, refl)
  matches-IsCoherent m p headers (path value regex cached) h =
      (rw (compiled-eq value cached h), compiled-IsCacheOf value cached h, refl)
  matches-IsCoherent m p headers (host value cached) h =
      (rw (compiled-eq value cached h), compiled-IsCacheOf value cached h, refl)
  matches-IsCoherent m p headers (header name value cached) h =
      (rw (compiled-eq value cached h), compiled-IsCacheOf value cached h, refl)
  matches-IsCoherent m p headers (method values) h = (refl, tt, refl)
