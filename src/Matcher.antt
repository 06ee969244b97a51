-- ===== src/Matcher.antt =====
-- rust-proxy/src/vojo/matcher.rs: the rules by which a route accepts a request. A rule keeps the
-- pattern that it compiled on first use.
pub mod Cache
mod Tests
use silverwind.Prelude.{
  ℕ, zero, suc, ◌+◌, ◌-◌, ◌*◌, ◌/◌, ◌%◌, ◌^◌, ◌≤◌, ◌<◌, String, ◌≡◌, refl, sym, ap, ◌∙◌, ◌≢◌, ◌↔◌,
  ◌⊎◌, inl, inr, Bool, true, false, not, ◌&&◌, ◌||◌, Option, none, some, List, [], ◌∷◌, ◌++◌, map,
  arith, eq_iff, eq_refl, ltb, leb, str_eq, ◌==◌, if◌then◌else◌, Bool-cases, Option-cases, lt→ltb,
  le→ltb, le→leb, lt→leb, length, get_elem?, is_empty, any, all, select, replicate, length-append,
  get_elem?_lt, All, All-get_elem?, All-select, select-holds, ℤ, pos, negsuc, to_u32, as_i32,
  add_i32, sub_i32, lt_ℤ, le_ℤ, min_ℤ, add_i32_pos, sub_i32_pos, as_i32_pos, Outcome, ok, err,
  panic, ◌>>=◌, ok_or, Outcome-cases, Eq, string_eq, ◌⧺◌, contains_char, strip_prefix, is_some,
  starts_with, split, decimal,
}
use silverwind.External.{Http, RegexEngine}

pub data PathMatchType : Type 0 where
  prefix exact regex : PathMatchType

pub data MatcherRule (engine : RegexEngine) : Type 0 where
  path :
      (value : String) (match_type : PathMatchType) (cached : Option engine.Regex)
      → MatcherRule engine
  host : (value : String) (cached : Option engine.Regex) → MatcherRule engine
  header : (name value : String) (cached : Option engine.Regex) → MatcherRule engine
  method : (values : List String) → MatcherRule engine

module _ (http : Http) (engine : RegexEngine) where
  -- `if regex.is_none() { *regex = Regex::new(value).ok() }`.
  unfoldable pub compiled : Option engine.Regex → String → Option engine.Regex
  compiled none value = engine.compile value
  compiled (some re) value = some re

  is_match : Option engine.Regex → String → Bool
  is_match none s = false
  is_match (some re) s = engine.is_match re s

  header_matches : Option http.HeaderValue → Option engine.Regex → Bool
  header_matches (some v) (some re) = elim (http.to_str v) [
    | none ↦ false
    | some h ↦ engine.is_match re h
  ]
  header_matches _ _ = false

  unfoldable pub matches :
      (method path : String) → http.HeaderMap → MatcherRule engine → MatcherRule engine × Bool
  unfolding is_match header_matches compiled
  matches m p headers (path value prefix cached) = (path value prefix cached, starts_with p value)
  matches m p headers (path value exact cached) = (path value exact cached, str_eq p value)
  matches m p headers (path value regex cached) =
      let re = compiled cached value in (path value regex re, is_match re p)
  matches m p headers (method values) = (method values, any (λ v. str_eq v m) values)
  matches m p headers (host value cached) =
      let re = compiled cached value in (host value re, header_matches (http.get headers "Host") re)
  matches m p headers (header name value cached) =
      let re = compiled cached value in
      (header name value re, header_matches (http.get headers name) re)
