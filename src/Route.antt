-- ===== src/Route.antt =====
-- rust-proxy/src/vojo/app_config.rs: a route, when it accepts a path and what becomes of the path.
mod Rewrite
mod Tests
use silverwind.Prelude.{
  ℕ, zero, suc, ◌+◌, ◌-◌, ◌*◌, ◌/◌, ◌%◌, ◌^◌, ◌≤◌, ◌<◌, String, ◌≡◌, refl, sym, ap, ◌∙◌, ◌≢◌, ◌↔◌,
  ◌⊎◌, inl, inr, Bool, true, false, not, ◌&&◌, ◌||◌, Option, none, some, List, [], ◌∷◌, ◌++◌, map,
  arith, eq_iff, eq_refl, ltb, leb, str_eq, ◌==◌, if◌then◌else◌, Bool-cases, Option-cases, lt→ltb,
  le→ltb, le→leb, lt→leb, length, get_elem?, is_empty, any, all, select, replicate, length-append,
  get_elem?_lt, All, All-get_elem?, All-select, select-holds, ℤ, pos, negsuc, to_u32, as_i32,
  add_i32, sub_i32, lt_ℤ, le_ℤ, min_ℤ, add_i32_pos, sub_i32_pos, as_i32_pos, Outcome, ok, err,
  panic, ◌>>=◌, ok_or, Outcome-cases, Done, Eq, string_eq, ◌⧺◌, contains_char, strip_prefix,
  is_some, starts_with, split, decimal,
}
use silverwind.External.{Http, RegexEngine}
use silverwind.Matcher.{MatcherRule, matches}
use silverwind.Router.{Router}
use silverwind.Middleware.{MiddleWares}

pub record BaseHealthCheckParam : Type 0 where
  pub timeout : ℤ
  pub interval : ℤ

pub record HttpHealthCheckParam : Type 0 where
  pub base_health_check_param : BaseHealthCheckParam
  pub path : String

pub data HealthCheckType : Type 0 where
  http_get : HttpHealthCheckParam → HealthCheckType
  redis mysql : BaseHealthCheckParam → HealthCheckType

pub record LivenessConfig : Type 0 where
  pub min_liveness_count : ℤ

pub record Transcode : Type 0 where
  pub proto_descriptor_set : String

-- Settings that no modelled code reads are left out: `anomaly_detection`, `liveness_status` and
-- `rewrite_headers`.
pub record RouteConfig (engine : RegexEngine) : Type 0 where
  pub route_id : String
  pub matchers : List (MatcherRule engine)
  pub path_rewrite : Option String
  pub transcode : Option Transcode
  pub liveness_config : Option LivenessConfig
  pub health_check : Option HealthCheckType
  pub router : Router
  pub middlewares : Option (List MiddleWares)
  pub timeout : Option ℕ

module _ (http : Http) (engine : RegexEngine) where
  -- `iter_mut().all`: the rules after the first that does not match are not tried.
  all_match :
      (verb p : String)
      → http.HeaderMap
      → List (MatcherRule engine)
      → List (MatcherRule engine) × Bool
  unfolding matches
  all_match verb p m [] = ([], true)
  all_match verb p m (rule ∷ rules) =
      let (rule', hit) = matches http engine verb p m rule in
      let (rules', rest) = all_match verb p m rules in
      if hit then (rule' ∷ rules', rest) else (rule' ∷ rules, false)

  -- The value of the first rule on the path.
  path_pattern : List (MatcherRule engine) → Option String
  path_pattern [] = none
  path_pattern (MatcherRule.path value match_type cached ∷ rules) = some value
  path_pattern (_ ∷ rules) = path_pattern rules

  -- `strip_prefix`, with the path itself where the pattern is no prefix of it.
  stripped : String → String → Option String → String
  stripped p template none = p
  stripped p template (some rest) = template ⧺ rest

  rewritten : String → String → Option String → String
  unfolding stripped strip_prefix
  rewritten p template none = p
  rewritten p template (some pattern) = elim (engine.compile pattern) [
    | none ↦ stripped p template (strip_prefix p pattern)
    | some re ↦ engine.replace re p template
  ]

  unfoldable pub rewrite : Option String → List (MatcherRule engine) → String → String
  unfolding rewritten path_pattern
  rewrite none rules p = p
  rewrite (some template) rules p = rewritten p template (path_pattern rules)

  unfoldable pub match_and_rewrite :
      (p verb : String) → http.HeaderMap → RouteConfig engine → RouteConfig engine × Option String
  unfolding all_match rewrite
  match_and_rewrite p verb m route =
      let (rules, accepted) = all_match verb p m route.matchers in
      (
        record route { matchers = rules },
        if accepted then some (rewrite route.path_rewrite rules p) else none,
      )
