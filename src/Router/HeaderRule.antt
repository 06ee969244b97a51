-- ===== src/Router/HeaderRule.antt =====
-- rust-proxy/src/vojo/router.rs: the router that chooses by a request header.
pub mod FirstMatch
pub mod Saving
mod Tests
use silverwind.Prelude.{
  ℕ, zero, suc, ◌+◌, ◌-◌, ◌*◌, ◌/◌, ◌%◌, ◌^◌, ◌≤◌, ◌<◌, String, ◌≡◌, refl, sym, ap, ◌∙◌, ◌≢◌, ◌↔◌,
  ◌⊎◌, inl, inr, Bool, true, false, not, ◌&&◌, ◌||◌, Option, none, some, List, [], ◌∷◌, ◌++◌, map,
  arith, eq_iff, eq_refl, ltb, leb, str_eq, ◌==◌, if◌then◌else◌, Bool-cases, Option-cases, lt→ltb,
  le→ltb, le→leb, lt→leb, length, get_elem?, is_empty, any, all, select, replicate, length-append,
  get_elem?_lt, All, All-get_elem?, All-select, select-holds, ℤ, pos, negsuc, to_u32, as_i32,
  add_i32, sub_i32, lt_ℤ, le_ℤ, min_ℤ, add_i32_pos, sub_i32_pos, as_i32_pos, Outcome, ok, err,
  panic, ◌>>=◌, ok_or, Outcome-cases, Eq, string_eq, ◌⧺◌, contains_char, strip_prefix, is_some,
  starts_with, split, decimal,
}
use silverwind.Errors.{from, Cause}
use silverwind.External.{Http, RegexEngine}
use silverwind.Router.Base.{BaseRoute, has_unconfigured, is_true}
use Prim.Native.Char.{code}
use Prim.Native.String

pub record SplitSegment : Type 0 where
  pub split_by : String
  pub split_list : List String

pub data HeaderValueMappingType : Type 0 where
  regex : String → HeaderValueMappingType
  text : String → HeaderValueMappingType
  split_segment : SplitSegment → HeaderValueMappingType

pub record HeaderRoutingRule : Type 0 where
  pub endpoint : String
  pub is_alive : Option Bool
  pub header_key : String
  pub header_value_mapping_type : HeaderValueMappingType

abbrev pub alive : HeaderRoutingRule → Option Bool
alive r = r.is_alive

unfoldable pub get_base_route : HeaderRoutingRule → BaseRoute
get_base_route r = record { endpoint = r.endpoint; is_alive = r.is_alive }

-- `str::split` by a text: the parts between its occurrences, found from the left; `skip` counts
-- the characters of an occurrence that are still to be passed. Splitting by the empty text gives
-- the characters between two empty parts.
parts_from : String → ℕ → String → String → List String
parts_from by skip part String.[] = part ∷ []
parts_from by (suc skip) part (String.◌∷◌ c s) = parts_from by skip part s
parts_from by zero part (String.◌∷◌ c s) =
    let cut = part ∷ parts_from by (String.count by - 1) "" s in
    let on = parts_from by 0 (part ⧺ String.◌∷◌ c String.[]) s in
    if starts_with (String.◌∷◌ c s) by then cut else on

characters : String → List String
characters String.[] = "" ∷ []
characters (String.◌∷◌ c s) = String.◌∷◌ c String.[] ∷ characters s

unfoldable pub split_str : String → String → List String
unfolding parts_from characters starts_with
split_str s String.[] = "" ∷ characters s
split_str s (String.◌∷◌ c by) = parts_from (String.◌∷◌ c by) 0 "" s

abbrev contains : String → List String → Bool
contains s parts = any (λ p. str_eq p s) parts

module _ (http : Http) (engine : RegexEngine) where
  -- Whether a rule's mapping accepts the value of its header.
  unfoldable pub accepts : HeaderValueMappingType → String → Outcome Bool
  accepts (regex regex_str) value = do
    re ← ok_or (engine.compile regex_str) (from Cause.regex_syntax (engine.compile_error regex_str))
    ok (engine.is_match re value)
  accepts (text text_str) value = ok (str_eq text_str value)
  accepts (split_segment s) value =
      ok (all (λ p. contains p (split_str value s.split_by)) s.split_list)

  -- One round of the loop: `ok false` goes on to the next rule.
  unfoldable pub rule_matches : http.HeaderMap → HeaderRoutingRule → Outcome Bool
  unfolding accepts
  rule_matches headers r = elim (http.get headers r.header_key) [
    | none ↦ ok false
    | some v ↦ do
      value ← ok_or (http.to_str v) (from Cause.header_text http.to_str_error)
      accepts r.header_value_mapping_type value
  ]

  fallback : List HeaderRoutingRule → Outcome BaseRoute
  fallback [] = err "The first item not found."
  fallback (r ∷ rs) = ok (get_base_route r)

  unfoldable pub first_match :
      http.HeaderMap → List HeaderRoutingRule → Outcome BaseRoute → Outcome BaseRoute
  first_match headers [] default = default
  first_match headers (r ∷ rs) default = elim (rule_matches headers r) [
    | ok matched ↦
        let later = first_match headers rs default in
        if matched then ok (get_base_route r) else later
    | err e ↦ err e
    | panic ↦ panic
  ]

  -- The rules that the loop goes through.
  unfoldable pub considered : List HeaderRoutingRule → List HeaderRoutingRule
  considered rs = if has_unconfigured alive rs then rs else select (λ r. is_true (alive r)) rs

  unfoldable pub header_route : http.HeaderMap → List HeaderRoutingRule → Outcome BaseRoute
  unfolding first_match considered fallback get_base_route rule_matches
  header_route headers rs =
      if is_empty rs
      then err "No routes available"
      else first_match headers (considered rs) (fallback rs)

unfoldable pub header_update : String → Bool → List HeaderRoutingRule → List HeaderRoutingRule
header_update endpoint is_alive [] = []
header_update endpoint is_alive (x ∷ xs) =
    (if str_eq x.endpoint endpoint then record x { is_alive = some is_alive } else x)
    ∷ header_update endpoint is_alive xs
