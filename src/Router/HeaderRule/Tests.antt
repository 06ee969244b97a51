-- ===== src/Router/HeaderRule/Tests.antt =====
-- The header router on small lists of rules.
use silverwind.Prelude.{
  String, ◌≡◌, refl, true, Option, none, some, [], ◌∷◌, if◌then◌else◌, ok, string_eq,
}
use silverwind.External.{same_name}
use silverwind.External.Samples.{plain_http, prefix_regex}
use silverwind.Router.Base.{has_unconfigured}
use silverwind.Router.HeaderRule.{
  HeaderValueMappingType, HeaderRoutingRule, split_str, header_route, get_base_route,
}

split_tests :
    (split_str "a; b;c" "; " ≡ "a" ∷ "b;c" ∷ []) × (split_str "ab" "" ≡ "" ∷ "a" ∷ "b" ∷ "" ∷ [])
unfolding split_str
split_tests = (refl, refl)

abbrev by_text : HeaderRoutingRule
by_text = record {
  endpoint = "http://a";
  is_alive = some true;
  header_key = "x-user";
  header_value_mapping_type = HeaderValueMappingType.text "ann";
}

abbrev by_split : HeaderRoutingRule
by_split = record {
  endpoint = "http://b";
  is_alive = some true;
  header_key = "x-tags";
  header_value_mapping_type =
      HeaderValueMappingType.split_segment (record { split_by = ","; split_list = "x" ∷ "z" ∷ [] });
}

abbrev request : String → Option String
request k = if same_name "X-Tags" k then some "z,y,x" else none

chooses_split :
    header_route plain_http prefix_regex request (by_text ∷ by_split ∷ [])
    ≡ ok (get_base_route by_split)
unfolding header_route split_str has_unconfigured same_name
chooses_split = refl
