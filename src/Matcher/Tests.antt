-- ===== src/Matcher/Tests.antt =====
-- Rules at requests.
use silverwind.Prelude.{
  String, ◌≡◌, refl, true, Option, none, some, if◌then◌else◌, string_eq, starts_with,
}
use silverwind.External.{same_name}
use silverwind.External.Samples.{plain_http, prefix_regex}
use silverwind.Matcher.{MatcherRule, host, matches}

abbrev request : String → Option String
request k = if same_name "host" k then some "example.org" else none

abbrev host_rule : MatcherRule prefix_regex
host_rule = host "example" none

host_matches :
    matches plain_http prefix_regex "GET" "/" request host_rule
    ≡ (host "example" (some "example"), true)
unfolding matches same_name starts_with
host_matches = refl
