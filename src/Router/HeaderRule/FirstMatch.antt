-- ===== src/Router/HeaderRule/FirstMatch.antt =====
-- Which rule the header router takes.
use silverwind.Prelude.{◌≡◌, true, false, List, ◌∷◌, ok, string_eq}
use silverwind.External.{Http, RegexEngine}
use silverwind.Router.HeaderRule.{HeaderRoutingRule, rule_matches}

module _ (http : Http) (engine : RegexEngine) (headers : http.HeaderMap) where
  -- The rules before a chosen one did not match, and it did.
  pub data IsFirstMatch : List HeaderRoutingRule → HeaderRoutingRule → Type 0 where
    here :
        {r : HeaderRoutingRule} {rs : List HeaderRoutingRule}
        → rule_matches http engine headers r ≡ ok true
        → IsFirstMatch (r ∷ rs) r
    later :
        {r q : HeaderRoutingRule} {rs : List HeaderRoutingRule}
        → rule_matches http engine headers q ≡ ok false
        → IsFirstMatch rs r
        → IsFirstMatch (q ∷ rs) r
