-- ===== src/AllowDeny/Tests.antt =====
-- Lists of rules at addresses.
use silverwind.Prelude.{
  ◌≡◌, refl, ◌≢◌, false, some, [], ◌∷◌, ◌++◌, map, str_eq, if◌then◌else◌, any, ok, string_eq,
  contains_char,
}
use silverwind.External.Samples.{plain_nets, plain_http}
use silverwind.AllowDeny.{
  AllowDenyItem, AllowType, not_mapping, is_mapped, is_allow, ip_is_allowed, check_request,
}
use silverwind.AllowDeny.FirstRule.{
  admit, refuse_others, verdict, ip_is_allowed-first_rule, check_request-admitted,
}
use silverwind.Denial.{allowed, denied}

abbrev network : AllowDenyItem
network = record { policy = AllowType.deny; value = some "10.0.0.1/32" }

in_network : ip_is_allowed plain_nets (record { rules = network ∷ [] }) "10.0.0.1" ≡ ok false
unfolding ip_is_allowed is_allow is_mapped contains_char
in_network = refl

refuses : is_allow plain_nets network "10.0.0.1" ≢ ok not_mapping
unfolding is_allow is_mapped contains_char
refuses e = cc

skips : is_allow plain_nets (admit "10.0.0.9") "10.0.0.1" ≡ ok not_mapping
unfolding is_allow is_mapped contains_char
skips = refl

ip_is_allowed-first_rule_example :
    ip_is_allowed plain_nets
      (record { rules = admit "10.0.0.9" ∷ network ∷ refuse_others ∷ [] })
      "10.0.0.1"
    ≡ verdict plain_nets "10.0.0.1" (is_allow plain_nets network "10.0.0.1")
ip_is_allowed-first_rule_example =
    (ip_is_allowed-first_rule plain_nets "10.0.0.1" (admit "10.0.0.9" ∷ []) (refuse_others ∷ [])
        network (skips, tt)).0
      refuses

check_request-admitted_example :
    check_request plain_nets plain_http "10.0.0.9"
      (record { rules = map admit ("10.0.0.1" ∷ "10.0.0.2" ∷ []) ++ refuse_others ∷ [] })
    ≡ ok (
        if any (λ a. str_eq a "10.0.0.9") ("10.0.0.1" ∷ "10.0.0.2" ∷ [])
        then allowed
        else denied (record {
          status = 403;
          headers = plain_http.empty;
          body = "Access from your IP address is forbidden";
        }))
unfolding contains_char
check_request-admitted_example =
    check_request-admitted plain_nets "10.0.0.9" plain_http ("10.0.0.1" ∷ "10.0.0.2" ∷ [])
      (refl, (refl, tt))
