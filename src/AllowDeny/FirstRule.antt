-- ===== src/AllowDeny/FirstRule.antt =====
-- The list as its first rule that says something about the address, and as a list of addresses.
use silverwind.Prelude.{
  String, ◌≡◌, refl, ◌∙◌, ◌≢◌, inl, inr, Bool, true, false, none, some, List, [], ◌∷◌, ◌++◌, map,
  str_eq, if◌then◌else◌, Bool-cases, any, All, Outcome, ok, err, panic, string_eq, contains_char,
}
use silverwind.Errors.{to_string}
use silverwind.External.{Http, IpNets}
use silverwind.Denial.{allowed, denied}
use silverwind.AllowDeny.{
  AllowDenyItem, AllowType, AllowResult, not_mapping, is_mapped, is_allow, decide, item_allows,
  answer, answer_of, first_decision, ip_is_allowed, check_request,
}

-- A rule that admits one address.
abbrev pub admit : String → AllowDenyItem
admit a = record { policy = AllowType.allow; value = some a }

abbrev pub refuse_others : AllowDenyItem
refuse_others = record { policy = AllowType.deny_all; value = none }

module _ (nets : IpNets) (ip : String) where
  abbrev pub Skips : AllowDenyItem → Type 0
  Skips item = is_allow nets item ip ≡ ok not_mapping

  -- What the answer of the first rule that decides means: whether the address is admitted.
  abbrev pub verdict : Outcome AllowResult → Outcome Bool
  verdict (ok AllowResult.allow) = ok true
  verdict (ok AllowResult.deny) = ok false
  verdict (ok not_mapping) = ok true
  verdict (err e) = err (to_string e)
  verdict panic = panic

  skipped :
      (before after : List AllowDenyItem)
      → All Skips before
      → first_decision nets (before ++ after) ip ≡ first_decision nets after ip
  unfolding first_decision decide
  skipped [] after h = refl
  skipped (item ∷ before) after (s, h) = rw s (skipped before after h)

  All-skipped :
      (rules : List AllowDenyItem) → All Skips rules → first_decision nets rules ip ≡ ok true
  unfolding first_decision decide
  All-skipped [] h = refl
  All-skipped (item ∷ rules) (s, h) = rw s (All-skipped rules h)

  decisive :
      (answer : Outcome AllowResult) (rest : Outcome Bool)
      → answer ≢ ok not_mapping
      → decide nets answer rest ≡ verdict answer
  unfolding decide
  decisive (ok AllowResult.allow) rest h = refl
  decisive (ok AllowResult.deny) rest h = refl
  decisive (ok not_mapping) rest h = absurd (h refl)
  decisive (err e) rest h = refl
  decisive panic rest h = refl

  -- After rules that do not map the address, the first one that does or fails decides: the list
  -- admits the address if that rule answers `allow`, refuses it if it answers `deny`, and fails with
  -- the rule's error otherwise, and no later rule matters. A list of rules none of which maps the
  -- address admits it.
  pub ip_is_allowed-first_rule :
      (before after : List AllowDenyItem) (item : AllowDenyItem)
      → All Skips before
      → (is_allow nets item ip ≢ ok not_mapping
          → ip_is_allowed nets (record { rules = before ++ item ∷ after }) ip
            ≡ verdict (is_allow nets item ip))
        × (ip_is_allowed nets (record { rules = before }) ip ≡ ok true)
  unfolding ip_is_allowed first_decision
  ip_is_allowed-first_rule before after item h = (
    λ d.
        skipped before (item ∷ after) h
        ∙ decisive (is_allow nets item ip) (first_decision nets after ip) d,
    All-skipped before h,
  )

  admits :
      (ips : List String)
      → All (λ a. contains_char b'/' a ≡ false) ips
      → first_decision nets (map admit ips ++ refuse_others ∷ []) ip
        ≡ ok (any (λ a. str_eq a ip) ips)
  unfolding first_decision decide is_allow item_allows answer is_mapped
  admits [] h = refl
  admits (a ∷ ips) (plain, h) = elim (Bool-cases (str_eq a ip)) [
    | inl same ↦ rw plain (rw same refl)
    | inr other ↦ rw plain (rw other (admits ips h))
  ]

  -- A list that admits single addresses, none of them written as a network, and then refuses all
  -- is a list of those addresses: a request passes exactly if its address is one of them, and
  -- otherwise it is denied with status 403. No such check fails.
  pub check_request-admitted :
      (http : Http) (ips : List String)
      → All (λ a. contains_char b'/' a ≡ false) ips
      → check_request nets http ip (record { rules = map admit ips ++ refuse_others ∷ [] })
        ≡ ok (
            if any (λ a. str_eq a ip) ips
            then allowed
            else denied (record {
              status = 403;
              headers = http.empty;
              body = "Access from your IP address is forbidden";
            }))
  unfolding check_request ip_is_allowed answer_of
  check_request-admitted http ips h = rw (admits ips h) (as_answer (any (λ a. str_eq a ip) ips))
    where
      as_answer :
          (b : Bool)
          → ok (answer_of nets http b)
            ≡ ok (
                if b
                then allowed
                else denied (record {
                  status = 403;
                  headers = http.empty;
                  body = "Access from your IP address is forbidden";
                }))
      as_answer true = refl
      as_answer false = refl
