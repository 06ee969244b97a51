-- ===== src/AllowDeny.antt =====
-- rust-proxy/src/middleware/allow_deny_ip.rs: the list of rules that admit or refuse an address.
mod FirstRule
mod Tests
use silverwind.Prelude.{
  ℕ, zero, suc, ◌+◌, ◌-◌, ◌*◌, ◌/◌, ◌%◌, ◌^◌, ◌≤◌, ◌<◌, String, ◌≡◌, refl, sym, ap, ◌∙◌, ◌≢◌, ◌↔◌,
  ◌⊎◌, inl, inr, Bool, true, false, not, ◌&&◌, ◌||◌, Option, none, some, List, [], ◌∷◌, ◌++◌, map,
  arith, eq_iff, eq_refl, ltb, leb, str_eq, ◌==◌, if◌then◌else◌, Bool-cases, Option-cases, lt→ltb,
  le→ltb, le→leb, lt→leb, length, get_elem?, is_empty, any, all, select, replicate, length-append,
  get_elem?_lt, All, All-get_elem?, All-select, select-holds, ℤ, pos, negsuc, to_u32, as_i32,
  add_i32, sub_i32, lt_ℤ, le_ℤ, min_ℤ, add_i32_pos, sub_i32_pos, as_i32_pos, Outcome, ok, err,
  panic, ◌>>=◌, ok_or, Outcome-cases, Eq, string_eq, ◌⧺◌, contains_char, strip_prefix, is_some,
  starts_with, split, decimal,
}
use silverwind.Errors.{from, to_string, Cause}
use silverwind.External.{Http, IpNets}
use silverwind.Denial.{Denial, CheckResult, allowed, denied}

pub data AllowType : Type 0 where
  allow_all deny_all allow deny : AllowType

pub data AllowResult : Type 0 where
  allow deny not_mapping : AllowResult

pub record AllowDenyItem : Type 0 where
  pub policy : AllowType
  pub value : Option String

pub record AllowDenyIp : Type 0 where
  pub rules : List AllowDenyItem

module _ (nets : IpNets) where
  -- A value with a `/` is parsed as a network first, and the client's address after it.
  unfoldable pub is_mapped : String → String → Outcome Bool
  unfolding contains_char
  is_mapped config_ip client_ip =
      if contains_char b'/' config_ip
      then (ok_or (nets.parse_net config_ip) (from Cause.ip_parse (nets.net_error config_ip))
          >>= λ range.
              ok_or (nets.parse_addr client_ip) (from Cause.addr_parse (nets.addr_error client_ip))
              >>= λ source_ip. ok (nets.net_contains range source_ip))
      else ok (str_eq config_ip client_ip)

  answer : AllowResult → Bool → AllowResult
  answer hit true = hit
  answer hit false = not_mapping

  no_value : String
  no_value = "the value counld not be none when the limit_type is not AllowAll or DenyAll!"

  item_allows : AllowType → Option String → String → Outcome AllowResult
  unfolding answer no_value
  item_allows allow_all value client_ip = ok AllowResult.allow
  item_allows deny_all value client_ip = ok AllowResult.deny
  item_allows allow none client_ip = err no_value
  item_allows deny none client_ip = err no_value
  item_allows allow (some config_ip) client_ip =
      is_mapped config_ip client_ip >>= λ hit. ok (answer AllowResult.allow hit)
  item_allows deny (some config_ip) client_ip =
      is_mapped config_ip client_ip >>= λ hit. ok (answer AllowResult.deny hit)

  unfoldable pub is_allow : AllowDenyItem → String → Outcome AllowResult
  unfolding item_allows
  is_allow item client_ip = item_allows item.policy item.value client_ip

  -- An error is wrapped once more by `AppError(err.to_string())`, whose text has this prefix.
  decide : Outcome AllowResult → Outcome Bool → Outcome Bool
  decide (ok AllowResult.allow) rest = ok true
  decide (ok AllowResult.deny) rest = ok false
  decide (ok not_mapping) rest = rest
  decide (err e) rest = err (to_string e)
  decide panic rest = panic

  first_decision : List AllowDenyItem → String → Outcome Bool
  unfolding decide is_allow
  first_decision [] ip = ok true
  first_decision (item ∷ rules) ip = decide (is_allow item ip) (first_decision rules ip)

  unfoldable pub ip_is_allowed : AllowDenyIp → String → Outcome Bool
  unfolding first_decision
  ip_is_allowed list ip = first_decision list.rules ip

  module _ (http : Http) where
    answer_of : Bool → CheckResult http
    answer_of true = allowed
    answer_of false = denied (record {
      status = 403;
      headers = http.empty;
      body = "Access from your IP address is forbidden";
    })

    unfoldable pub check_request : String → AllowDenyIp → Outcome (CheckResult http)
    unfolding answer_of
    check_request ip list = ip_is_allowed list ip >>= λ passes. ok (answer_of passes)
