-- ===== src/Middleware/Tests.antt =====
-- Requests through middlewares that share limiters and breakers.
use silverwind.Prelude.{
  ℕ, ◌+◌, ◌/◌, ◌<◌, String, ◌≡◌, refl, ◌≢◌, false, Option, none, some, List, [], ◌∷◌, arith, leb,
  get_elem?, ℤ, pos, ok, err, panic, string_eq,
}
use silverwind.External.Samples.{plain_http, plain_nets}
use silverwind.External.{Float}
use silverwind.Denial.{allowed, denied}
use silverwind.RateLimit.{Ratelimit, token_bucket}
use silverwind.RateLimit
use silverwind.RateLimit.Scope.{LimitLocation, TimeUnit, matched, get_million_second}
use silverwind.RateLimit.TokenBucket
use silverwind.RateLimit.TokenBucket.{tokens_to_add}
use silverwind.AllowDeny
use silverwind.AllowDeny.{AllowType, AllowDenyIp}
use silverwind.Breaker.{CircuitBreaker, closed}
use silverwind.Authentication.{Crypto}
use silverwind.Middleware.{
  allow_deny_list, forward_header, rate_limit, circuit_breaker, Store, Reading, check_request,
  check_all,
}
use silverwind.Middleware.Chain.{AreAllowed, nobody, another, check_all-first_refusal}
use silverwind.Middleware.Shared.{outage_refuses, after_responses, Check}

abbrev no_crypto : Crypto
no_crypto = record { encode = λ s. s; decodes = λ auth token. false }

abbrev no_key : List (String × ℤ) → Option String
no_key m = none

abbrev whole : Float
whole = record { F64 = ℕ; of_u64 = λ n. n; divide = λ a b. a / b; ge = λ a b. leb b a }

abbrev breaker : CircuitBreaker whole
breaker = record {
  failure_rate_threshold = 1;
  consecutive_failure_threshold = 2;
  open_duration = 100;
  half_open_max_requests = 3;
  min_requests_for_rate_calculation = 10;
  state = closed 0 0 0;
}

-- Its rate is 0, and it is empty.
abbrev empty_bucket : Ratelimit
empty_bucket = token_bucket (record {
  rate_per_unit = pos 0;
  unit = TimeUnit.second;
  capacity = pos 2;
  scope = LimitLocation.ip "10.0.0.1";
  current_count = pos 0;
  last_update_time = 0;
})

abbrev store : Store whole
store = record {
  limiters = λ r. record { value = empty_bucket; poisoned = false };
  breakers = λ r. record { value = breaker; poisoned = false };
}

abbrev reading : Reading
reading = record { clock = record { first = 5; second = 5; third = 5 }; instant = 7 }

abbrev bare : String → Option String
bare k = none

abbrev closed_door : AllowDenyIp
closed_door = record { rules = record { policy = AllowType.deny_all; value = none } ∷ [] }

panics :
    (check_request plain_http no_crypto plain_nets whole no_key "poisoned" reading "10.0.0.1"
      (some bare)
      store
      (rate_limit 4)).1
    ≡ panic
unfolding check_request RateLimit.check_request RateLimit.should_limit TokenBucket.should_limit
    matched tokens_to_add get_million_second
panics = refl

another_client : Check plain_http no_crypto plain_nets whole no_key "poisoned"
another_client = record {
  reading = reading;
  ip = "10.0.0.9";
  carried = some bare;
  middleware = rate_limit 4;
}

admitted :
    AreAllowed plain_http no_crypto plain_nets whole no_key "poisoned" "10.0.0.1"
      (some bare)
      (λ i. reading)
      (forward_header ∷ [])
      store
      store
unfolding check_request
admitted = another refl nobody

refused :
    (check_request plain_http no_crypto plain_nets whole no_key "poisoned" reading "10.0.0.1"
      (some bare)
      store
      (allow_deny_list closed_door)).1
    ≢ ok allowed
unfolding check_request AllowDeny.check_request AllowDeny.ip_is_allowed AllowDeny.is_allow
refused e = cc

check_all-first_refusal_example :
    check_all plain_http no_crypto plain_nets whole no_key "poisoned"
      (λ i. reading)
      "10.0.0.1"
      (some bare)
      (forward_header ∷ allow_deny_list closed_door ∷ rate_limit 4 ∷ [])
      store
    ≡ check_request plain_http no_crypto plain_nets whole no_key "poisoned" reading "10.0.0.1"
        (some bare)
        store
        (allow_deny_list closed_door)
check_all-first_refusal_example =
    (check_all-first_refusal plain_http no_crypto plain_nets whole no_key "poisoned" "10.0.0.1"
        (some bare) (λ i. reading) (forward_header ∷ []) (rate_limit 4 ∷ [])
        (allow_deny_list closed_door) store store admitted).1
      refused

outage_refuses_example :
    (i : ℕ) × (recorded_at : ℕ) × (get_elem? (1 ∷ 2 ∷ []) i ≡ some recorded_at)
    × ((now : Reading) (ip : String) (m : Option (String → Option String))
        → now.instant < recorded_at + 100
        → (check_request plain_http no_crypto plain_nets whole no_key "poisoned" now ip m
            (after_responses plain_http no_crypto plain_nets whole no_key "poisoned" 3
              ((1, ok 502) ∷ (2, err "refused") ∷ [])
              store)
            (circuit_breaker 3)).1
          ≡ ok (
              denied (record {
                status = 503;
                headers = plain_http.insert plain_http.empty "retry-after" "30";
                body = "Service unavailable";
              })))
outage_refuses_example =
    outage_refuses plain_http no_crypto plain_nets whole no_key "poisoned" 3
      ((1, ok 502) ∷ (2, err "refused") ∷ []) store breaker 0 0 0 "30" refl (refl, (tt, tt)) refl
      refl (omega arith) (omega arith) (omega arith) (omega arith) (omega arith)
