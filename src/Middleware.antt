-- ===== src/Middleware.antt =====
-- rust-proxy/src/middleware/middlewares.rs and the two passes over them in proxy/proxy_trait.rs and
-- vojo/app_config.rs; rate_limit.rs and circuit_breaker.rs for what runs under a lock.
-- A limiter and a breaker stand behind `Arc<Mutex<..>>`: copies of a route share them, so a
-- middleware holds the index of a cell of a store. A panic poisons the cell that it left locked.
mod Chain
pub mod Responses
mod Shared
mod Tests
use silverwind.Prelude.{
  ℕ, zero, suc, ◌+◌, ◌-◌, ◌*◌, ◌/◌, ◌%◌, ◌^◌, ◌≤◌, ◌<◌, String, ◌≡◌, refl, sym, ap, ◌∙◌, ◌≢◌, ◌↔◌,
  ◌⊎◌, inl, inr, Bool, true, false, not, ◌&&◌, ◌||◌, Option, none, some, List, [], ◌∷◌, ◌++◌, map,
  arith, eq_iff, eq_refl, ltb, leb, str_eq, ◌==◌, if◌then◌else◌, Bool-cases, Option-cases, lt→ltb,
  le→ltb, le→leb, lt→leb, length, get_elem?, is_empty, any, all, select, replicate, length-append,
  get_elem?_lt, All, All-get_elem?, All-select, select-holds, ℤ, pos, negsuc, to_u32, as_i32,
  add_i32, sub_i32, lt_ℤ, le_ℤ, min_ℤ, add_i32_pos, sub_i32_pos, as_i32_pos, Outcome, ok, err,
  panic, ◌>>=◌, ok_or, Outcome-cases, Done, Eq, string_eq, ◌⧺◌, contains_char, strip_prefix,
  is_some, starts_with, split, decimal, and_then,
}
use silverwind.External.{Http, IpNets, Float, Codecs}
use silverwind.Denial.{Denial, CheckResult, allowed, denied}
use silverwind.RateLimit.{Ratelimit}
use silverwind.RateLimit
use silverwind.RateLimit.FixedWindow.{Clock}
use silverwind.Breaker.{CircuitBreaker, is_call_allowed, record_success, record_failure}
use silverwind.AllowDeny.{AllowDenyIp}
use silverwind.AllowDeny
use silverwind.Authentication.{Authentication, Crypto}
use silverwind.Authentication
use silverwind.Headers.{RequestHeaders}
use silverwind.Headers
use silverwind.Cors.{CorsConfig}
use silverwind.Cors
use silverwind.StaticHeaders.{StaticResourceHeaders}
use silverwind.StaticHeaders
use silverwind.Compression.{Compression}
use silverwind.Compression
use silverwind.Response.{Response}

pub data MiddleWares : Type 0 where
  rate_limit : (cell : ℕ) → MiddleWares
  authentication : Authentication → MiddleWares
  allow_deny_list : AllowDenyIp → MiddleWares
  cors : CorsConfig → MiddleWares
  headers : StaticResourceHeaders → MiddleWares
  forward_header : MiddleWares
  circuit_breaker : (cell : ℕ) → MiddleWares
  request_headers : RequestHeaders → MiddleWares
  compression : Compression → MiddleWares

-- A `Mutex` and its value.
pub record Cell (A : Type 0) : Type 0 where
  pub value : A
  pub poisoned : Bool

pub record Store (float : Float) : Type 0 where
  pub limiters : ℕ → Cell Ratelimit
  pub breakers : ℕ → Cell (CircuitBreaker float)

-- What a call reads from the clocks.
pub record Reading : Type 0 where
  pub clock : Clock
  pub instant : ℕ

abbrev pub put : {A : Type 0} → ℕ → A → (ℕ → A) → ℕ → A
put i a f j = if i == j then a else f j

unfoldable pub is_panic : {A : Type 0} → Outcome A → Bool
is_panic (ok a) = false
is_panic (err e) = false
is_panic panic = true

-- `let mut lock = self.lock()?;` and then the body, which holds the lock to its end.
unfoldable pub locked : {A B : Type 0} → String → Cell A → (A → A × Outcome B) → Cell A × Outcome B
unfolding is_panic
locked poison_error c body =
    let (a, answer) = body c.value in
    if c.poisoned
    then (c, err poison_error)
    else (record { value = a; poisoned = is_panic answer }, answer)

-- `StatusCode::is_success`.
abbrev pub is_success : ℕ → Bool
is_success status = leb 200 status && ltb status 300

module _ (http : Http) (crypto : Crypto) (nets : IpNets) (float : Float)
    (first_key : List (String × ℤ) → Option String) (poison_error : String) where
  unavailable : Option http.HeaderValue → Outcome (CheckResult http)
  unavailable none = panic
  unavailable (some v) = ok (
      denied (record {
        status = 503;
        headers = http.insert http.empty "retry-after" v;
        body = "Service unavailable";
      }))

  breaker_answer : Bool → Outcome (CheckResult http)
  unfolding unavailable
  breaker_answer true = ok allowed
  breaker_answer false = unavailable (http.of_str "30")

  unfoldable pub breaker_check :
      ℕ → CircuitBreaker float → CircuitBreaker float × Outcome (CheckResult http)
  unfolding breaker_answer
  breaker_check now b =
      let (b', passes) = is_call_allowed float now b in (b', breaker_answer passes)

  with_limiter :
      ℕ
      → Store float
      → Cell Ratelimit × Outcome (CheckResult http)
      → Store float × Outcome (CheckResult http)
  with_limiter r s (c, answer) = (record s { limiters = put r c s.limiters }, answer)

  with_breaker :
      ℕ
      → Store float
      → Cell (CircuitBreaker float) × Outcome (CheckResult http)
      → Store float × Outcome (CheckResult http)
  with_breaker r s (c, answer) = (record s { breakers = put r c s.breakers }, answer)

  -- A limiter is locked only for a request that comes with headers.
  limiter_check :
      Reading
      → String
      → Option http.HeaderMap
      → Store float
      → ℕ
      → Store float × Outcome (CheckResult http)
  unfolding with_limiter locked
  limiter_check now ip none s r = (s, ok allowed)
  limiter_check now ip (some m) s r = with_limiter r s (
      locked ("Rate limit mutex error: " ⧺ poison_error) (s.limiters r)
        (RateLimit.check_request http nets first_key now.clock ip (some m)))

  unfoldable pub check_request :
      Reading
      → String
      → Option http.HeaderMap
      → Store float
      → MiddleWares
      → Store float × Outcome (CheckResult http)
  unfolding limiter_check with_breaker locked breaker_check
  check_request now ip m s (rate_limit r) = limiter_check now ip m s r
  check_request now ip m s (authentication auth) =
      (s, Authentication.check_request http crypto m auth)
  check_request now ip m s (allow_deny_list list) = (s, AllowDeny.check_request nets http ip list)
  check_request now ip m s (circuit_breaker r) = with_breaker r s (
      locked ("Circuit breaker mutex error: " ⧺ poison_error) (s.breakers r)
        (breaker_check now.instant))
  check_request now ip m s (cors c) = (s, ok allowed)
  check_request now ip m s (headers c) = (s, ok allowed)
  check_request now ip m s forward_header = (s, ok allowed)
  check_request now ip m s (request_headers config) = (s, ok allowed)
  check_request now ip m s (compression c) = (s, ok allowed)

  -- What a pass does after one middleware's answer: only an admission lets it go on.
  next :
      Store float × Outcome (CheckResult http)
      → (Store float → Store float × Outcome (CheckResult http))
      → Store float × Outcome (CheckResult http)
  next (s, ok allowed) rest = rest s
  next (s, ok (denied d)) rest = (s, ok (denied d))
  next (s, err e) rest = (s, err e)
  next (s, panic) rest = (s, panic)

  -- `RouteConfig::is_allowed` on the middlewares that are there. Each check reads the clocks anew.
  unfoldable pub check_all :
      (ℕ → Reading)
      → String
      → Option http.HeaderMap
      → List MiddleWares
      → Store float
      → Store float × Outcome (CheckResult http)
  unfolding next check_request
  check_all now ip m [] s = (s, ok allowed)
  check_all now ip m (mw ∷ mws) s =
      next (check_request (now 0) ip m s mw) (check_all (λ i. now (suc i)) ip m mws)

  unfoldable pub is_allowed :
      (ℕ → Reading)
      → String
      → Option http.HeaderMap
      → Option (List MiddleWares)
      → Store float
      → Store float × Outcome (CheckResult http)
  unfolding check_all
  is_allowed now ip m none s = (s, ok allowed)
  is_allowed now ip m (some mws) s = check_all now ip m mws s

module _ (http : Http) where
  unfoldable pub handle_request :
      String → http.HeaderMap → MiddleWares → http.HeaderMap × Outcome Done
  handle_request ip m forward_header = Headers.handle_before_request http ip m
  handle_request ip m (request_headers config) = Headers.handle_request http config m
  handle_request ip m _ = (m, ok tt)

  -- `handle_before_request` of the chain.
  unfoldable pub handle_all :
      String → List MiddleWares → http.HeaderMap → http.HeaderMap × Outcome Done
  unfolding handle_request
  handle_all ip [] m = (m, ok tt)
  handle_all ip (mw ∷ mws) m = and_then (handle_request ip m mw) (handle_all ip mws)

module _ (float : Float) where
  -- What a breaker records of a response: the status of one that came, or that none did.
  unfoldable pub recorded : ℕ → Outcome ℕ → CircuitBreaker float → CircuitBreaker float
  recorded now (ok status) b =
      if is_success status then record_success float b else record_failure float now b
  recorded now _ b = record_failure float now b

  -- A poisoned breaker records nothing.
  record_cell : ℕ → Outcome ℕ → Cell (CircuitBreaker float) → Cell (CircuitBreaker float)
  unfolding recorded
  record_cell now response c =
      if c.poisoned then c else record c { value = recorded now response c.value }

  unfoldable pub record_outcome : ℕ → Outcome ℕ → MiddleWares → Store float → Store float
  unfolding record_cell
  record_outcome now response (circuit_breaker r) s = record s {
    breakers = put r (record_cell now response (s.breakers r)) s.breakers;
  }
  record_outcome now response _ s = s

  -- The first loop of `handle_before_response`, which runs for every middleware.
  unfoldable pub record_all : (ℕ → ℕ) → Outcome ℕ → List MiddleWares → Store float → Store float
  unfolding record_outcome
  record_all now response [] s = s
  record_all now response (mw ∷ mws) s =
      record_all (λ i. now (suc i)) response mws (record_outcome (now 0) response mw s)
