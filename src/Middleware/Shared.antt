-- ===== src/Middleware/Shared.antt =====
-- Limiters and breakers that several middlewares share, and what a panic leaves.
use silverwind.Prelude.{
  ℕ, ◌+◌, ◌≤◌, ◌<◌, String, ◌≡◌, refl, ap, ◌∙◌, ◌≢◌, inl, inr, true, false, Option, none, some,
  List, [], ◌∷◌, map, arith, Bool-cases, length, get_elem?, All, ℤ, Outcome, ok, err, panic,
  string_eq, ◌⧺◌,
}
use silverwind.External.{Http, IpNets, Float}
use silverwind.Denial.{CheckResult, denied}
use silverwind.Authentication.{Crypto}
use silverwind.RateLimit.{Ratelimit}
use silverwind.RateLimit
use silverwind.Breaker.{CircuitBreaker, closed, is_call_allowed}
use silverwind.Breaker.Step.{failure, run, step}
use silverwind.Breaker.Traces.{failures_trip, open_stays_open}
use silverwind.Middleware.{
  MiddleWares, rate_limit, circuit_breaker, Cell, Store, Reading, put, is_panic, locked,
  limiter_check, with_limiter, with_breaker, breaker_check, breaker_answer, unavailable,
  check_request, recorded, record_cell, record_outcome, authentication, allow_deny_list, cors,
  headers, forward_header, request_headers, compression, is_success,
}

put_same : {A : Type 0} (r : ℕ) (a : A) (f : ℕ → A) → put r a f r ≡ a
put_same r a f = ground arith

put_other : {A : Type 0} (r q : ℕ) (a : A) (f : ℕ → A) → r ≢ q → put r a f q ≡ f q
put_other r q a f h = ground arith

locked_poisoned :
    {A B : Type 0} (e : String) (c : Cell A) (body : A → A × Outcome B)
    → c.poisoned ≡ true
    → locked e c body ≡ (c, err e)
unfolding locked
locked_poisoned e c body h = rw h refl

-- A panic under a lock, which was therefore not poisoned before, poisons it.
locked_panic :
    {A B : Type 0} (e : String) (c : Cell A) (body : A → A × Outcome B)
    → (locked e c body).1 ≡ panic
    → (locked e c body).0.poisoned ≡ true
unfolding locked is_panic
locked_panic e c body h = elim (Bool-cases c.poisoned) [
  | inl bad ↦ rw bad refl
  | inr good ↦ rw good (ap is_panic (rw good at h))
]

locked_keeps :
    {A B : Type 0} (e : String) (c : Cell A) (body : A → A × Outcome B)
    → c.poisoned ≡ true
    → (locked e c body).0.poisoned ≡ true
unfolding locked
locked_keeps e c body h = rw h refl

module _ (http : Http) (crypto : Crypto) (nets : IpNets) (float : Float)
    (first_key : List (String × ℤ) → Option String) (poison_error : String) where
  -- A check that some request makes.
  pub record Check : Type 0 where
    pub reading : Reading
    pub ip : String
    pub carried : Option http.HeaderMap
    pub middleware : MiddleWares

  abbrev pub check : Check → Store float → Store float × Outcome (CheckResult http)
  check c s =
      check_request http crypto nets float first_key poison_error c.reading c.ip c.carried s
        c.middleware

  pub after_checks : List Check → Store float → Store float
  after_checks [] s = s
  after_checks (c ∷ cs) s = after_checks cs (check c s).0

  IsPoisoned : ℕ → Store float → Type 0
  IsPoisoned r s = (s.limiters r).poisoned ≡ true

  put_poisoned :
      (r q : ℕ) (c : Cell Ratelimit) (f : ℕ → Cell Ratelimit)
      → (f r).poisoned ≡ true
      → (q ≡ r → c.poisoned ≡ true)
      → (put q c f r).poisoned ≡ true
  put_poisoned r q c f old new = ground arith

  check-IsPoisoned :
      (r : ℕ) (c : Check) (s : Store float) → IsPoisoned r s → IsPoisoned r (check c s).0
  unfolding IsPoisoned check_request limiter_check with_limiter with_breaker
  check-IsPoisoned r c s h = by_kind c.middleware c.carried
    where
      by_kind :
          (mw : MiddleWares) (m : Option http.HeaderMap)
          → IsPoisoned r
              (check_request http crypto nets float first_key poison_error c.reading c.ip m s mw).0
      by_kind (rate_limit q) none = h
      by_kind (rate_limit q) (some m) = put_poisoned r q _ s.limiters h (λ e.
          locked_keeps ("Rate limit mutex error: " ⧺ poison_error) (s.limiters q)
            (RateLimit.check_request http nets first_key c.reading.clock c.ip (some m)) (rw e h))
      by_kind (authentication a) m = h
      by_kind (allow_deny_list l) m = h
      by_kind (cors c) m = h
      by_kind (headers c) m = h
      by_kind forward_header m = h
      by_kind (circuit_breaker q) m = h
      by_kind (request_headers x) m = h
      by_kind (compression c) m = h

  checks-IsPoisoned :
      (r : ℕ) (cs : List Check) (s : Store float)
      → IsPoisoned r s
      → IsPoisoned r (after_checks cs s)
  unfolding after_checks
  checks-IsPoisoned r [] s h = h
  checks-IsPoisoned r (c ∷ cs) s h = checks-IsPoisoned r cs (check c s).0 (check-IsPoisoned r c s h)

  panic-IsPoisoned :
      (r : ℕ) (now : Reading) (ip : String) (m : http.HeaderMap) (s : Store float)
      → (check_request http crypto nets float first_key poison_error now ip
          (some m)
          s
          (rate_limit r)).1
        ≡ panic
      → IsPoisoned r
          (check_request http crypto nets float first_key poison_error now ip
            (some m)
            s
            (rate_limit r)).0
  unfolding IsPoisoned check_request limiter_check with_limiter
  panic-IsPoisoned r now ip m s h = rw (put_same r _ s.limiters) (
      locked_panic ("Rate limit mutex error: " ⧺ poison_error) (s.limiters r)
        (RateLimit.check_request http nets first_key now.clock ip (some m)) h)

  -- When the check of one request panics in a shared limiter, every later check of that limiter
  -- with headers fails with the poisoned lock's error, whatever checks come in between.
  panic_disables :
      (r : ℕ) (now after : Reading) (ip jp : String) (m n : http.HeaderMap) (s : Store float)
      (cs : List Check)
      → (check_request http crypto nets float first_key poison_error now ip
          (some m)
          s
          (rate_limit r)).1
        ≡ panic
      → (check_request http crypto nets float first_key poison_error after jp
          (some n)
          (after_checks cs
            (check_request http crypto nets float first_key poison_error now ip
              (some m)
              s
              (rate_limit r)).0)
          (rate_limit r)).1
        ≡ err ("Rate limit mutex error: " ⧺ poison_error)
  unfolding check_request limiter_check with_limiter IsPoisoned
  panic_disables r now after ip jp m n s cs h =
      ap (λ x. x.1)
        (locked_poisoned ("Rate limit mutex error: " ⧺ poison_error)
          ((after_checks cs _).limiters r)
          (RateLimit.check_request http nets first_key after.clock jp (some n))
          (checks-IsPoisoned r cs _ (panic-IsPoisoned r now ip m s h)))

module _ (http : Http) (crypto : Crypto) (nets : IpNets) (float : Float)
    (first_key : List (String × ℤ) → Option String) (poison_error : String) (r : ℕ) where
  -- A response that the breaker counts as a failure: none came, or its status is no success.
  abbrev pub IsFailure : ℕ × Outcome ℕ → Type 0
  IsFailure (now, ok status) = is_success status ≡ false
  IsFailure (now, err e) = Unit
  IsFailure (now, panic) = Unit

  pub after_responses : List (ℕ × Outcome ℕ) → Store float → Store float
  after_responses [] s = s
  after_responses ((now, response) ∷ rest) s =
      after_responses rest (record_outcome float now response (circuit_breaker r) s)

  record_cell-failure :
      (now : ℕ) (response : Outcome ℕ) (c : Cell (CircuitBreaker float))
      → IsFailure (now, response)
      → c.poisoned ≡ false
      → record_cell float now response c
        ≡ record { value = step float (failure now) c.value; poisoned = false }
  unfolding record_cell recorded step
  record_cell-failure now (ok status) c fails good = rw (good, fails) refl
  record_cell-failure now (err e) c fails good = rw good refl
  record_cell-failure now panic c fails good = rw good refl

  abbrev failures : List (ℕ × Outcome ℕ) → List ℕ
  failures rs = map (λ x. x.0) rs

  after_responses-run :
      (rs : List (ℕ × Outcome ℕ)) (s : Store float) (b : CircuitBreaker float)
      → All IsFailure rs
      → s.breakers r ≡ record { value = b; poisoned = false }
      → (after_responses rs s).breakers r
        ≡ record { value = run float (map failure (failures rs)) b; poisoned = false }
  unfolding after_responses record_outcome run
  after_responses-run [] s b h e = e
  after_responses-run ((now, response) ∷ rs) s b (f, h) e =
      after_responses-run rs _ (step float (failure now) b) h (
        put_same r _ s.breakers
        ∙ record_cell-failure now response (s.breakers r) f (rw e refl)
        ∙ rw e refl)

  refused_by :
      (now : Reading) (ip : String) (m : Option http.HeaderMap) (s : Store float)
      (b : CircuitBreaker float) (v : http.HeaderValue)
      → http.of_str "30" ≡ some v
      → s.breakers r ≡ record { value = b; poisoned = false }
      → (is_call_allowed float now.instant b).1 ≡ false
      → (check_request http crypto nets float first_key poison_error now ip m s
          (circuit_breaker r)).1
        ≡ ok (
            denied (record {
              status = 503;
              headers = http.insert http.empty "retry-after" v;
              body = "Service unavailable";
            }))
  unfolding check_request with_breaker breaker_check breaker_answer unavailable locked
  refused_by now ip m s b v thirty cell refused = rw cell (rw refused (rw thirty refl))

  -- Once as many requests in a row have failed as a closed, unpoisoned breaker still needs to reach
  -- its threshold, counters away from their limits, every request is refused by it
  -- with status 503 and a Retry-After header of 30, whoever sends it, until `open_duration` after
  -- the record of one of these failures.
  pub outage_refuses :
      (rs : List (ℕ × Outcome ℕ)) (s : Store float) (b : CircuitBreaker float) (f t c : ℕ)
      (v : http.HeaderValue)
      → http.of_str "30" ≡ some v
      → All IsFailure rs
      → s.breakers r ≡ record { value = b; poisoned = false }
      → b.state ≡ closed f t c
      → 0 < length (failures rs)
      → b.consecutive_failure_threshold ≤ c + length (failures rs)
      → f + length (failures rs) < 18446744073709551616
      → t + length (failures rs) < 18446744073709551616
      → c + length (failures rs) < 4294967296
      → (i : ℕ) × (recorded_at : ℕ) × (get_elem? (failures rs) i ≡ some recorded_at)
        × ((now : Reading) (ip : String) (m : Option http.HeaderMap)
            → now.instant < recorded_at + b.open_duration
            → (check_request http crypto nets float first_key poison_error now ip m
                (after_responses rs s)
                (circuit_breaker r)).1
              ≡ ok (
                  denied (record {
                    status = 503;
                    headers = http.insert http.empty "retry-after" v;
                    body = "Service unavailable";
                  })))
  unfolding run
  outage_refuses rs s b f t c v thirty fails cell state some_failed reaches lf lt lc =
      let (i, recorded_at, found, opened) =
        failures_trip float (failures rs) b f t c state some_failed reaches lf lt lc in
      (
        i,
        recorded_at,
        found,
        λ now ip m early.
            refused_by now ip m (after_responses rs s) (run float (map failure (failures rs)) b) v
              thirty (after_responses-run rs s b fails cell)
              (open_stays_open float [] (run float (map failure (failures rs)) b)
                (recorded_at + b.open_duration) now.instant opened tt early).1,
      )
