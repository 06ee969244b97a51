-- ===== src/Breaker/Invariant.antt =====
-- What holds of a breaker between two calls.
use silverwind.Prelude.{
  ℕ, ◌+◌, ◌≤◌, ◌<◌, ◌≡◌, refl, ◌⊎◌, inl, ◌∙◌, List, [], ◌∷◌, arith, length, ltb,
}
use silverwind.External.{Float}
use silverwind.Breaker.{
  State, closed, open_until, half_open, default, CircuitBreaker, is_call_allowed, record_success,
  record_failure,
}
use silverwind.Breaker.Step.{Event, check, success, failure, step, run}

-- The counters of a closed breaker after at most `n` calls, for the threshold `k`: a run of
-- failures is part of the failures, those are part of the requests, and it stays under `k`.
-- In the half-open state no probe has been counted.
abbrev pub IsSane : ℕ → ℕ → State → Type 0
IsSane k n (closed f t c) = (c ≤ f) × (f ≤ t) × (t ≤ n) × ((c ≡ 0) ⊎ (c < k))
IsSane k n (open_until opens_at) = Unit
IsSane k n (half_open s t) = (s ≡ 0) × (t ≡ 0)

module _ (float : Float) where
  pub step_threshold :
      (e : Event) (b : CircuitBreaker float)
      → (step float e b).consecutive_failure_threshold ≡ b.consecutive_failure_threshold
  unfolding step is_call_allowed record_success record_failure
  step_threshold (check now) b = ground arith
  step_threshold success b = ground arith
  step_threshold (failure now) b = ground arith

  pub step_duration :
      (e : Event) (b : CircuitBreaker float) → (step float e b).open_duration ≡ b.open_duration
  unfolding step is_call_allowed record_success record_failure
  step_duration (check now) b = ground arith
  step_duration success b = ground arith
  step_duration (failure now) b = ground arith

  step-IsSane :
      (e : Event) (b : CircuitBreaker float) (k n : ℕ)
      → b.consecutive_failure_threshold ≡ k
      → k < 4294967296
      → n + 1 < 18446744073709551616
      → IsSane k n b.state
      → IsSane k (n + 1) (step float e b).state
  unfolding step is_call_allowed record_success record_failure
  step-IsSane (check now) b k n e l m h = ground arith
  step-IsSane success b k n e l m h = ground arith
  step-IsSane (failure now) b k n e l m h = ground arith

  run-IsSane_from :
      (es : List Event) (b : CircuitBreaker float) (k n m : ℕ)
      → b.consecutive_failure_threshold ≡ k
      → k < 4294967296
      → m ≡ n + length es
      → m < 18446744073709551616
      → IsSane k n b.state
      → IsSane k m (run float es b).state
  unfolding run
  run-IsSane_from [] b k n m e lk em lm h = let same : m ≡ n = omega arith in rw same h
  run-IsSane_from (ev ∷ es) b k n m e lk em lm h =
      run-IsSane_from es (step float ev b) k (n + 1) m (step_threshold ev b ∙ e) lk (omega arith) lm
        (step-IsSane ev b k n e lk (omega arith) h)

  -- Starting from the default state, after any sequence of fewer than 2^64 calls with any clock
  -- readings: while the breaker is closed, the run of consecutive failures is part of the
  -- failures, those are part of the requests, there are no more requests than calls, and the run
  -- is 0 or below the threshold; while it is half-open, no probe has been counted.
  pub run-IsSane :
      (es : List Event) (b : CircuitBreaker float)
      → b.state ≡ default
      → b.consecutive_failure_threshold < 4294967296
      → length es < 18446744073709551616
      → IsSane b.consecutive_failure_threshold (length es) (run float es b).state
  run-IsSane es b d lk lm =
      run-IsSane_from es b b.consecutive_failure_threshold 0 (length es) refl lk (omega arith) lm
        (rw d (omega arith, omega arith, omega arith, inl refl))

  -- A breaker that was never half-open with a counted probe admits, in that state, a call exactly
  -- when `half_open_max_requests` is not 0: after any run from the default state, a half-open
  -- breaker answers every check alike and stays as it is.
  pub half_open-unlimited :
      (es : List Event) (b : CircuitBreaker float) (now s t : ℕ)
      → b.state ≡ default
      → b.consecutive_failure_threshold < 4294967296
      → length es < 18446744073709551616
      → (run float es b).state ≡ half_open s t
      → is_call_allowed float now (run float es b)
        ≡ (run float es b, ltb 0 (run float es b).half_open_max_requests)
  unfolding is_call_allowed
  half_open-unlimited es b now s t d lk lm h =
      let sane = run-IsSane es b d lk lm in
      let zero_probes : IsSane b.consecutive_failure_threshold (length es) (half_open s t) =
        rw h at sane in
      rw (h, is_call_allowed) (rw zero_probes.1)
