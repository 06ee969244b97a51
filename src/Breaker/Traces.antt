-- ===== src/Breaker/Traces.antt =====
-- How a breaker trips, waits and recovers.
use silverwind.Prelude.{
  some, ◌∙◌, get_elem?, suc, ℕ, ◌+◌, ◌≤◌, ◌<◌, ◌≡◌, refl, ◌⊎◌, inl, inr, true, false, List, [], ◌∷◌,
  arith, length, leb, ◌||◌, ◌&&◌, if◌then◌else◌, All, map,
}
use silverwind.External.{Float}
use silverwind.Breaker.{
  closed, open_until, CircuitBreaker, is_call_allowed, record_success, record_failure, rate_reached,
}
use silverwind.Breaker.Invariant.{step_threshold, step_duration}
use silverwind.Breaker.Step.{Event, check, success, failure, step, run}

module _ (float : Float) (b : CircuitBreaker float) where
  -- A failure of a closed breaker, with no counter at its limit, opens it until the clock reading
  -- plus `open_duration` exactly when the run of failures reaches the threshold, or there are
  -- enough requests and the failure rate is reached. Otherwise it stays closed with the three
  -- counters one higher.
  pub record_failure-closed :
      (now f t c : ℕ)
      → b.state ≡ closed f t c
      → f + 1 < 18446744073709551616
      → t + 1 < 18446744073709551616
      → c + 1 < 4294967296
      → (record_failure float now b).state ≡ (
          if leb b.consecutive_failure_threshold (c + 1)
            || (leb b.min_requests_for_rate_calculation (t + 1)
                && rate_reached float b (f + 1) (t + 1))
          then open_until (now + b.open_duration)
          else closed (f + 1) (t + 1) (c + 1))
  unfolding record_failure rate_reached
  record_failure-closed now f t c h lf lt lc = rw (h, record_failure) (ground arith)

-- The calls that come before the time `t`, by their readings of the clock.
abbrev pub IsBefore : ℕ → Event → Type 0
IsBefore t (check now) = now < t
IsBefore t success = Unit
IsBefore t (failure now) = Unit

module _ (float : Float) where
  step_open :
      (e : Event) (b : CircuitBreaker float) (t : ℕ)
      → b.state ≡ open_until t
      → IsBefore t e
      → step float e b ≡ b
  unfolding step is_call_allowed record_success record_failure
  step_open (check now) b t h l = ground arith
  step_open success b t h l = ground arith
  step_open (failure now) b t h l = ground arith

  run_open :
      (es : List Event) (b : CircuitBreaker float) (t : ℕ)
      → b.state ≡ open_until t
      → All (IsBefore t) es
      → run float es b ≡ b
  unfolding run
  run_open [] b t h all = refl
  run_open (e ∷ es) b t h (first, rest) = rw (step_open e b t h first) (run_open es b t h rest)

  refused :
      (b : CircuitBreaker float) (t now : ℕ)
      → b.state ≡ open_until t
      → now < t
      → (is_call_allowed float now b).1 ≡ false
  unfolding is_call_allowed
  refused b t now h l = ground arith

  -- An open breaker is left as it is by every call whose check reads a time before the deadline,
  -- outcomes of earlier requests included, and a check before the deadline is refused.
  pub open_stays_open :
      (es : List Event) (b : CircuitBreaker float) (t now : ℕ)
      → b.state ≡ open_until t
      → All (IsBefore t) es
      → now < t
      → (run float es b ≡ b) × ((is_call_allowed float now (run float es b)).1 ≡ false)
  open_stays_open es b t now h all l = rw (run_open es b t h all) (refl, refused b t now h l)

  -- From the deadline on, the first check of an open breaker is admitted and makes it half-open.
  -- Then a success closes it with its counters at 0, and a failure opens it again for
  -- `open_duration` from its own clock reading.
  pub open-recovers :
      (b : CircuitBreaker float) (t now later : ℕ)
      → b.state ≡ open_until t
      → t ≤ now
      → ((is_call_allowed float now b).1 ≡ true)
        × ((run float (check now ∷ success ∷ []) b).state ≡ closed 0 0 0)
        × ((run float (check now ∷ failure later ∷ []) b).state
            ≡ open_until (later + b.open_duration))
  unfolding run step is_call_allowed record_success record_failure
  open-recovers b t now later h l = (ground arith, ground arith, ground arith)

  failures_open :
      (nows : List ℕ) (b : CircuitBreaker float) (d : ℕ)
      → b.state ≡ open_until d
      → (run float (map failure nows) b).state ≡ open_until d
  unfolding run
  failures_open [] b d h = h
  failures_open (now ∷ nows) b d h =
      failures_open nows (step float (failure now) b) d (rw (step_open (failure now) b d h tt) h)

  step_failure :
      (b : CircuitBreaker float) (now f t c : ℕ)
      → b.state ≡ closed f t c
      → f + 1 < 18446744073709551616
      → t + 1 < 18446744073709551616
      → c + 1 < 4294967296
      → ((step float (failure now) b).state ≡ open_until (now + b.open_duration))
        ⊎ (((step float (failure now) b).state ≡ closed (f + 1) (t + 1) (c + 1))
            × (c + 1 < b.consecutive_failure_threshold))
  unfolding step
  step_failure b now f t c h lf lt lc =
      ground (arith, record_failure-closed float b now f t c h lf lt lc)

  -- The breaker is open until `open_duration` after one of the readings.
  abbrev pub IsOpenAfter : List ℕ → CircuitBreaker float → CircuitBreaker float → Type 0
  IsOpenAfter nows b b' =
      (i : ℕ) × (now : ℕ) × (get_elem? nows i ≡ some now)
      × (b'.state ≡ open_until (now + b.open_duration))

  -- A closed breaker whose run of failures, with the failures that now come one after the other,
  -- reaches the threshold is open at the end, until `open_duration` after one of the failures,
  -- whatever the failure rate was: at least one failure comes, and no counter reaches its width's
  -- limit.
  pub failures_trip :
      (nows : List ℕ) (b : CircuitBreaker float) (f t c : ℕ)
      → b.state ≡ closed f t c
      → 0 < length nows
      → b.consecutive_failure_threshold ≤ c + length nows
      → f + length nows < 18446744073709551616
      → t + length nows < 18446744073709551616
      → c + length nows < 4294967296
      → IsOpenAfter nows b (run float (map failure nows) b)
  unfolding run
  failures_trip [] b f t c h some_failed k lf lt lc = absurd (omega arith)
  failures_trip (now ∷ nows) b f t c h some_failed k lf lt lc =
      elim (step_failure b now f t c h (omega arith) (omega arith) (omega arith)) [
        | inl opened ↦ (
          0,
          now,
          refl,
          failures_open nows (step float (failure now) b) (now + b.open_duration) opened,
        )
        | inr (counted, below) ↦
            let (i, reading, found, opened) =
              failures_trip nows (step float (failure now) b) (f + 1) (t + 1) (c + 1) counted
                (omega arith) (rw (step_threshold float (failure now) b) (omega arith))
                (omega arith) (omega arith) (omega arith) in
            (suc i, reading, found, opened ∙ rw (step_duration float (failure now) b) refl)
      ]
