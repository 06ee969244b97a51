-- ===== src/Breaker/Tests.antt =====
-- Runs of a circuit breaker, and the theorems at them.
use silverwind.Prelude.{ℕ, ◌*◌, ◌≡◌, refl, true, List, [], ◌∷◌, map, arith, ltb, leb}
use silverwind.External.{Float}
use silverwind.Breaker.{
  State, closed, open_until, half_open, default, CircuitBreaker, is_call_allowed, record_success,
  record_failure, rate_reached,
}
use silverwind.Breaker.Step.{Event, check, success, failure, step, run}
use silverwind.Breaker.Invariant.{IsSane, run-IsSane, half_open-unlimited}
use silverwind.Breaker.Traces.{open-recovers, failures_trip, IsOpenAfter}

-- Fractions of natural numbers stand for the floating-point numbers.
abbrev fractions : Float
fractions = record {
  F64 = ℕ × ℕ;
  of_u64 = λ n. (n, 1);
  divide = λ a b. (a.0 * b.1, a.1 * b.0);
  ge = λ a b. leb (b.0 * a.1) (a.0 * b.1);
}

-- Trips at three failures in a row, or at half of at least four requests.
abbrev sample : State → CircuitBreaker fractions
sample s = record {
  failure_rate_threshold = (1, 2);
  consecutive_failure_threshold = 3;
  open_duration = 100;
  half_open_max_requests = 1;
  min_requests_for_rate_calculation = 4;
  state = s;
}

abbrev tripping : List Event
tripping = failure 10 ∷ success ∷ failure 20 ∷ success ∷ failure 30 ∷ []

trips_by_rate : (run fractions tripping (sample default)).state ≡ open_until 130
unfolding run step record_failure record_success rate_reached
trips_by_rate = refl

run-IsSane_example :
    IsSane 3 2 (run fractions (failure 10 ∷ failure 20 ∷ []) (sample default)).state
run-IsSane_example =
    run-IsSane fractions (failure 10 ∷ failure 20 ∷ []) (sample default) refl (omega arith)
      (omega arith)

abbrev probing : List Event
probing = failure 1 ∷ failure 2 ∷ failure 3 ∷ check 200 ∷ []

probes : (run fractions probing (sample default)).state ≡ half_open 0 0
unfolding run step record_failure is_call_allowed
probes = refl

half_open-unlimited_example :
    is_call_allowed fractions 201 (run fractions probing (sample default)) ≡ (
      run fractions probing (sample default),
      ltb 0 (run fractions probing (sample default)).half_open_max_requests,
    )
half_open-unlimited_example =
    half_open-unlimited fractions probing (sample default) 201 0 0 refl (omega arith) (omega arith)
      probes

open-recovers_example :
    ((is_call_allowed fractions 60 (sample (open_until 50))).1 ≡ true)
    × ((run fractions (check 60 ∷ success ∷ []) (sample (open_until 50))).state ≡ closed 0 0 0)
    × ((run fractions (check 60 ∷ failure 70 ∷ []) (sample (open_until 50))).state ≡ open_until 170)
open-recovers_example = open-recovers fractions (sample (open_until 50)) 50 60 70 refl (omega arith)

failures_trip_example :
    IsOpenAfter fractions
      (1 ∷ 2 ∷ [])
      (sample (closed 1 1 1))
      (run fractions (map failure (1 ∷ 2 ∷ [])) (sample (closed 1 1 1)))
failures_trip_example =
    failures_trip fractions (1 ∷ 2 ∷ []) (sample (closed 1 1 1)) 1 1 1 refl (omega arith)
      (omega arith) (omega arith) (omega arith) (omega arith)
