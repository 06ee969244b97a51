-- ===== src/Breaker/Step.antt =====
-- The calls of a circuit breaker as events of a run.
use silverwind.Prelude.{ℕ, List, [], ◌∷◌}
use silverwind.External.{Float}
use silverwind.Breaker.{CircuitBreaker, is_call_allowed, record_success, record_failure}

-- A call of `is_call_allowed`, `record_success` or `record_failure`, with its reading of the clock.
pub data Event : Type 0 where
  check : (now : ℕ) → Event
  success : Event
  failure : (now : ℕ) → Event

module _ (float : Float) where
  unfoldable pub step : Event → CircuitBreaker float → CircuitBreaker float
  step (check now) b = (is_call_allowed float now b).0
  step success b = record_success float b
  step (failure now) b = record_failure float now b

  unfoldable pub run : List Event → CircuitBreaker float → CircuitBreaker float
  run [] b = b
  run (e ∷ es) b = run es (step e b)
