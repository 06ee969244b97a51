-- ===== src/Breaker.antt =====
-- rust-proxy/src/middleware/circuit_breaker.rs: the circuit breaker of a route.
-- `Instant` is a number of nanoseconds, and a call that reads the clock takes its reading. The
-- counters wrap at their widths.
pub mod Step
mod Invariant
pub mod Traces
mod Tests
use silverwind.Prelude.{ℕ, ◌+◌, ◌%◌, Bool, true, false, leb, ltb, if◌then◌else◌}
use silverwind.External.{Float}

pub data State : Type 0 where
  closed : (failures total_requests consecutive_failures : ℕ) → State
  open_until : (opens_at : ℕ) → State
  half_open : (success_probes total_probes : ℕ) → State

abbrev pub default : State
default = closed 0 0 0

pub record CircuitBreaker (float : Float) : Type 0 where
  pub failure_rate_threshold : float.F64
  pub consecutive_failure_threshold : ℕ
  pub open_duration : ℕ
  pub half_open_max_requests : ℕ
  pub min_requests_for_rate_calculation : ℕ
  pub state : State

abbrev pub u32 : ℕ → ℕ
u32 n = n % 4294967296

abbrev pub u64 : ℕ → ℕ
u64 n = n % 18446744073709551616

module _ (float : Float) where
  open float use {of_u64, divide, ge}

  abbrev with_state : CircuitBreaker float → State → CircuitBreaker float
  with_state b s = record b { state = s }

  pub trip : ℕ → CircuitBreaker float → CircuitBreaker float
  trip now b = with_state b (open_until (now + b.open_duration))

  pub reset_to_closed : CircuitBreaker float → CircuitBreaker float
  reset_to_closed b = with_state b (closed 0 0 0)

  allowed_in : State → ℕ → CircuitBreaker float → CircuitBreaker float × Bool
  allowed_in (closed f t c) now b = (b, true)
  allowed_in (open_until opens_at) now b =
      if leb opens_at now then (with_state b (half_open 0 0), true) else (b, false)
  allowed_in (half_open s t) now b = (b, ltb t b.half_open_max_requests)

  unfoldable pub is_call_allowed : ℕ → CircuitBreaker float → CircuitBreaker float × Bool
  unfolding allowed_in
  is_call_allowed now b = allowed_in b.state now b

  success_in : State → CircuitBreaker float → CircuitBreaker float
  unfolding reset_to_closed
  success_in (closed f t c) b = with_state b (closed f (u64 (t + 1)) 0)
  success_in (half_open s t) b =
      reset_to_closed (with_state b (half_open (u32 (s + 1)) (u32 (t + 1))))
  success_in (open_until opens_at) b = b

  unfoldable pub record_success : CircuitBreaker float → CircuitBreaker float
  unfolding success_in
  record_success b = success_in b.state b

  -- `failures as f64 / total as f64 >= failure_rate_threshold`.
  pub rate_reached : CircuitBreaker float → ℕ → ℕ → Bool
  rate_reached b failures total =
      ge (divide (of_u64 failures) (of_u64 total)) b.failure_rate_threshold

  -- The two tests of `record_failure`, on the counters already raised.
  failure_closed :
      ℕ → (failures total consecutive : ℕ) → CircuitBreaker float → CircuitBreaker float
  unfolding trip
  failure_closed now failures total consecutive b =
      let counted = with_state b (closed failures total consecutive) in
      if leb b.consecutive_failure_threshold consecutive
      then trip now counted
      else if leb b.min_requests_for_rate_calculation total
      then (if rate_reached b failures total then trip now counted else counted)
      else counted

  failure_in : State → ℕ → CircuitBreaker float → CircuitBreaker float
  unfolding failure_closed trip
  failure_in (closed f t c) now b = failure_closed now (u64 (f + 1)) (u64 (t + 1)) (u32 (c + 1)) b
  failure_in (half_open s t) now b = trip now (with_state b (half_open s (u32 (t + 1))))
  failure_in (open_until opens_at) now b = b

  unfoldable pub record_failure : ℕ → CircuitBreaker float → CircuitBreaker float
  unfolding failure_in
  record_failure now b = failure_in b.state now b
