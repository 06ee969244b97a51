-- ===== src/RateLimit/Tests.antt =====
-- Runs of the limiters, and the theorems at them.
use silverwind.Prelude.{
  ℕ, ◌+◌, ◌-◌, ◌*◌, ◌/◌, ◌≤◌, String, ◌≡◌, refl, inl, inr, true, Option, none, some, List, [], ◌∷◌,
  arith, eq_refl, All, ℤ, pos, add_i32, sub_i32, ok, string_eq,
}
use silverwind.External.Samples.{plain_http, plain_nets}
use silverwind.RateLimit.Scope.{
  LimitLocation, TimeUnit, get_million_second, matched, get_key, get_time_key,
}
use silverwind.RateLimit.TokenBucket.{TokenBucketRateLimit, tokens_to_add}
use silverwind.RateLimit.TokenBucket
use silverwind.RateLimit.TokenBucket.Bound.{bucket, nanos}
use silverwind.RateLimit.TokenBucket.Runs
use silverwind.RateLimit.FixedWindow
use silverwind.RateLimit.FixedWindow.{FixedWindowRateLimit, Clock, counter_key}
use silverwind.RateLimit.FixedWindow.Counting
use silverwind.RateLimit.FixedWindow.Counting.{limiter}
use silverwind.RateLimit.FixedWindow.Eviction
use silverwind.Prelude.Assoc.{lookup}

abbrev client : LimitLocation
client = LimitLocation.ip "10.0.0.1"

abbrev no_headers : String → Option String
no_headers k = none

client-matched : matched plain_http plain_nets client no_headers "10.0.0.1" ≡ ok true
unfolding matched
client-matched = refl

-- Ten tokens a second, at most two in the bucket.
abbrev small_bucket : TokenBucketRateLimit
small_bucket = bucket 10 TimeUnit.second 2 client 2 0

abbrev arrivals : List ℕ
arrivals = 0 ∷ 0 ∷ 0 ∷ 100_000_000 ∷ 0 ∷ []

three_pass : (Runs.run plain_http plain_nets no_headers "10.0.0.1" arrivals small_bucket).1 ≡ 3
unfolding Runs.run TokenBucket.should_limit matched get_million_second add_i32 sub_i32
three_pass = refl

passed_bound_example :
    nanos TimeUnit.second
      * (Runs.run plain_http plain_nets no_headers "10.0.0.1" arrivals small_bucket).1
    ≤ nanos TimeUnit.second * 2 + (100_000_000 - 0) * 10
unfolding get_million_second
passed_bound_example =
    Runs.passed_bound plain_http plain_nets no_headers "10.0.0.1" 10 TimeUnit.second 2 client
      100_000_000 client-matched arrivals 2 0 (omega arith) (omega arith) (omega arith)
      (omega arith)

-- A bucket of a million tokens a millisecond, idle for 2200 milliseconds.
abbrev idle_bucket : TokenBucketRateLimit
idle_bucket = bucket 1_000_000 TimeUnit.million_second 50 client 0 0

idle_tokens : tokens_to_add ((2_200_000_000 - 0) / 1000000) idle_bucket ≡ 2_200_000_000
unfolding tokens_to_add get_million_second
idle_tokens = refl

abbrev first_of_list : List (String × ℤ) → Option String
first_of_list [] = none
first_of_list ((k, v) ∷ m) = some k

abbrev per_second : FixedWindowRateLimit
per_second = record {
  rate_per_unit = pos 2;
  unit = TimeUnit.second;
  scope = client;
  count_map = [];
}

abbrev at : ℕ → Clock
at t = record { first = t; second = t; third = t }

abbrev burst : List Clock
burst = at 1_000_000_000 ∷ at 1_200_000_000 ∷ at 1_400_000_000 ∷ []

burst_key : All (λ clock. counter_key per_second clock.first ≡ "10.0.0.1:1") burst
unfolding counter_key get_key get_time_key
burst_key = (refl, (refl, (refl, tt)))

passed_in_window_example :
    (Counting.run plain_http plain_nets first_of_list no_headers "10.0.0.1" burst per_second).1 + 0
    ≡ 2
unfolding lookup
passed_in_window_example =
    Counting.passed_in_window plain_http plain_nets first_of_list no_headers "10.0.0.1" per_second
      client-matched 2 refl (omega arith) burst "10.0.0.1:1" 0 [] burst_key (omega arith)
      (unfold FixedWindow.counter in (refl, omega arith, inr (omega arith)))

found : (k : String) (v : ℤ) (m : List (String × ℤ)) → lookup k ((k, v) ∷ m) ≡ some v
unfolding lookup
found k v m = rw (eq_refl k)

first_is_key : Eviction.IsFirstKey first_of_list
first_is_key [] = inl (refl, refl)
first_is_key ((k, v) ∷ m) = inr (k, v, refl, found k v m)

-- An order of iteration in which the key of the current second comes first when it is there.
abbrev current_first : List (String × ℤ) → Option String
current_first m = some "10.0.0.1:1"

limit_bypassed_example :
    (Counting.run plain_http plain_nets current_first no_headers "10.0.0.1" burst
      (limiter per_second (("a", pos 1) ∷ ("b", pos 1) ∷ ("10.0.0.1:1", pos 2) ∷ []))).1
    ≡ 3
limit_bypassed_example =
    Eviction.limit_bypassed plain_http plain_nets current_first no_headers "10.0.0.1" per_second
      client-matched 1 refl (omega arith) "10.0.0.1:1" "a" "b" (pos 1) (pos 1) refl refl burst
      (pos 2) burst_key (λ v. refl)
