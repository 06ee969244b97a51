-- ===== src/RateLimit/TokenBucket.antt =====
-- rust-proxy/src/middleware/rate_limit.rs: the token bucket. `i32` arithmetic and the casts wrap,
-- and a division by 0 panics. The whole seconds of `(millis as f64 / 1000.0).ceil()` are computed
-- exactly: `millis` is at most a day, where the rounding of the quotient cannot reach the next
-- whole number.
pub mod Bound
pub mod Runs
pub mod Overflow
use silverwind.Prelude.{
  ℕ, zero, suc, ◌+◌, ◌-◌, ◌*◌, ◌/◌, ◌%◌, ◌^◌, ◌≤◌, ◌<◌, String, ◌≡◌, refl, sym, ap, ◌∙◌, ◌≢◌, ◌↔◌,
  ◌⊎◌, inl, inr, Bool, true, false, not, ◌&&◌, ◌||◌, Option, none, some, List, [], ◌∷◌, ◌++◌, map,
  arith, eq_iff, eq_refl, ltb, leb, str_eq, ◌==◌, if◌then◌else◌, Bool-cases, Option-cases, lt→ltb,
  le→ltb, le→leb, lt→leb, length, get_elem?, is_empty, any, all, select, replicate, length-append,
  get_elem?_lt, All, ℤ, pos, negsuc, to_u32, as_i32, add_i32, sub_i32, lt_ℤ, le_ℤ, min_ℤ,
  add_i32_pos, sub_i32_pos, as_i32_pos, Outcome, ok, err, panic, ◌>>=◌, ok_or, Eq, string_eq, ◌⧺◌,
  contains_char, strip_prefix, is_some, starts_with, split, decimal,
}
use silverwind.External.{Http, IpNets}
use silverwind.RateLimit.Scope.{
  LimitLocation, TimeUnit, get_million_second, nanos_per_milli, matched,
}

pub record TokenBucketRateLimit : Type 0 where
  pub rate_per_unit : ℤ
  pub unit : TimeUnit
  pub capacity : ℤ
  pub scope : LimitLocation
  pub current_count : ℤ
  pub last_update_time : ℕ

-- `n as u128` of an `i32`.
unfoldable pub as_u128 : ℤ → ℕ
as_u128 (pos n) = n
as_u128 (negsuc n) = 340282366920938463463374607431768211455 - n

unfoldable pub tokens_to_add : ℕ → TokenBucketRateLimit → ℕ
unfolding as_u128
tokens_to_add elapsed_millis tb =
    elapsed_millis
    * as_u128 tb.rate_per_unit
    % 340282366920938463463374607431768211456
    / get_million_second tb.unit

unfoldable pub refill : ℕ → TokenBucketRateLimit → TokenBucketRateLimit
unfolding tokens_to_add
refill now tb =
    let tokens = tokens_to_add ((now - tb.last_update_time) / nanos_per_milli) tb in
    if ltb 0 tokens
    then record tb {
      current_count = min_ℤ (add_i32 tb.current_count (as_i32 tokens)) tb.capacity;
      last_update_time = now;
    }
    else tb

module _ (http : Http) (nets : IpNets) where
  limit_headers : TokenBucketRateLimit → http.HeaderMap
  unfolding as_u128
  limit_headers tb =
      let millis_for_one_token = get_million_second tb.unit / as_u128 tb.rate_per_unit in
      let retry_after_seconds = (millis_for_one_token + 999) / 1000 in
      let reset_time = tb.last_update_time + millis_for_one_token * nanos_per_milli in
      let reset_timestamp = reset_time / 1_000_000_000 in
      let h1 = http.insert http.empty "x-ratelimit-limit" (http.of_int tb.capacity) in
      let h2 = http.insert h1 "x-ratelimit-remaining" (http.of_int (pos 0)) in
      let h3 = http.insert h2 "x-ratelimit-reset" (http.of_int (pos reset_timestamp)) in
      http.insert h3 "retry-after" (http.of_int (pos retry_after_seconds))

  -- What follows the refill: a token is taken, or the headers of a denial are made.
  take_token : TokenBucketRateLimit → TokenBucketRateLimit × Outcome (Option http.HeaderMap)
  unfolding limit_headers
  take_token tb =
      if lt_ℤ (pos 0) tb.current_count
      then (record tb { current_count = sub_i32 tb.current_count (pos 1) }, ok none)
      else (tb, if as_u128 tb.rate_per_unit == 0 then panic else ok (some (limit_headers tb)))

  counted : ℕ → TokenBucketRateLimit → TokenBucketRateLimit × Outcome (Option http.HeaderMap)
  unfolding take_token refill
  counted now tb =
      if ltb now tb.last_update_time
      then (tb, err "System time error: second time provided was later than self")
      else take_token (refill now tb)

  guarded :
      Outcome Bool
      → ℕ
      → TokenBucketRateLimit
      → TokenBucketRateLimit × Outcome (Option http.HeaderMap)
  unfolding counted
  guarded (ok true) now tb = counted now tb
  guarded (ok false) now tb = (tb, ok none)
  guarded (err e) now tb = (tb, err e)
  guarded panic now tb = (tb, panic)

  unfoldable pub should_limit :
      ℕ
      → http.HeaderMap
      → String
      → TokenBucketRateLimit
      → TokenBucketRateLimit × Outcome (Option http.HeaderMap)
  unfolding guarded
  should_limit now headers remote_ip tb =
      guarded (matched http nets tb.scope headers remote_ip) now tb
