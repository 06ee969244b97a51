-- ===== src/RateLimit/TokenBucket/Overflow.antt =====
-- Where the numbers of a token bucket leave their types.
use silverwind.Prelude.{
  ℕ, ◌+◌, ◌-◌, ◌/◌, ◌≤◌, ◌<◌, String, ◌≡◌, refl, Bool, true, false, Option, some, arith, lt→ltb,
  le→ltb, pos, negsuc, as_i32, add_i32, lt_ℤ, Outcome, ok, panic, string_eq,
}
use silverwind.External.{Http, IpNets}
use silverwind.RateLimit.Scope.{LimitLocation, TimeUnit, matched}
use silverwind.RateLimit.TokenBucket.{tokens_to_add, refill, should_limit}
use silverwind.RateLimit.TokenBucket.Bound.{bucket}

-- A sum that passes the largest `i32` comes out below zero.
add_wraps :
    (c t : ℕ)
    → c < 2147483648
    → 2147483648 ≤ t
    → c + t < 4294967296
    → add_i32 (pos c) (as_i32 t) ≡ negsuc (4294967295 - (c + t))
unfolding add_i32
add_wraps c t h k l = ground arith

refill_wraps :
    (r : ℕ) (u : TimeUnit) (k : ℕ) (scope : LimitLocation) (c last now : ℕ)
    → c < 2147483648
    → 2147483648 ≤ tokens_to_add ((now - last) / 1000000) (bucket r u k scope c last)
    → c + tokens_to_add ((now - last) / 1000000) (bucket r u k scope c last) < 4294967296
    → refill now (bucket r u k scope c last) ≡ record (bucket r u k scope c last) {
      current_count =
          negsuc
            (4294967295 - (c + tokens_to_add ((now - last) / 1000000) (bucket r u k scope c last)));
      last_update_time = now;
    }
unfolding refill
refill_wraps r u k scope c last now h1 h2 h3 =
    rw (add_wraps c (tokens_to_add ((now - last) / 1000000) (bucket r u k scope c last)) h1 h2 h3) (
      rw (
        lt→ltb 0 (tokens_to_add ((now - last) / 1000000) (bucket r u k scope c last))
          (omega arith)))

module _ (http : Http) (nets : IpNets) (headers : http.HeaderMap) (remote_ip : String) where
  abbrev pub is_denied : Outcome (Option http.HeaderMap) → Bool
  is_denied (ok (some h)) = true
  is_denied _ = false

  -- After an idle time that brings 2^31 or more new tokens, but with those in the bucket fewer
  -- than 2^32, the sum of `i32` is negative: a request in scope is denied and the bucket is left
  -- with a negative count, although the tokens brought fill any capacity. The rate is positive.
  idle_denies :
      (r : ℕ) (u : TimeUnit) (k : ℕ) (scope : LimitLocation) (c last now : ℕ)
      → matched http nets scope headers remote_ip ≡ ok true
      → last ≤ now
      → 0 < r
      → c < 2147483648
      → 2147483648 ≤ tokens_to_add ((now - last) / 1000000) (bucket r u k scope c last)
      → c + tokens_to_add ((now - last) / 1000000) (bucket r u k scope c last) < 4294967296
      → let (tb, answer) =
          should_limit http nets now headers remote_ip (bucket r u k scope c last) in
        (is_denied answer ≡ true) × (lt_ℤ tb.current_count (pos 0) ≡ true)
  unfolding should_limit
  idle_denies r u k scope c last now m h pos_r h1 h2 h3 = rw m (
      rw (le→ltb now last h)
        (rw (refill_wraps r u k scope c last now h1 h2 h3) (ground arith, refl)))

  -- A bucket with a rate of 0 and no token panics at every request in scope that comes at or after
  -- its last update, while it holds the lock of the limiter.
  zero_rate_panics :
      (u : TimeUnit) (scope : LimitLocation) (k last now : ℕ)
      → matched http nets scope headers remote_ip ≡ ok true
      → last ≤ now
      → (should_limit http nets now headers remote_ip (bucket 0 u k scope 0 last)).1 ≡ panic
  unfolding should_limit
  zero_rate_panics u scope k last now m h = rw m (rw (le→ltb now last h) (ground arith))
