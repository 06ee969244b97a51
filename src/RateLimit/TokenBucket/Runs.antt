-- ===== src/RateLimit/TokenBucket/Runs.antt =====
-- How many requests a token bucket lets pass in a run.
use silverwind.Prelude.{
  ℕ, zero, suc, ◌+◌, ◌-◌, ◌*◌, ◌≤◌, ◌<◌, String, ◌≡◌, refl, inl, inr, true, Option, none, List, [],
  ◌∷◌, arith, ltb, Bool-cases, le→ltb, All, sub_i32_pos, Outcome, ok, err, string_eq,
}
use silverwind.External.{Http, IpNets}
use silverwind.RateLimit.Scope.{LimitLocation, TimeUnit, matched}
use silverwind.RateLimit.TokenBucket.{TokenBucketRateLimit, refill, should_limit}
use silverwind.RateLimit.TokenBucket.Bound.{
  bucket, nanos, Fits, refill-balance, Fits-later, Fits-count,
}

module _ (http : Http) (nets : IpNets) (headers : http.HeaderMap) (remote_ip : String) where
  abbrev pub passed : Outcome (Option http.HeaderMap) → ℕ
  passed (ok none) = 1
  passed _ = 0

  -- Requests of one client at the given clock readings, and how many of them pass.
  unfoldable pub run : List ℕ → TokenBucketRateLimit → TokenBucketRateLimit × ℕ
  run [] tb = (tb, 0)
  run (now ∷ nows) tb =
      let (tb', answer) = should_limit http nets now headers remote_ip tb in
      let (tb'', n) = run nows tb' in (tb'', passed answer + n)

  module _ (r : ℕ) (u : TimeUnit) (k : ℕ) (scope : LimitLocation) (top : ℕ)
      (in_scope : matched http nets scope headers remote_ip ≡ ok true) where
    abbrev balance : ℕ → ℕ → ℕ
    balance c last = nanos u * c + (top - last) * r

    late :
        (c last now : ℕ)
        → now < last
        → should_limit http nets now headers remote_ip (bucket r u k scope c last) ≡ (
          bucket r u k scope c last,
          err "System time error: second time provided was later than self",
        )
    unfolding should_limit
    late c last now h = rw in_scope (ground arith)

    on_time :
        (c last now c' last' : ℕ)
        → last ≤ now
        → refill now (bucket r u k scope c last) ≡ bucket r u k scope c' last'
        → c' < 2147483648
        → let (tb, answer) =
            should_limit http nets now headers remote_ip (bucket r u k scope c last) in
          (d : ℕ) × (tb ≡ bucket r u k scope d last') × (d + passed answer ≡ c')
    unfolding should_limit
    on_time c last now zero last' h e small =
        rw in_scope (rw (le→ltb now last h) (rw e (0, refl, ground arith)))
    on_time c last now (suc d) last' h e small = rw in_scope (
        rw (le→ltb now last h) (
          rw e (
            rw (sub_i32_pos (suc d) 1 (omega arith) small)
              (d, ground (arith, less d), ground arith))))
      where
        less : (n : ℕ) → bucket r u k scope (suc n - 1) last' ≡ bucket r u k scope n last'
        less n = let e : suc n - 1 ≡ n = omega arith in rw e

    step :
        (c last now : ℕ)
        → c ≤ k
        → last ≤ top
        → now ≤ top
        → Fits r u k last top
        → let (tb, answer) =
            should_limit http nets now headers remote_ip (bucket r u k scope c last) in
          (c' : ℕ) × (last' : ℕ) × (tb ≡ bucket r u k scope c' last')
          × (c' ≤ k)
          × (last ≤ last')
          × (last' ≤ top)
          × (balance (c' + passed answer) last' ≤ balance c last)
    step c last now hc hl hn fits = elim (Bool-cases (ltb now last)) [
      | inl before ↦
          rw (late c last now (ground arith)) (c, last, refl, hc, omega arith, hl, omega arith)
      | inr after ↦
          let after_last : last ≤ now = ground arith in
          let (c', last', same, hc', mono, hl', fall) =
            refill-balance r u k scope top c last now hc after_last hn fits in
          let (d, state, sum) =
            on_time c last now c' last' after_last same
              (Fits-count r u k scope top c' last' hc' (Fits-later r u k scope top mono fits)) in
          (d, last', state, omega arith, mono, hl', rw sum fall)
    ]

    -- In a run of requests of one client in the limiter's scope, none after the time `top`, from a
    -- bucket with `c` of at most `k` tokens, updated at `last`: the requests that pass are at most
    -- `c` and the tokens that the rate `r` per unit gives from `last` to `top`. Both sides are
    -- multiplied by the nanoseconds of a unit. All sums stay within their types until `top`.
    pub passed_bound :
        (nows : List ℕ) (c last : ℕ)
        → All (λ now. now ≤ top) nows
        → c ≤ k
        → last ≤ top
        → Fits r u k last top
        → nanos u * (run nows (bucket r u k scope c last)).1 ≤ nanos u * c + (top - last) * r
    unfolding run
    passed_bound [] c last hn hc hl fits = omega arith
    passed_bound (now ∷ nows) c last (h, hn) hc hl fits =
        let (c', last', state, hc', mono, hl', fall) = step c last now hc hl h fits in
        let ih = passed_bound nows c' last' hn hc' hl' (Fits-later r u k scope top mono fits) in
        rw state (
          omega (
            arith,
            mul_distrib c' (
                passed
                  (should_limit http nets now headers remote_ip (bucket r u k scope c last)).1),
          ))
      where
        mul_distrib : (a b : ℕ) → nanos u * (a + b) ≡ nanos u * a + nanos u * b
        mul_distrib a b = omega arith
