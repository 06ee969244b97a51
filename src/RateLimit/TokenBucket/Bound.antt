-- ===== src/RateLimit/TokenBucket/Bound.antt =====
-- How many requests a token bucket lets pass.
use silverwind.Prelude.{
  ℕ, ◌+◌, ◌-◌, ◌*◌, ◌/◌, ◌≤◌, ◌<◌, ◌≡◌, inl, inr, false, arith, ltb, leb, if◌then◌else◌, Bool-cases,
  pos, add_i32_pos, as_i32_pos, string_eq,
}
use silverwind.RateLimit.Scope.{LimitLocation, TimeUnit, get_million_second}
use silverwind.RateLimit.TokenBucket.{TokenBucketRateLimit, refill}
use native.Mathlib.Nat.{
  mul-le-mul_left, mul-le-mul_right, div-mul-le_self, mod-eq_of_lt, lt_of_mul-lt-mul_left,
}

-- A bucket whose numbers are not negative.
abbrev pub bucket :
    (r : ℕ) (u : TimeUnit) (k : ℕ) (scope : LimitLocation) (c last : ℕ) → TokenBucketRateLimit
bucket r u k scope c last = record {
  rate_per_unit = pos r;
  unit = u;
  capacity = pos k;
  scope = scope;
  current_count = pos c;
  last_update_time = last;
}

unit_pos : (u : TimeUnit) → 0 < get_million_second u
unfolding get_million_second
unit_pos TimeUnit.million_second = omega arith
unit_pos _ = omega arith

unit_le_day : (u : TimeUnit) → get_million_second u ≤ 86400000
unfolding get_million_second
unit_le_day TimeUnit.million_second = omega arith
unit_le_day _ = omega arith

-- The tokens of an elapsed time are no more than the rate allows: multiplied out.
tokens_le : (n r u : ℕ) → n / 1000000 * r / u * u * 1000000 ≤ n * r
tokens_le n r u =
    let whole : n / 1000000 * 1000000 ≤ n = omega arith in
    let scaled : n / 1000000 * 1000000 * r ≤ n * r = mul-le-mul_right r whole in
    omega (arith, div-mul-le_self (n / 1000000 * r) u, scaled)

abbrev tokens : (r : ℕ) (u : TimeUnit) (elapsed : ℕ) → ℕ
tokens r u elapsed = elapsed / 1000000 * r / get_million_second u

-- The refill of such a bucket, when nothing reaches the limits of its types.
refill-bucket :
    (r : ℕ) (u : TimeUnit) (k : ℕ) (scope : LimitLocation) (c last now : ℕ)
    → c + tokens r u (now - last) < 2147483648
    → (now - last) * r < 340282366920938463463374607431768211456
    → refill now (bucket r u k scope c last) ≡ (
        if ltb 0 (tokens r u (now - last))
        then bucket r u k scope
            (if leb (c + tokens r u (now - last)) k then c + tokens r u (now - last) else k)
            now
        else bucket r u k scope c last)
unfolding refill
refill-bucket r u k scope c last now fits wide =
    let e : ℕ = now - last in
    let small : e / 1000000 * r < 340282366920938463463374607431768211456 =
      omega (arith, mul-le-mul_right r (div_le e)) in
    rw (mod-eq_of_lt small) (
      rw (as_i32_pos (tokens r u e) (omega arith))
        (rw (add_i32_pos c (tokens r u e) fits) (ground arith)))
  where
    div_le : (e : ℕ) → e / 1000000 ≤ e
    div_le e = omega arith

span_split :
    (r last now top : ℕ)
    → last ≤ now
    → now ≤ top
    → (top - last) * r ≡ (top - now) * r + (now - last) * r
span_split r last now top h k =
    let e : top - last ≡ (top - now) + (now - last) = omega arith in rw e (omega arith)

-- A thousandth of a thousandth of the unit: a nanosecond's share of one token, turned over.
abbrev pub nanos : TimeUnit → ℕ
nanos u = get_million_second u * 1000000

-- Everything stays within the types until the time `top`.
abbrev pub Fits : (r : ℕ) (u : TimeUnit) (k last top : ℕ) → Type 0
Fits r u k last top = nanos u * k + (top - last) * r < nanos u * 2147483648

module _ (r : ℕ) (u : TimeUnit) (k : ℕ) (scope : LimitLocation) (top : ℕ) where
  refill-Fits :
      (c last now : ℕ)
      → c ≤ k
      → last ≤ now
      → now ≤ top
      → Fits r u k last top
      → (c + tokens r u (now - last) < 2147483648)
        × ((now - last) * r < 340282366920938463463374607431768211456)
  refill-Fits c last now hc h1 h2 fits =
      let t : ℕ = tokens r u (now - last) in
      let le : t * get_million_second u * 1000000 ≤ (now - last) * r =
        tokens_le (now - last) r (get_million_second u) in
      let cap : nanos u * c ≤ nanos u * k = mul-le-mul_left (nanos u) hc in
      let whole : (top - last) * r ≡ (top - now) * r + (now - last) * r =
        span_split r last now top h1 h2 in
      let below : nanos u * (c + t) < nanos u * 2147483648 = omega arith in
      (lt_of_mul-lt-mul_left (nanos u) below, omega (arith, unit_le_day u))

  -- The balance: tokens in the bucket and tokens that the time until `top` can still bring.
  abbrev balance : ℕ → ℕ → ℕ
  balance c last = nanos u * c + (top - last) * r

  pub refill-balance :
      (c last now : ℕ)
      → c ≤ k
      → last ≤ now
      → now ≤ top
      → Fits r u k last top
      → (c' : ℕ) × (last' : ℕ) × (refill now (bucket r u k scope c last)
          ≡ bucket r u k scope c' last')
        × (c' ≤ k)
        × (last ≤ last')
        × (last' ≤ top)
        × (balance c' last' ≤ balance c last)
  refill-balance c last now hc h1 h2 fits =
      let (small, wide) = refill-Fits c last now hc h1 h2 fits in
      let same = refill-bucket r u k scope c last now small wide in
      let le : tokens r u (now - last) * get_million_second u * 1000000 ≤ (now - last) * r =
        tokens_le (now - last) r (get_million_second u) in
      let whole = span_split r last now top h1 h2 in
      elim (Bool-cases (ltb 0 (tokens r u (now - last)))) [
        | inl some_new ↦ elim (Bool-cases (leb (c + tokens r u (now - last)) k)) [
          | inl under ↦ (
            c + tokens r u (now - last),
            now,
            rw (some_new, under) at same,
            ground arith,
            h1,
            h2,
            omega arith,
          )
          | inr over ↦ (
            k,
            now,
            rw (some_new, over) at same,
            omega arith,
            h1,
            h2,
            balance_at_cap over le whole,
          )
        ]
        | inr no_new ↦ (c, last, rw no_new at same, hc, omega arith, omega arith, omega arith)
      ]
    where
      balance_at_cap :
          leb (c + tokens r u (now - last)) k ≡ false
          → tokens r u (now - last) * get_million_second u * 1000000 ≤ (now - last) * r
          → (top - last) * r ≡ (top - now) * r + (now - last) * r
          → balance k now ≤ balance c last
      balance_at_cap over le whole =
          let fewer : k ≤ c + tokens r u (now - last) = ground arith in
          omega (arith, mul-le-mul_left (nanos u) fewer)

  pub Fits-later : {last later : ℕ} → last ≤ later → Fits r u k last top → Fits r u k later top
  Fits-later {last} {later} h fits =
      let fewer : (top - later) * r ≤ (top - last) * r = mul-le-mul_right r (omega arith) in
      omega arith

  pub Fits-count : (c last : ℕ) → c ≤ k → Fits r u k last top → c < 2147483648
  Fits-count c last h fits =
      lt_of_mul-lt-mul_left (nanos u) (omega (arith, mul-le-mul_left (nanos u) h))
