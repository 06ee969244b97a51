-- ===== src/RateLimit/FixedWindow.antt =====
-- rust-proxy/src/middleware/rate_limit.rs: the fixed window. The order in which a `HashMap` is
-- iterated is not specified, so the key that `keys().next()` gives is an argument.
-- DEFAULT_FIXEDWINDOW_MAP_SIZE is that of rust-proxy/src/constants/common_constants.rs.
pub mod Counting
pub mod Eviction
use silverwind.Prelude.{
  ℕ, zero, suc, ◌+◌, ◌-◌, ◌*◌, ◌/◌, ◌%◌, ◌^◌, ◌≤◌, ◌<◌, String, ◌≡◌, refl, sym, ap, ◌∙◌, ◌≢◌, ◌↔◌,
  ◌⊎◌, inl, inr, Bool, true, false, not, ◌&&◌, ◌||◌, Option, none, some, List, [], ◌∷◌, ◌++◌, map,
  arith, eq_iff, eq_refl, ltb, leb, str_eq, ◌==◌, if◌then◌else◌, Bool-cases, Option-cases, lt→ltb,
  le→ltb, le→leb, lt→leb, length, get_elem?, is_empty, any, all, select, replicate, length-append,
  get_elem?_lt, All, ℤ, pos, negsuc, to_u32, as_i32, add_i32, sub_i32, lt_ℤ, le_ℤ, min_ℤ,
  add_i32_pos, sub_i32_pos, as_i32_pos, Outcome, ok, err, panic, ◌>>=◌, ok_or, Eq, string_eq, ◌⧺◌,
  contains_char, strip_prefix, is_some, starts_with, split, decimal,
}
use silverwind.Prelude.Assoc.{lookup, insert, remove}
use silverwind.External.{Http, IpNets}
use silverwind.RateLimit.Scope.{
  LimitLocation, TimeUnit, get_key, get_time_key, get_window_start_ms, get_window_size_ms, matched,
}

pub record FixedWindowRateLimit : Type 0 where
  pub rate_per_unit : ℤ
  pub unit : TimeUnit
  pub scope : LimitLocation
  pub count_map : List (String × ℤ)

-- The readings of the clock that one call makes, in order.
pub record Clock : Type 0 where
  pub first : ℕ
  pub second : ℕ
  pub third : ℕ

abbrev pub map_size : ℕ
map_size = 3

-- The key of a call's counter.
unfoldable pub counter_key : FixedWindowRateLimit → ℕ → String
counter_key fw now = get_key fw.scope ⧺ ":" ⧺ get_time_key fw.unit now

drop_key : Option String → List (String × ℤ) → List (String × ℤ)
drop_key none m = m
drop_key (some oldest) m = remove oldest m

unfoldable pub evict : (List (String × ℤ) → Option String) → List (String × ℤ) → List (String × ℤ)
unfolding drop_key
evict first_key m = if leb map_size (length m) then drop_key (first_key m) m else m

-- `entry(key).or_insert(0)`.
unfoldable pub counter : String → List (String × ℤ) → ℤ
counter key m = elim (lookup key m) [ none ↦ pos 0 | some n ↦ n ]

-- `n as u64` of an `i32`.
unfoldable pub as_u64 : ℤ → ℕ
as_u64 (pos n) = n
as_u64 (negsuc n) = 18446744073709551615 - n

-- `limit.saturating_sub(now).max(1)`.
abbrev wait_at_least_one : ℕ → ℕ
wait_at_least_one n = if n == 0 then 1 else n

module _ (http : Http) (nets : IpNets) (first_key : List (String × ℤ) → Option String) where
  limit_headers : Clock → FixedWindowRateLimit → http.HeaderMap
  unfolding as_u64
  limit_headers clock fw =
      let reset_timestamp_ms =
        (get_window_start_ms fw.unit clock.second + get_window_size_ms fw.unit)
        % 18446744073709551616 in
      let reset_timestamp_secs = reset_timestamp_ms / 1000 in
      let now_secs = clock.third / 1_000_000_000 in
      let retry_after_seconds = wait_at_least_one (reset_timestamp_secs - now_secs) in
      let h1 =
        http.insert http.empty "x-ratelimit-limit" (http.of_int (pos (as_u64 fw.rate_per_unit))) in
      let h2 = http.insert h1 "x-ratelimit-remaining" (http.of_int (pos 0)) in
      let h3 = http.insert h2 "x-ratelimit-reset" (http.of_int (pos reset_timestamp_secs)) in
      http.insert h3 "retry-after" (http.of_int (pos retry_after_seconds))

  counted : Clock → FixedWindowRateLimit → FixedWindowRateLimit × Outcome (Option http.HeaderMap)
  unfolding evict counter limit_headers
  counted clock fw =
      let key = counter_key fw clock.first in
      let kept = evict first_key fw.count_map in
      let n = add_i32 (counter key kept) (pos 1) in
      let fw' = record fw { count_map = insert key n kept } in
      (
        fw',
        if le_ℤ (pos 0) (sub_i32 fw.rate_per_unit n)
            then ok none
            else ok (some (limit_headers clock fw')),
      )

  guarded :
      Outcome Bool
      → Clock
      → FixedWindowRateLimit
      → FixedWindowRateLimit × Outcome (Option http.HeaderMap)
  unfolding counted
  guarded (ok true) clock fw = counted clock fw
  guarded (ok false) clock fw = (fw, ok none)
  guarded (err e) clock fw = (fw, err e)
  guarded panic clock fw = (fw, panic)

  unfoldable pub should_limit :
      Clock
      → http.HeaderMap
      → String
      → FixedWindowRateLimit
      → FixedWindowRateLimit × Outcome (Option http.HeaderMap)
  unfolding guarded
  should_limit clock headers remote_ip fw =
      guarded (matched http nets fw.scope headers remote_ip) clock fw
