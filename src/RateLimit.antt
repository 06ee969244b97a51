-- ===== src/RateLimit.antt =====
-- rust-proxy/src/middleware/rate_limit.rs: the limiter, as a choice of its two kinds. Its parts
-- are Scope (which requests count, and the windows of time), TokenBucket and FixedWindow.
pub mod Scope
pub mod TokenBucket
pub mod FixedWindow
mod Tests
use silverwind.Prelude.{
  ℕ, zero, suc, ◌+◌, ◌-◌, ◌*◌, ◌/◌, ◌%◌, ◌^◌, ◌≤◌, ◌<◌, String, ◌≡◌, refl, sym, ap, ◌∙◌, ◌≢◌, ◌↔◌,
  ◌⊎◌, inl, inr, Bool, true, false, not, ◌&&◌, ◌||◌, Option, none, some, List, [], ◌∷◌, ◌++◌, map,
  arith, eq_iff, eq_refl, ltb, leb, str_eq, ◌==◌, if◌then◌else◌, Bool-cases, Option-cases, lt→ltb,
  le→ltb, le→leb, lt→leb, length, get_elem?, is_empty, any, all, select, replicate, length-append,
  get_elem?_lt, All, ℤ, pos, negsuc, to_u32, as_i32, add_i32, sub_i32, lt_ℤ, le_ℤ, min_ℤ,
  add_i32_pos, sub_i32_pos, as_i32_pos, Outcome, ok, err, panic, ◌>>=◌, ok_or, Eq, string_eq, ◌⧺◌,
  contains_char, strip_prefix, is_some, starts_with, split, decimal,
}
use silverwind.External.{Http, IpNets}
use silverwind.Denial.{Denial, CheckResult, allowed, denied}
use silverwind.RateLimit.TokenBucket.{TokenBucketRateLimit}
use silverwind.RateLimit.TokenBucket
use silverwind.RateLimit.FixedWindow.{FixedWindowRateLimit, Clock}
use silverwind.RateLimit.FixedWindow

pub data Ratelimit : Type 0 where
  token_bucket : TokenBucketRateLimit → Ratelimit
  fixed_window : FixedWindowRateLimit → Ratelimit

module _ (http : Http) (nets : IpNets) (first_key : List (String × ℤ) → Option String) where
  unfoldable pub should_limit :
      Clock → http.HeaderMap → String → Ratelimit → Ratelimit × Outcome (Option http.HeaderMap)
  should_limit clock headers remote_ip (token_bucket tb) =
      let (tb', answer) = TokenBucket.should_limit http nets clock.first headers remote_ip tb in
      (token_bucket tb', answer)
  should_limit clock headers remote_ip (fixed_window fw) =
      let (fw', answer) = FixedWindow.should_limit http nets first_key clock headers remote_ip fw in
      (fixed_window fw', answer)

  answer_of : Outcome (Option http.HeaderMap) → Outcome (CheckResult http)
  answer_of (ok none) = ok allowed
  answer_of (ok (some rate_limit_headers)) = ok (
      denied
        (record { status = 429; headers = rate_limit_headers; body = "API rate limit exceeded" }))
  answer_of (err e) = err e
  answer_of panic = panic

  unfoldable pub check_request :
      Clock → String → Option http.HeaderMap → Ratelimit → Ratelimit × Outcome (CheckResult http)
  unfolding answer_of should_limit
  check_request clock remote_ip none limit = (limit, ok allowed)
  check_request clock remote_ip (some headers) limit =
      let (limit', answer) = should_limit clock headers remote_ip limit in
      (limit', answer_of answer)
