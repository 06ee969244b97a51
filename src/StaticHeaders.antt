-- ===== src/StaticHeaders.antt =====
-- rust-proxy/src/middleware/headers.rs: the headers that let a client keep files of some endings.
mod Tests
use Prim.Native.Char.{code}
use Prim.Native.String
use silverwind.Prelude.{
  ℕ, zero, suc, ◌+◌, ◌-◌, ◌*◌, ◌/◌, ◌%◌, ◌^◌, ◌≤◌, ◌<◌, String, ◌≡◌, refl, sym, ap, ◌∙◌, ◌≢◌, ◌↔◌,
  ◌⊎◌, inl, inr, Bool, true, false, not, ◌&&◌, ◌||◌, Option, none, some, List, [], ◌∷◌, ◌++◌, map,
  arith, eq_iff, eq_refl, ltb, leb, str_eq, ◌==◌, if◌then◌else◌, Bool-cases, Option-cases, lt→ltb,
  le→ltb, le→leb, lt→leb, length, get_elem?, is_empty, any, all, select, replicate, length-append,
  get_elem?_lt, All, All-get_elem?, All-select, select-holds, ℤ, pos, negsuc, to_u32, as_i32,
  add_i32, sub_i32, lt_ℤ, le_ℤ, min_ℤ, add_i32_pos, sub_i32_pos, as_i32_pos, Outcome, ok, err,
  panic, ◌>>=◌, ok_or, Outcome-cases, Done, or_else, and_then, map_err, ok-inj, some-inj, none≢some,
  Eq, string_eq, ◌⧺◌, contains_char, strip_prefix, is_some, starts_with, split, decimal, int_text,
  join, ends_with, contains_str,
}
use silverwind.Prelude.Digits.{parse_u64}
use silverwind.Duration.{times, trim}
use silverwind.Errors.{from, Cause}
use silverwind.External.{Http}
use silverwind.Headers.{set}

-- `expires` counts seconds.
pub record StaticResourceHeaders : Type 0 where
  pub expires : ℕ
  pub extensions : List String

module _ (http : Http) (http_date : ℕ → ℕ → Outcome String) where
  -- `text.parse()?` of a header value.
  value_of : String → Outcome http.HeaderValue
  value_of s = ok_or (http.of_str s) (from Cause.header_value http.of_str_error)

  cache_control : ℕ → String
  unfolding decimal
  cache_control expires = "public, max-age=" ⧺ decimal expires

  -- One round of the loop, for an ending that the path has: `http_date` is the date that lies the
  -- second number of seconds after the reading of the clock, or the panic of a sum out of range.
  mark : ℕ → ℕ → http.HeaderMap → http.HeaderMap × Outcome Done
  unfolding set value_of cache_control
  mark now expires m =
      and_then (set http m "cache-control" (value_of (cache_control expires)))
        λ m'. set http m' "expires" (http_date now expires >>= λ date. value_of date)

  -- The loop over the endings, each with its own reading of the clock.
  mark_all : (ℕ → ℕ) → ℕ → String → List String → http.HeaderMap → http.HeaderMap × Outcome Done
  unfolding mark ends_with
  mark_all now expires path [] m = (m, ok tt)
  mark_all now expires path (extension ∷ rest) m =
      let later = mark_all (λ i. now (suc i)) expires path rest in
      if ends_with path extension then and_then (mark (now 0) expires m) later else later m

  unfoldable pub handle_before_response :
      (ℕ → ℕ) → StaticResourceHeaders → String → http.HeaderMap → http.HeaderMap × Outcome Done
  unfolding mark_all
  handle_before_response now config path m = mark_all now config.expires path config.extensions m

-- The digits at the front, and what is behind them.
split_digits : String → String × String
split_digits String.[] = ("", "")
split_digits (String.◌∷◌ c s) =
    let rest = split_digits s in
    if leb 48 (code c) && leb (code c) 57
    then (String.◌∷◌ c rest.0, rest.1)
    else ("", String.◌∷◌ c s)

seconds : ℕ → String → Outcome ℕ
seconds num unit =
    if str_eq unit "s"
    then ok num
    else if str_eq unit "m"
    then ok (times num 60)
    else if str_eq unit "h"
    then ok (times (times num 60) 60)
    else if str_eq unit "d"
    then ok (times (times (times num 60) 60) 24)
    else if str_eq unit "w"
    then ok (times (times (times (times num 60) 60) 24) 7)
    else err ("Unknown time unit '" ⧺ (unit ⧺ "'"))

-- `to_lowercase` is that of `str`.
module _ (to_lowercase : String → String) where
  behind_number : String × String → Outcome ℕ
  unfolding seconds parse_u64 trim
  behind_number (num_str, unit) =
      if str_eq unit ""
      then err "is_ascii_digit cause error"
      else map_err (from Cause.parse_int) (parse_u64 num_str) >>= λ num.
          seconds num (to_lowercase (trim unit))

  parse_duration : String → Outcome ℕ
  unfolding behind_number split_digits trim
  parse_duration s =
      if str_eq (trim s) ""
      then err "Empty duration string"
      else behind_number (split_digits (trim s))

  expected : String → String → String
  expected expires e =
      "Invalid duration format '"
      ⧺ (expires
          ⧺ ("': " ⧺ (e ⧺ ". Expected format like: 30d, 1h, 90m (supported units: s, m, h, d, w)")))

  -- The reader, after serde read the two fields.
  unfoldable pub deserialize : String → List String → Outcome StaticResourceHeaders
  unfolding parse_duration expected
  deserialize expires extensions = map_err (expected expires) (parse_duration expires) >>= λ n.
      ok (record { expires = n; extensions = extensions })
