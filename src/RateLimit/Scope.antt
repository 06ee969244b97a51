-- ===== src/RateLimit/Scope.antt =====
-- rust-proxy/src/middleware/rate_limit.rs: which requests a limiter counts, and the units and
-- windows of time. `SystemTime` is a number of nanoseconds since the epoch, so the errors of
-- `duration_since(UNIX_EPOCH)` do not arise.
use silverwind.Prelude.{
  ℕ, ◌*◌, ◌/◌, ◌%◌, String, Bool, false, Option, none, some, str_eq, if◌then◌else◌, Outcome, ok,
  err, ◌>>=◌, ok_or, string_eq, ◌⧺◌, contains_char, is_some, decimal,
}
use silverwind.Errors.{from, Cause}
use silverwind.External.{Http, IpNets}

pub data LimitLocation : Type 0 where
  ip : (value : String) → LimitLocation
  header : (key value : String) → LimitLocation
  iprange : (value : String) → LimitLocation

unfoldable pub get_key : LimitLocation → String
get_key (ip value) = value
get_key (header key value) = key ⧺ ":" ⧺ value
get_key (iprange value) = value

pub data TimeUnit : Type 0 where
  million_second second minute hour day : TimeUnit

unfoldable pub get_million_second : TimeUnit → ℕ
get_million_second million_second = 1
get_million_second second = 1_000
get_million_second minute = 60_000
get_million_second hour = 3_600_000
get_million_second day = 86_400_000

unfoldable pub get_window_size_ms : TimeUnit → ℕ
get_window_size_ms million_second = 1
get_window_size_ms second = 1_000
get_window_size_ms minute = 60_000
get_window_size_ms hour = 3_600_000
get_window_size_ms day = 86_400_000

abbrev pub nanos_per_milli : ℕ
nanos_per_milli = 1_000_000

-- `as_millis() as u64`, and the start of the window that holds it.
unfoldable pub get_window_start_ms : TimeUnit → ℕ → ℕ
unfolding get_window_size_ms
get_window_start_ms unit now =
    let now_ms = now / nanos_per_milli % 18446744073709551616 in
    now_ms / get_window_size_ms unit * get_window_size_ms unit

window_number : TimeUnit → ℕ → ℕ
unfolding get_window_start_ms
window_number million_second now = get_window_start_ms million_second now
window_number unit now = get_window_start_ms unit now / get_window_size_ms unit

unfoldable pub get_time_key : TimeUnit → ℕ → String
unfolding window_number decimal
get_time_key unit now = decimal (window_number unit now)

module _ (http : Http) (nets : IpNets) where
  abbrev contains_key : http.HeaderMap → String → Bool
  contains_key headers key = is_some (http.get headers key)

  header_str : Option http.HeaderValue → Outcome String
  header_str none = err "Can not find the header_based_ratelimit key."
  header_str (some v) = ok_or (http.to_str v) (from Cause.header_text http.to_str_error)

  in_range : String → String → Outcome Bool
  in_range value remote_ip =
      if contains_char b'/' value
      then (do
        range ← ok_or (nets.parse_net value) (nets.net_error value)
        source_ip ←
            ok_or (nets.parse_addr remote_ip) (from Cause.addr_parse (nets.addr_error remote_ip))
        ok (nets.net_contains range source_ip))
      else err "The Ip Range should contain '/'."

  unfoldable pub matched : LimitLocation → http.HeaderMap → String → Outcome Bool
  unfolding in_range header_str contains_char
  matched (ip value) headers remote_ip = ok (str_eq value remote_ip)
  matched (header key value) headers remote_ip =
      if contains_key headers key
      then (do
        header_value_str ← header_str (http.get headers key)
        ok (str_eq header_value_str value))
      else ok false
  matched (iprange value) headers remote_ip = in_range value remote_ip
