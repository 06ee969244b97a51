-- ===== src/Duration.antt =====
-- rust-proxy/src/utils/duration_urils.rs: durations as the configuration writes them.
mod Saving
mod Tests
use Prim.Native.Char.{Char, code}
use Prim.Native.String
use silverwind.Prelude.{
  ℕ, zero, suc, ◌+◌, ◌-◌, ◌*◌, ◌/◌, ◌%◌, ◌^◌, ◌≤◌, ◌<◌, String, ◌≡◌, refl, sym, ap, ◌∙◌, ◌≢◌, ◌↔◌,
  ◌⊎◌, inl, inr, Bool, true, false, not, ◌&&◌, ◌||◌, Option, none, some, List, [], ◌∷◌, ◌++◌, map,
  arith, eq_iff, eq_refl, ltb, leb, str_eq, ◌==◌, if◌then◌else◌, Bool-cases, Option-cases, lt→ltb,
  le→ltb, le→leb, lt→leb, length, get_elem?, is_empty, any, all, select, replicate, length-append,
  get_elem?_lt, All, All-get_elem?, All-select, select-holds, ℤ, pos, negsuc, to_u32, as_i32,
  add_i32, sub_i32, lt_ℤ, le_ℤ, min_ℤ, add_i32_pos, sub_i32_pos, as_i32_pos, Outcome, ok, err,
  panic, ◌>>=◌, ok_or, Outcome-cases, Done, or_else, and_then, map_err, ok-inj, some-inj, none≢some,
  Eq, string_eq, ◌⧺◌, contains_char, strip_prefix, is_some, starts_with, split, decimal, int_text,
  join, ends_with, contains_str,
}
use silverwind.Prelude.Digits.{parse_u64}

pub record Duration : Type 0 where
  pub secs : ℕ
  pub nanos : ℕ

abbrev from_secs : ℕ → Duration
from_secs n = record { secs = n; nanos = 0 }

abbrev from_millis : ℕ → Duration
from_millis n = record { secs = n / 1000; nanos = n % 1000 * 1000000 }

-- A product of `u64` in the release profile.
abbrev pub times : ℕ → ℕ → ℕ
times a b = a * b % 18446744073709551616

-- `char::is_whitespace`.
is_space : ℕ → Bool
is_space c =
    (leb 9 c && leb c 13)
    || c == 32
    || c == 133
    || c == 160
    || c == 5760
    || (leb 8192 c && leb c 8202)
    || c == 8232
    || c == 8233
    || c == 8239
    || c == 8287
    || c == 12288

trim_start : String → String
unfolding is_space
trim_start String.[] = ""
trim_start (String.◌∷◌ c s) =
    let rest = trim_start s in if is_space (code c) then rest else String.◌∷◌ c s

-- A character stays at the end if it is no space or if something stays behind it.
kept_at_end : Char → String → String
unfolding is_space
kept_at_end c String.[] = if is_space (code c) then "" else String.◌∷◌ c ""
kept_at_end c (String.◌∷◌ d rest) = String.◌∷◌ c (String.◌∷◌ d rest)

trim_end : String → String
unfolding kept_at_end
trim_end String.[] = ""
trim_end (String.◌∷◌ c s) = kept_at_end c (trim_end s)

unfoldable pub trim : String → String
unfolding trim_start trim_end
trim s = trim_end (trim_start s)

behind : Char → Option String → Option String
behind c none = none
behind c (some s) = some (String.◌∷◌ c s)

-- `s.strip_suffix(e)`.
unfoldable pub strip_suffix : String → String → Option String
unfolding behind
strip_suffix String.[] e = if str_eq "" e then some "" else none
strip_suffix (String.◌∷◌ c s) e =
    let rest = behind c (strip_suffix s e) in if str_eq (String.◌∷◌ c s) e then some "" else rest

unit_s : Option String → String → Outcome Duration
unit_s (some num_str) s = parse_u64 num_str >>= λ n. ok (from_secs n)
unit_s none s = elim (strip_suffix s "m") [
  | some num_str ↦ parse_u64 num_str >>= λ m. ok (from_secs (times m 60))
  | none ↦
      map_err (λ e. "invalid duration format: '" ⧺ s ⧺ "'") (parse_u64 s) >>= λ n. ok (from_secs n)
]

unit_ms : Option String → String → Outcome Duration
unfolding unit_s strip_suffix
unit_ms (some num_str) s = parse_u64 num_str >>= λ n. ok (from_millis n)
unit_ms none s = unit_s (strip_suffix s "s") s

unfoldable pub parse_duration_str : String → Outcome Duration
unfolding trim strip_suffix unit_ms
parse_duration_str s = unit_ms (strip_suffix (trim s) "ms") (trim s)

-- `show_f64` prints the number of seconds that is nearest to the duration.
unfoldable pub serialize : (ℕ → ℕ → String) → Duration → String
serialize show_f64 d = show_f64 d.secs d.nanos ⧺ "s"
