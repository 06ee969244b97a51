-- ===== src/Duration/Tests.antt =====
-- Durations as texts.
use silverwind.Prelude.{
  ℕ, String, ◌≡◌, refl, false, arith, ◌==◌, if◌then◌else◌, ok, err, string_eq, ◌⧺◌, decimal,
}
use silverwind.Prelude.Digits.{decimal-AreDigits, parse_u64, read_digits}
use silverwind.Duration.{parse_duration_str, serialize, trim, strip_suffix}
use silverwind.Duration.Saving.{PrintsSeconds, parse_duration_str-serialize}

read_ones :
    (parse_duration_str " 500ms " ≡ ok (record { secs = 0; nanos = 500000000 }))
    × (parse_duration_str "2m" ≡ ok (record { secs = 120; nanos = 0 }))
    × (parse_duration_str "10h" ≡ err "invalid duration format: '10h'")
    × (parse_duration_str "ms" ≡ err "cannot parse integer from empty string")
unfolding parse_duration_str trim strip_suffix parse_u64 read_digits
read_ones = (refl, refl, refl, refl)

-- A point before the nanoseconds.
abbrev shown : ℕ → ℕ → String
shown secs nanos = if nanos == 0 then decimal secs else decimal secs ⧺ ("." ⧺ decimal nanos)

shown-PrintsSeconds : PrintsSeconds shown
shown-PrintsSeconds = record {
  whole = λ secs h. refl;
  fraction = λ secs nanos h some_ small.
      let there : (nanos == 0) ≡ false = ground arith in
      (decimal nanos, decimal-AreDigits nanos, rw there refl);
}

parse_duration_str-serialize_example :
    parse_duration_str (serialize shown (record { secs = 2; nanos = 500000000 }))
    ≡ err "invalid digit found in string"
parse_duration_str-serialize_example =
    (parse_duration_str-serialize shown shown-PrintsSeconds
        (record { secs = 2; nanos = 500000000 })).1
      (omega arith) (omega arith) (omega arith)
