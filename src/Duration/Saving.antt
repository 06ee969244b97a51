-- ===== src/Duration/Saving.antt =====
-- Which durations come back from what is written of them.
use Prim.Native.Char.{Char, code}
use silverwind.Prelude.{
  ℕ, ◌^◌, ◌≤◌, ◌<◌, String, ◌≡◌, refl, sym, ap, ◌∙◌, ◌≢◌, inl, inr, false, none, some, arith,
  eq_iff, str_eq, ◌==◌, Bool-cases, Outcome, ok, err, ◌>>=◌, string_eq, ◌⧺◌, decimal,
}
use text.Mathlib.TextLemmas.{cons-append, nil-append}
use silverwind.Prelude.Digits.{
  parse_u64, decimal-begins, read_digits, read_digits-decimal, read_digits-decimal_append,
  AreDigits, decimal-AreDigits,
}
use silverwind.Duration.{
  Duration, parse_duration_str, serialize, trim, trim_start, trim_end, kept_at_end, is_space,
  strip_suffix, behind, unit_ms, unit_s,
}

-- Digits and points.
AreNumeric : String → Type 0
AreNumeric String.[] = Unit
AreNumeric (String.◌∷◌ c s) = (46 ≤ code c) × (code c ≤ 57) × AreNumeric s

first : String → ℕ
first String.[] = 0
first (String.◌∷◌ c s) = code c

no_space : (n : ℕ) → 46 ≤ n → n ≤ 57 → is_space n ≡ false
unfolding is_space
no_space n low high = ground arith

differs : (c : Char) (s t : String) → code c ≢ first t → str_eq (String.◌∷◌ c s) t ≡ false
unfolding first
differs c s t h = elim (Bool-cases (str_eq (String.◌∷◌ c s) t)) [
  | inl same ↦ absurd (h (ap first ((eq_iff (String.◌∷◌ c s) t).0 same)))
  | inr other ↦ other
]

cons : (c : Char) (s : String) → String.◌∷◌ c s ⧺ "s" ≡ String.◌∷◌ c (s ⧺ "s")
cons c s = cons-append c s "s"

kept_at_end-none :
    (c : Char) (s : String) → is_space (code c) ≡ false → kept_at_end c s ≡ String.◌∷◌ c s
unfolding kept_at_end
kept_at_end-none c String.[] h = rw h refl
kept_at_end-none c (String.◌∷◌ d s) h = refl

trim_end-numeric : (s : String) → AreNumeric s → trim_end (s ⧺ "s") ≡ s ⧺ "s"
unfolding trim_end kept_at_end is_space AreNumeric
trim_end-numeric String.[] h = refl
trim_end-numeric (String.◌∷◌ c s) (low, high, h) =
    ap trim_end (cons c s)
    ∙ (kept_at_end-none c (trim_end (s ⧺ "s")) (no_space (code c) low high)
        ∙ (ap (String.◌∷◌ c) (trim_end-numeric s h) ∙ sym (cons c s)))

trim_start-numeric : (s : String) → AreNumeric s → trim_start (s ⧺ "s") ≡ s ⧺ "s"
unfolding trim_start is_space AreNumeric
trim_start-numeric String.[] h = refl
trim_start-numeric (String.◌∷◌ c s) (low, high, h) =
    ap trim_start (cons c s) ∙ (rw (no_space (code c) low high) refl ∙ sym (cons c s))

trim-numeric : (s : String) → AreNumeric s → trim (s ⧺ "s") ≡ s ⧺ "s"
unfolding trim
trim-numeric s h = ap trim_end (trim_start-numeric s h) ∙ trim_end-numeric s h

no_millis : (s : String) → AreNumeric s → strip_suffix (s ⧺ "s") "ms" ≡ none
unfolding strip_suffix behind AreNumeric first
no_millis String.[] h = refl
no_millis (String.◌∷◌ c s) (low, high, h) =
    ap (λ t. strip_suffix t "ms") (cons c s)
    ∙ rw (differs c (s ⧺ "s") "ms" λ e. absurd (omega arith)) (ap (behind c) (no_millis s h))

seconds : (s : String) → AreNumeric s → strip_suffix (s ⧺ "s") "s" ≡ some s
unfolding strip_suffix behind AreNumeric first
seconds String.[] h = refl
seconds (String.◌∷◌ c s) (low, high, h) =
    ap (λ t. strip_suffix t "s") (cons c s)
    ∙ rw (differs c (s ⧺ "s") "s" λ e. absurd (omega arith)) (ap (behind c) (seconds s h))

-- A text of digits and points before an `s` is read as a number of seconds.
parse_duration_str-numeric :
    (s : String) (n : Outcome ℕ)
    → AreNumeric s
    → parse_u64 s ≡ n
    → parse_duration_str (s ⧺ "s") ≡ (n >>= λ k. ok (record { secs = k; nanos = 0 }))
unfolding parse_duration_str unit_s unit_ms
parse_duration_str-numeric s n h e =
    rw (trim-numeric s h) (rw (no_millis s h) (rw (seconds s h) (rw e refl)))

digits-AreNumeric : (s t : String) → AreDigits s → AreNumeric t → AreNumeric (s ⧺ t)
unfolding AreNumeric AreDigits
digits-AreNumeric String.[] t h k = rw (nil-append t) k
digits-AreNumeric (String.◌∷◌ c s) t (low, high, h) k =
    rw (cons-append c s t) (omega arith, high, digits-AreNumeric s t h k)

parse_u64-numeric : (s : String) → AreNumeric s → s ≢ "" → parse_u64 s ≡ read_digits s 0
unfolding parse_u64 AreNumeric
parse_u64-numeric String.[] h f = absurd (f refl)
parse_u64-numeric (String.◌∷◌ c s) (low, high, h) f =
    let plain : (code c == 43) ≡ false = ground arith in rw plain refl

only_digits : (s : String) → AreDigits s → AreNumeric s
unfolding AreNumeric AreDigits
only_digits String.[] h = tt
only_digits (String.◌∷◌ c s) (low, high, h) = (omega arith, high, only_digits s h)

joined-begins : (n : ℕ) (t : String) → decimal n ⧺ t ≢ ""
joined-begins n t e = decimal-begins n (append-nil_left (decimal n) t e)
  where
    append-nil_left : (s t : String) → s ⧺ t ≡ "" → s ≡ ""
    append-nil_left String.[] t e = refl
    append-nil_left (String.◌∷◌ c s) t e = absurd (begin (sym (cons-append c s t) ∙ e))
      where
        begin : {c : Char} {s : String} → String.◌∷◌ c s ≢ ""
        begin e = cc

whole-parsed :
    (n : ℕ)
    → n ≤ 18446744073709551615
    → parse_duration_str (decimal n ⧺ "s") ≡ ok (record { secs = n; nanos = 0 })
whole-parsed n fits =
    let numeric = only_digits (decimal n) (decimal-AreDigits n) in
    parse_duration_str-numeric (decimal n) (ok n) numeric
      (parse_u64-numeric (decimal n) numeric (decimal-begins n) ∙ read_digits-decimal n fits)

point : (t : String) → "." ⧺ t ≡ String.◌∷◌ "." t
point t = cons-append "." "" t ∙ ap (String.◌∷◌ ".") (nil-append t)

point-AreNumeric : (t : String) → AreDigits t → AreNumeric ("." ⧺ t)
unfolding AreNumeric
point-AreNumeric t h = rw (point t) (omega arith, omega arith, only_digits t h)

point-refused : (t : String) (n : ℕ) → read_digits ("." ⧺ t) n ≡ err "invalid digit found in string"
unfolding read_digits
point-refused t n = ap (λ s. read_digits s n) (point t)

fraction-refused :
    (n : ℕ) (t : String)
    → n ≤ 18446744073709551615
    → AreDigits t
    → parse_duration_str ((decimal n ⧺ ("." ⧺ t)) ⧺ "s") ≡ err "invalid digit found in string"
fraction-refused n t fits h =
    let text = decimal n ⧺ ("." ⧺ t) in
    let numeric =
      digits-AreNumeric (decimal n) ("." ⧺ t) (decimal-AreDigits n) (point-AreNumeric t h) in
    parse_duration_str-numeric text (err "invalid digit found in string") numeric (
      parse_u64-numeric text numeric (joined-begins n ("." ⧺ t))
      ∙ (read_digits-decimal_append n ("." ⧺ t) fits ∙ point-refused t n))

-- What Display prints of the number of seconds: the seconds alone if there is no fraction, and a
-- point and more digits behind them if there is one, as long as the number has the precision.
pub record PrintsSeconds (show_f64 : ℕ → ℕ → String) : Type 0 where
  pub whole : (secs : ℕ) → secs < 2 ^ 53 → show_f64 secs 0 ≡ decimal secs
  pub fraction :
      (secs nanos : ℕ)
      → secs < 2 ^ 20
      → 0 < nanos
      → nanos < 10 ^ 9
      → (t : String) × AreDigits t × (show_f64 secs nanos ≡ decimal secs ⧺ ("." ⧺ t))

-- A duration of whole seconds, fewer than 2 ^ 53, is read back from what is written of it; but what
-- is written of one with a fraction of a second, of fewer than 2 ^ 20 seconds, is refused.
pub parse_duration_str-serialize :
    (show_f64 : ℕ → ℕ → String)
    → PrintsSeconds show_f64
    → (d : Duration)
    → (d.nanos ≡ 0 → d.secs < 2 ^ 53 → parse_duration_str (serialize show_f64 d) ≡ ok d)
      × (0 < d.nanos
          → d.nanos < 10 ^ 9
          → d.secs < 2 ^ 20
          → parse_duration_str (serialize show_f64 d) ≡ err "invalid digit found in string")
unfolding serialize
parse_duration_str-serialize show_f64 prints d = (
  λ e small.
      ap (λ x. parse_duration_str (show_f64 d.secs x ⧺ "s")) e
      ∙ (ap (λ s. parse_duration_str (s ⧺ "s")) (prints.whole d.secs small)
          ∙ (whole-parsed d.secs (omega arith)
              ∙ ap (λ x. ok (record { secs = d.secs; nanos = x })) (sym e))),
  λ some_ nanos small.
      let (t, digits, shown) = prints.fraction d.secs d.nanos small some_ nanos in
      ap (λ s. parse_duration_str (s ⧺ "s")) shown ∙ fraction-refused d.secs t (omega arith) digits,
)
