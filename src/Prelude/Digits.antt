-- ===== src/Prelude/Digits.antt =====
-- How a `u64` is read: `s.parse::<u64>()`, and that it reads what `decimal` writes.
use Prim.Native.Char.{Char, code}
use Prim.Native.Nat.{ℕ, zero, suc, ◌+◌, ◌-◌, ◌*◌, ◌/◌, ◌%◌, ◌≤◌, ◌<◌}
use Prim.Native.String.{String}
use mathlib.Core.Path.{◌≡◌, refl, sym, ap, ◌∙◌}
use mathlib.Core.Bool.{false, ◌||◌}
use mathlib.Core.Logic.{inl, inr, ◌≢◌}
use text.Mathlib.TextLemmas.{cons-append, nil-append, append_assoc}
use native.Mathlib.Omega.{arith}
use silverwind.Prelude.Tests.{if◌then◌else◌, ◌==◌, ltb, Bool-cases}
use silverwind.Prelude.Results.{Outcome, ok, err}
use silverwind.Prelude.Text.{digit, decimal_from, decimal, ◌⧺◌}

-- The digits after a number that was read so far.
unfoldable pub read_digits : String → ℕ → Outcome ℕ
read_digits String.[] n = ok n
read_digits (String.◌∷◌ c s) n =
    let d = code c - 48 in
    let later = read_digits s (n * 10 + d) in
    if ltb (code c) 48 || ltb 57 (code c)
    then err "invalid digit found in string"
    else if ltb 18446744073709551615 (n * 10 + d)
    then err "number too large to fit in target type"
    else later

-- A sign that is not followed by a digit is no number.
after_plus : String → Outcome ℕ
unfolding read_digits
after_plus String.[] = err "invalid digit found in string"
after_plus (String.◌∷◌ c s) = read_digits (String.◌∷◌ c s) 0

unfoldable pub parse_u64 : String → Outcome ℕ
unfolding read_digits after_plus
parse_u64 String.[] = err "cannot parse integer from empty string"
parse_u64 (String.◌∷◌ c s) =
    let plain = read_digits (String.◌∷◌ c s) 0 in if code c == 43 then after_plus s else plain

char_of : (d : ℕ) → d < 10 → (c : Char) × (digit d ≡ String.◌∷◌ c String.[]) × (code c ≡ 48 + d)
unfolding digit
char_of zero h = ("0", refl, refl)
char_of (suc zero) h = ("1", refl, refl)
char_of (suc (suc zero)) h = ("2", refl, refl)
char_of (suc (suc (suc zero))) h = ("3", refl, refl)
char_of (suc (suc (suc (suc zero)))) h = ("4", refl, refl)
char_of (suc (suc (suc (suc (suc zero))))) h = ("5", refl, refl)
char_of (suc (suc (suc (suc (suc (suc zero)))))) h = ("6", refl, refl)
char_of (suc (suc (suc (suc (suc (suc (suc zero))))))) h = ("7", refl, refl)
char_of (suc (suc (suc (suc (suc (suc (suc (suc zero)))))))) h = ("8", refl, refl)
char_of (suc (suc (suc (suc (suc (suc (suc (suc (suc zero))))))))) h = ("9", refl, refl)
char_of (suc (suc (suc (suc (suc (suc (suc (suc (suc (suc n)))))))))) h = absurd (omega arith)

tens : ℕ → ℕ
tens zero = 1
tens (suc k) = 10 * tens k

-- One digit is read.
read_one :
    (c : Char) (d m : ℕ) (s : String)
    → code c ≡ 48 + d
    → d < 10
    → m * 10 + d ≤ 18446744073709551615
    → read_digits (String.◌∷◌ c s) m ≡ read_digits s (m * 10 + d)
unfolding read_digits
read_one c d m s value h fits =
    let low : ltb (48 + d) 48 ≡ false = ground arith in
    let high : ltb 57 (48 + d) ≡ false = ground arith in
    let small : ltb 18446744073709551615 (m * 10 + (48 + d - 48)) ≡ false = ground arith in
    rw value (rw low (rw high (rw small (ap (read_digits s) (omega arith)))))

read_digits-digit :
    (d m : ℕ) (s : String)
    → d < 10
    → m * 10 + d ≤ 18446744073709551615
    → read_digits (digit d ⧺ s) m ≡ read_digits s (m * 10 + d)
read_digits-digit d m s h fits =
    let (c, is_c, value) = char_of d h in
    ap (λ t. read_digits (t ⧺ s) m) is_c
    ∙ (ap (λ t. read_digits t m) (cons-append c String.[] s ∙ ap (String.◌∷◌ c) (nil-append s))
        ∙ read_one c d m s value h fits)

read_digits-decimal_from :
    (fuel n : ℕ) (s : String)
    → n < tens fuel
    → n ≤ 18446744073709551615
    → read_digits (decimal_from fuel n s) 0 ≡ read_digits s n
unfolding decimal_from tens
read_digits-decimal_from zero n s h fits = ap (read_digits s) (omega arith)
read_digits-decimal_from (suc fuel) n s h fits = elim (Bool-cases (ltb n 10)) [
  | inl small ↦
      rw small
        (read_digits-digit n 0 s (ground arith) (omega arith) ∙ ap (read_digits s) (omega arith))
  | inr large ↦ rw large (
      read_digits-decimal_from fuel (n / 10) (digit (n % 10) ⧺ s) (omega arith) (omega arith)
      ∙ (read_digits-digit (n % 10) (n / 10) s (omega arith) (omega arith)
          ∙ ap (read_digits s) (omega arith)))
]

tens_20 : tens 20 ≡ 100000000000000000000
unfolding tens
tens_20 = refl

-- The fuel 20 is enough for a `u64`.
pub read_digits-decimal : (n : ℕ) → n ≤ 18446744073709551615 → read_digits (decimal n) 0 ≡ ok n
unfolding decimal read_digits
read_digits-decimal n fits = read_digits-decimal_from 20 n "" (rw tens_20 (omega arith)) fits

decimal_from-append :
    (fuel n : ℕ) (s t : String) → decimal_from fuel n s ⧺ t ≡ decimal_from fuel n (s ⧺ t)
unfolding decimal_from
decimal_from-append zero n s t = refl
decimal_from-append (suc fuel) n s t = elim (Bool-cases (ltb n 10)) [
  | inl small ↦ rw small (append_assoc (digit n) s t)
  | inr large ↦ rw large (
      decimal_from-append fuel (n / 10) (digit (n % 10) ⧺ s) t
      ∙ ap (decimal_from fuel (n / 10)) (append_assoc (digit (n % 10)) s t))
]

pub read_digits-decimal_append :
    (n : ℕ) (t : String)
    → n ≤ 18446744073709551615
    → read_digits (decimal n ⧺ t) 0 ≡ read_digits t n
unfolding decimal
read_digits-decimal_append n t fits =
    ap (λ s. read_digits s 0)
      (decimal_from-append 20 n "" t ∙ ap (decimal_from 20 n) (nil-append t))
    ∙ read_digits-decimal_from 20 n t (rw tens_20 (omega arith)) fits

-- A text of digits alone.
unfoldable pub AreDigits : String → Type 0
AreDigits String.[] = Unit
AreDigits (String.◌∷◌ c s) = (48 ≤ code c) × (code c ≤ 57) × AreDigits s

digit-AreDigits : (d : ℕ) (s : String) → d < 10 → AreDigits s → AreDigits (digit d ⧺ s)
unfolding AreDigits
digit-AreDigits d s h rest =
    let (c, is_c, value) = char_of d h in
    rw (is_c) (
      rw (cons-append c String.[] s ∙ ap (String.◌∷◌ c) (nil-append s))
        (rw value (omega arith, omega arith, rest)))

decimal_from-AreDigits : (fuel n : ℕ) (s : String) → AreDigits s → AreDigits (decimal_from fuel n s)
unfolding decimal_from
decimal_from-AreDigits zero n s h = h
decimal_from-AreDigits (suc fuel) n s h = elim (Bool-cases (ltb n 10)) [
  | inl small ↦ rw small (digit-AreDigits n s (ground arith) h)
  | inr large ↦ rw large (
      decimal_from-AreDigits fuel (n / 10) (digit (n % 10) ⧺ s)
        (digit-AreDigits (n % 10) s (omega arith) h))
]

pub decimal-AreDigits : (n : ℕ) → AreDigits (decimal n)
unfolding decimal AreDigits
decimal-AreDigits n = decimal_from-AreDigits 20 n "" tt

begins : (c : Char) (s : String) → String.◌∷◌ c s ≢ ""
begins c s e = cc

digit-begins : (d : ℕ) (s : String) → d < 10 → digit d ⧺ s ≢ ""
digit-begins d s h e =
    let (c, is_c, value) = char_of d h in
    begins c (String.[] ⧺ s) (sym (ap (λ t. t ⧺ s) is_c ∙ cons-append c String.[] s) ∙ e)

decimal_from-begins : (fuel n : ℕ) (s : String) → s ≢ "" → decimal_from fuel n s ≢ ""
unfolding decimal_from
decimal_from-begins zero n s h = h
decimal_from-begins (suc fuel) n s h = elim (Bool-cases (ltb n 10)) [
  | inl small ↦ rw small (digit-begins n s (ground arith))
  | inr large ↦ rw large (
      decimal_from-begins fuel (n / 10) (digit (n % 10) ⧺ s)
        (digit-begins (n % 10) s (omega arith)))
]

step-begins : (fuel n : ℕ) → decimal_from (suc fuel) n "" ≢ ""
unfolding decimal_from
step-begins fuel n = elim (Bool-cases (ltb n 10)) [
  | inl small ↦ rw small (digit-begins n "" (ground arith))
  | inr large ↦ rw large (
      decimal_from-begins fuel (n / 10) (digit (n % 10) ⧺ "")
        (digit-begins (n % 10) "" (omega arith)))
]

pub decimal-begins : (n : ℕ) → decimal n ≢ ""
unfolding decimal
decimal-begins n = step-begins 19 n
